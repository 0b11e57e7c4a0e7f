-- ===== src/Proc/Exec/Argv/Tests.antt =====
-- Two arguments on a stack of a machine with words of eight bytes.
use riscv_hobby_os.Base.{ℕ, ◌+◌, ◌*◌, ◌-◌, ◌≤◌, ◌≡◌, refl, List, [], ◌∷◌, arith}
use riscv_hobby_os.Proc.Exec.Argv.{Bytes, load_word, copy_argv}
use riscv_hobby_os.Proc.Exec.Argv.Inject.{inject_argv, IsCopy, inject_argv-IsCopy}
use riscv_hobby_os.Proc.Exec.Argv.Copied.{IsArg, HasRoom, copy_argv-IsArg, copy_argv_unterminated}

abbrev some_argv : List (List ℕ)
some_argv = (b'l' ∷ b's' ∷ []) ∷ (b'/' ∷ []) ∷ []

-- A page that is full of old bytes.
abbrev old_bytes : Bytes
old_bytes = λ a. 255

room_test : HasRoom 8 1000 some_argv
room_test = omega arith

argv_runs :
    let (at, m) = copy_argv 8 1000 some_argv old_bytes in
    (load_word 8 (at.new_argv + 8) m ≡ 969)
    × (m 969 ≡ b'/')
    × (m 970 ≡ 0)
    × (load_word 8 (at.new_argv + 16) m ≡ 256 * 256 * 256 * 256 * 256 * 256 * 256 * 256 - 1)
unfolding copy_argv
argv_runs = (refl, refl, refl, refl)

copy_argv-IsArg_example :
    let (at, m) = copy_argv 8 1000 some_argv old_bytes in
    IsArg 8 at.new_sp at.new_argv (at.new_argv + 1 * 8) m (b'/' ∷ [])
    × ((b : ℕ) → 1000 + 8 ≤ b → m b ≡ old_bytes b)
copy_argv-IsArg_example =
    copy_argv-IsArg 8 1000 1 some_argv (b'/' ∷ []) old_bytes (omega arith) room_test refl

copy_argv_unterminated_example :
    let (at, m) = copy_argv 8 1000 some_argv old_bytes in
    load_word 8 (at.new_argv + 2 * 8) m ≡ load_word 8 (1000 - 8) old_bytes
copy_argv_unterminated_example =
    copy_argv_unterminated 8 1000 (b'l' ∷ b's' ∷ []) ((b'/' ∷ []) ∷ []) old_bytes room_test

inject_argv-IsCopy_example :
    let (at, m) = inject_argv 8 1000 some_argv old_bytes in
    IsCopy 8 at.new_sp at.new_argv (at.new_argv + 1 * 8) m (b'/' ∷ [])
    × load_word 8 (at.new_argv + 2 * 8) m ≡ 0
    × ((b : ℕ) → 1000 ≤ b → m b ≡ old_bytes b)
inject_argv-IsCopy_example =
    inject_argv-IsCopy 8 1000 1 some_argv (b'/' ∷ []) old_bytes (omega arith) (omega arith) refl
