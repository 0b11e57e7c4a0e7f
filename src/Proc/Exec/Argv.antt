-- ===== src/Proc/Exec/Argv.antt =====
-- `copy_argv` of src/proc.c: the arguments are copied to the end of the stack's page, over a memory
-- of bytes. A word is `word_size` bytes, the lowest first. An argument is its text without the zero
-- at its end.
pub mod Memory
pub mod Copied
pub mod Inject
mod Tests
use riscv_hobby_os.Proc.Fork.{stk_round}
use riscv_hobby_os.Base.{
  ℕ, zero, suc, ◌+◌, ◌-◌, ◌*◌, ◌/◌, ◌%◌, Bool, List, [], ◌∷◌, ◌==◌, if◌then◌else◌, length, get_or,
}

abbrev pub Bytes : Type 0
Bytes = ℕ → ℕ

abbrev pub store_byte : (a v : ℕ) → Bytes → Bytes
store_byte a v m = λ b. if b == a then v else m b

abbrev pub store_word : (word_size a v : ℕ) → Bytes → Bytes
store_word zero a v m = m
store_word (suc n) a v m = store_word n (suc a) (v / 256) (store_byte a (v % 256) m)

abbrev pub load_word : (word_size a : ℕ) → Bytes → ℕ
load_word zero a m = 0
load_word (suc n) a m = m a + 256 * load_word n (suc a) m

-- `while (j >= 0) { *spc-- = str[j]; j--; }`: the new `spc`, and the memory. `str[j]` behind the
-- text is its zero.
abbrev pub copy_down : (str : List ℕ) → (j spc : ℕ) → Bytes → ℕ × Bytes
copy_down str zero spc m = (spc - 1, store_byte spc (get_or str 0 0) m)
copy_down str (suc j) spc m = copy_down str j (spc - 1) (store_byte spc (get_or str (suc j) 0) m)

-- One argument: a zero, and the text with its zero.
abbrev pub push_arg : (str : List ℕ) → (spc : ℕ) → Bytes → ℕ × Bytes
push_arg str spc m = copy_down str (length str) (spc - 1) (store_byte spc 0 m)

-- The loop over the arguments; `slot` is the address of `sp[i]`.
abbrev pub push_args : (word_size : ℕ) → (argv : List (List ℕ)) → (slot spc : ℕ) → Bytes → ℕ × Bytes
push_args w [] slot spc m = (spc, m)
push_args w (str ∷ argv) slot spc m =
    let (spc', m') = push_arg str spc m in
    push_args w argv (slot + w) spc' (store_word w slot (suc spc') m')

-- sp_argv_t
pub record SpArgv : Type 0 where
  pub new_sp : ℕ
  pub new_argv : ℕ

-- `*sp-- = 0; sp -= argc;`
abbrev pub argv_at : (word_size sp argc : ℕ) → ℕ
argv_at w sp argc = sp - w - argc * w

abbrev pub copy_args : (word_size sp : ℕ) → (argv : List (List ℕ)) → Bytes → SpArgv × Bytes
copy_args w sp argv m =
    let new_argv = argv_at w sp (length argv) in
    let (spc, m') = push_args w argv new_argv (new_argv - 1) (store_word w sp 0 m) in
    (record { new_sp = stk_round spc; new_argv = new_argv }, m')

unfoldable pub copy_argv : (word_size sp : ℕ) → (argv : List (List ℕ)) → Bytes → SpArgv × Bytes
copy_argv w sp [] m = (record { new_sp = sp; new_argv = 0 }, m)
copy_argv w sp (str ∷ argv) m = copy_args w sp (str ∷ argv) m
