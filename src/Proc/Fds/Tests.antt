-- ===== src/Proc/Fds/Tests.antt =====
-- Descriptors at a concrete kernel, whose process 0 has the descriptors 0 and 2.
use riscv_hobby_os.Base.{ℕ, ◌+◌, ◌^◌, ◌<◌, ◌≡◌, refl, none, some, [], ◌∷◌, done, length, arith, ℤ}
use riscv_hobby_os.Kernel.{Kernel, proc_at, set_proc, file_at}
use riscv_hobby_os.Kernel.Examples.{some_kernel}
use riscv_hobby_os.Proc.Fds.{proc_dup}
use riscv_hobby_os.Proc.Fds.Laws.{Balanced}
use riscv_hobby_os.Proc.Fds.Dup.{proc_dup-Balanced}

stdin_valid :
    (f : ℕ)
    → some 0 ≡ some f
    → (f < length some_kernel.files) × ((file_at some_kernel f).refcount + 1 < 2 ^ 32)
stdin_valid f e = ground (arith, e)

proc_dup-Balanced_example :
    (r : ℤ) × (k' : Kernel) × (proc_dup 0 some_kernel ≡ done r k') × Balanced some_kernel k'
proc_dup-Balanced_example =
    proc_dup-Balanced some_kernel 0 0 (some 0) refl (omega arith) refl stdin_valid

-- Process 1 with a table of its own, and one reference to file 2.
abbrev two_tables : Kernel
two_tables =
    set_proc 1 (record (proc_at some_kernel 1) { files = none ∷ some 3 ∷ none ∷ none ∷ [] })
      some_kernel
