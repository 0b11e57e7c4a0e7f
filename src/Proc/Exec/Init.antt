-- ===== src/Proc/Exec/Init.antt =====
-- src/proc_test.c: `assign_init_program`, which makes the first process.
use riscv_hobby_os.Base.{
  ℕ, ◌*◌, Option, none, some, List, [], ◌∷◌, M, pure, fails, panicked, get, modify, ◌>>=◌, ◌>>◌,
  if◌then◌else◌, length, set, ℤ, is_zero,
}
use riscv_hobby_os.Kernel.{Process, proc_at, with_proc, release, change_proc, reg_a0}
use riscv_hobby_os.Proc.Table.{alloc_process}
use riscv_hobby_os.Proc.Fork.{Machine, reg_sp, init_proc}
use riscv_hobby_os.Proc.Exec.{Program, Exec, on_kernel, reg_a1, find_user_program}
use riscv_hobby_os.Proc.Exec.Argv.{SpArgv}
use riscv_hobby_os.Proc.Exec.Argv.Inject.{inject_argv}

-- The registers that `inject_argv` sets.
abbrev pub inject_regs : (argc : ℕ) → SpArgv → Process → Process
inject_regs argc at p = record p {
  trap = set (set (set p.trap reg_sp at.new_sp) reg_a0 argc) reg_a1 at.new_argv;
}

pub inject_into : Machine → (proc : ℕ) → (argv : List (List ℕ)) → M Exec (Unit {0})
inject_into c proc argv = do
  s ← get
  let (at, bytes) =
      inject_argv c.word_size ((proc_at s.kernel proc).perrno * c.word_size) argv s.bytes
  modify (λ s. record s { bytes = bytes })
  on_kernel (change_proc proc (inject_regs (length argv) at))

-- "-f"
abbrev pub script_flag : List ℕ
script_flag = b'-' ∷ b'f' ∷ []

abbrev pub inject_script :
    Machine → (proc : ℕ) → (name : List ℕ) → (test_script : Option (List ℕ)) → M Exec (Unit {0})
inject_script c proc name none = pure tt
inject_script c proc name (some script) = inject_into c proc (name ∷ script_flag ∷ script ∷ [])

abbrev pub or_panic : ℤ → M Exec (Unit {0})
or_panic status = if is_zero status then pure tt else fails panicked

abbrev pub name_of : Program → List ℕ
name_of p = elim p.name [ none ↦ [] | some n ↦ n ]

abbrev pub assign_to :
    Machine → Program → (test_script : Option (List ℕ)) → Option ℕ → M Exec (Unit {0})
assign_to c program test_script none = fails panicked
assign_to c program test_script (some p0) = do
  status ← on_kernel (init_proc c p0 program.entry_point program.name)
  inject_script c p0 (name_of program) test_script
  on_kernel (with_proc p0 release)
  or_panic status
  on_kernel (modify (λ k. record k { cur = some p0 }))

abbrev pub assign_program :
    Machine → (test_script : Option (List ℕ)) → Option Program → M Exec (Unit {0})
assign_program c test_script none = fails panicked
assign_program c test_script (some program) =
    on_kernel alloc_process >>= assign_to c program test_script

unfoldable pub assign_init_program :
    Machine
    → (programs : List Program) → (prog : List ℕ) → (test_script : Option (List ℕ))
    → M Exec (Unit {0})
assign_init_program c programs prog test_script =
    assign_program c test_script (find_user_program programs prog)
