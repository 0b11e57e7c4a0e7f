-- ===== src/Proc/Exec/Refused.antt =====
-- An `exec` that fails.
use riscv_hobby_os.Base.{
  ℕ, ◌<◌, ◌≡◌, refl, Option, none, some, List, M, Run, done, >>-done, >>=-done, ℤ, length,
}
use riscv_hobby_os.Errno.{einval, enoent, enomem}
use riscv_hobby_os.Page.{count_free_pages}
use riscv_hobby_os.Page.Layout.{IsValid}
use riscv_hobby_os.Kernel.{Kernel, proc_at, with_proc, acquire, myproc, write_word}
use riscv_hobby_os.Kernel.Locks.{lock_proc}
use riscv_hobby_os.Proc.Table.Slots.{locked}
use riscv_hobby_os.Proc.Fork.{Machine}
use riscv_hobby_os.Proc.Exec.{
  Program, Exec, on_kernel, find_user_program, args_of, exec_file, proc_execv,
}

-- Why an `exec` fails, and the error number for it.
pub data Refusal (base page_size : ℕ) (programs : List Program) (k : Kernel)
    : Option (List ℕ) → ℕ → Type 0 where
  no_name : Refusal base page_size programs k none einval
  unknown :
      {name : List ℕ}
      → find_user_program programs name ≡ none
      → Refusal base page_size programs k (some name) enoent
  no_memory :
      {name : List ℕ} {program : Program}
      → find_user_program programs name ≡ some program
      → IsValid base page_size k.mem
      → count_free_pages k.mem ≡ 0
      → Refusal base page_size programs k (some name) enomem

-- The process is left locked, with the error number in its word.
abbrev pub refused : (proc code : ℕ) → Kernel → Kernel
refused proc code k = write_word (proc_at k proc).perrno code (locked proc k)

pub on_kernel-done :
    {A : Type 0} (m : M Kernel A) (s : Exec) {a : A} {k : Kernel}
    → m s.kernel ≡ done a k
    → on_kernel m s ≡ done a (record s { kernel = k })
on_kernel-done m s e = rw e refl

module _ (c : Machine) (site proc : ℕ) (programs : List Program) (s : Exec)
    (l : proc < length s.kernel.procs) where
  abbrev held_state : Exec
  held_state = record s { kernel = locked proc s.kernel }

-- The process is found and locked.
pub proc_execv-locked :
    (c : Machine) (site proc : ℕ) (programs : List Program) (filename : Option (List ℕ))
    (argv : Option (List (List ℕ))) (s : Exec) {r : Run Exec ℤ}
    → s.kernel.cur ≡ some proc
    → (proc_at s.kernel proc).lock ≡ 0
    → exec_file c site proc programs
        (args_of argv)
        filename
        (record s { kernel = locked proc s.kernel })
      ≡ r
    → proc_execv c site programs filename argv s ≡ r
unfolding proc_execv
proc_execv-locked c site proc programs filename argv s e u f =
    >>=-done (on_kernel myproc) _ s {a = proc} {s' = s} (on_kernel-done myproc s (rw e refl)) (
      >>-done (on_kernel (with_proc proc acquire))
        (exec_file c site proc programs (args_of argv) filename) s
        (on_kernel-done (with_proc proc acquire) s (lock_proc proc s.kernel u)) f)
