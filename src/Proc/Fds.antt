-- ===== src/Proc/Fds.antt =====
-- File descriptors: `fd_alloc`, `fd_free`, `copy_files`, `proc_dup`, `proc_close`, `proc_isopen` and
-- `proc_pipeattch`. MAX_PROC_FDS is the length of a process's `files`. The system calls index it by
-- the user's number unchecked: a number outside is the fault `bad_index`.
pub mod Laws
pub mod Dup
pub mod Files
mod Tests
use riscv_hobby_os.Base.{
  ℕ, ◌+◌, ◌%◌, ◌^◌, ◌-◌, Bool, true, false, not, Option, none, some, List, M, pure, fails, get,
  modify, ◌>>=◌, ◌>>◌, and_then, done, fault, bad_index, ◌==◌, if◌then◌else◌, is_some, length,
  get_elem?, get_or, set, find_index, ℤ, pos, minus, is_negative,
}
use riscv_hobby_os.Errno.{ebadf, emfile, esrch, ebusy}
use riscv_hobby_os.Kernel.{
  Obj, File, Process, Kernel, proc_at, set_proc, file_at, with_proc, acquire, release, change_proc,
  change_file, set_errno, myproc,
}
use riscv_hobby_os.Proc.Wake.{for_slots}
use riscv_hobby_os.Proc.Table.{find_proc_by_pid}
use riscv_hobby_os.Fs.{unref, fs_free_file}

abbrev pub is_null : Option ℕ → Bool
is_null o = not (is_some o)

abbrev pub set_fd : ℕ → Option ℕ → Process → Process
set_fd fd f p = record p { files = set p.files fd f }

abbrev pub take_fd : (proc f : ℕ) → Option ℕ → M Kernel ℤ
take_fd proc f none = pure (minus 1)
take_fd proc f (some i) = change_proc proc (set_fd i (some f)) >> pure (pos i)

pub fd_alloc : (proc f : ℕ) → M Kernel ℤ
fd_alloc proc f k = take_fd proc f (find_index is_null (proc_at k proc).files) k

-- `proc->files[fd]`
abbrev pub fd_file : (proc fd : ℕ) → M Kernel (Option ℕ)
fd_file proc fd k = elim (get_elem? (proc_at k proc).files fd) [
  | none ↦ fault bad_index
  | some f ↦ done f k
]

-- The number is one that `fd_file` has read, or one that `fd_alloc` has returned.
pub fd_free : (proc fd : ℕ) → M Kernel (Unit {0})
fd_free proc fd = change_proc proc (set_fd fd none)

abbrev pub add_ref : File → File
add_ref f = record f { refcount = (f.refcount + 1) % 2 ^ 32 }

abbrev pub add_ref_to : Option ℕ → M Kernel (Unit {0})
add_ref_to none = pure tt
add_ref_to (some f) = change_file f add_ref

-- One round of `copy_files`.
abbrev pub copy_fd : (dst src i : ℕ) → M Kernel (Unit {0})
copy_fd dst src i = do pf ← fd_file src i; add_ref_to pf; change_proc dst (set_fd i pf)

pub copy_files : (dst src : ℕ) → M Kernel (Unit {0})
copy_files dst src = do k ← get; for_slots (length (proc_at k src).files) 0 (copy_fd dst src)

-- Behind the call of `fd_alloc`.
abbrev pub dup_to : (proc f : ℕ) → ℤ → M Kernel ℤ
dup_to proc f newfd =
    if is_negative newfd
    then set_errno proc emfile >> pure newfd
    else change_file f add_ref >> pure newfd

abbrev pub dup_file : (proc : ℕ) → Option ℕ → M Kernel ℤ
dup_file proc none = set_errno proc ebadf >> pure (minus 1)
dup_file proc (some f) = fd_alloc proc f >>= dup_to proc f

pub proc_dup : ℕ → M Kernel ℤ
proc_dup fd = do proc ← myproc; f ← fd_file proc fd; dup_file proc f

abbrev pub close_fd : (proc fd : ℕ) → Option ℕ → M Kernel (Option ℤ)
close_fd proc fd none = set_errno proc ebadf >> pure (some (minus 1))
close_fd proc fd (some f) = do fs_free_file f; fd_free proc fd; pure none

-- `none`: the function ends without a `return`, so its value is not determined.
pub proc_close : ℕ → M Kernel (Option ℤ)
proc_close fd = do proc ← myproc; f ← fd_file proc fd; close_fd proc fd f

pub proc_isopen : ℕ → M Kernel Bool
proc_isopen fd = do proc ← myproc; f ← fd_file proc fd; pure (is_some f)

-- `target_proc->files[FD_STDOUT] = f; target_proc->chan = f->fs_file`
abbrev pub attach : (proc target f : ℕ) → M Kernel ℤ
attach proc target f = do
  with_proc target acquire
  out ← fd_file target 1
  k ← get
  if is_some out
      then (do change_file f unref; with_proc target release; set_errno proc ebusy; pure (minus 1))
      else (do
        change_proc target (set_fd 1 (some f))
        change_proc target (λ p. record p { chan = (file_at k f).fs_file })
        with_proc target release
        pure (pos 0))

abbrev pub attach_to : (proc f : ℕ) → Option ℕ → M Kernel ℤ
attach_to proc f none = do change_file f unref; set_errno proc esrch; pure (minus 1)
attach_to proc f (some target) = attach proc target f

abbrev pub pipeattch_file : (proc pid : ℕ) → Option ℕ → M Kernel ℤ
pipeattch_file proc pid none = set_errno proc ebadf >> pure (minus 1)
pipeattch_file proc pid (some f) = do
  change_file f add_ref
  with_proc proc release
  k ← get
  attach_to proc f (find_proc_by_pid k pid)

-- With no file at `src_fd` the process's lock stays held.
pub proc_pipeattch : (pid src_fd : ℕ) → M Kernel ℤ
proc_pipeattch pid src_fd = do
  proc ← myproc
  with_proc proc acquire
  f ← fd_file proc src_fd
  pipeattch_file proc pid f
