-- ===== src/PipeTable/Open.antt =====
-- `pipe_open`: a pipe, its two files and their descriptors.
use riscv_hobby_os.Base.{
  ℕ, true, false, ◌||◌, Option, none, some, M, pure, get, ◌>>=◌, ◌>>◌, if◌then◌else◌, ℤ,
  is_negative,
}
use riscv_hobby_os.Errno.{enomem, enfile, emfile}
use riscv_hobby_os.Kernel.{
  pipe_obj, pipe_io, Kernel, proc_at, with_pipe, release, change_file, change_pipe, set_errno,
  myproc,
}
use riscv_hobby_os.Fs.{fs_alloc_file}
use riscv_hobby_os.Proc.Fds.{fd_alloc}
use riscv_hobby_os.PipeTable.{alloc_pipe}

abbrev pub fails_with : (proc pipe code : ℕ) → M Kernel (Option (ℤ × ℤ))
fails_with proc pipe code = do set_errno proc code; with_pipe pipe release; pure none

abbrev pub connect : (proc pipe f0 f1 : ℕ) → M Kernel (Option (ℤ × ℤ))
connect proc pipe f0 f1 = do
  change_file f0 (λ f. record f {
    is_pipe = true;
    readable = true;
    writable = false;
    fs_file = pipe_obj pipe;
    read = pipe_io;
  })
  change_file f1 (λ f. record f {
    is_pipe = true;
    readable = false;
    writable = true;
    fs_file = pipe_obj pipe;
    write = pipe_io;
  })
  change_pipe pipe (λ p. record p { rf = some f0; wf = some f1 })
  fd0 ← fd_alloc proc f0
  fd1 ← fd_alloc proc f1
  if is_negative fd0 || is_negative fd1
      then fails_with proc pipe emfile
      else with_pipe pipe release >> pure (some (fd0, fd1))

-- `f0 == 0 || f1 == 0`
abbrev pub connect_files : (proc pipe : ℕ) → (f0 f1 : Option ℕ) → M Kernel (Option (ℤ × ℤ))
connect_files proc pipe (some f0) (some f1) = connect proc pipe f0 f1
connect_files proc pipe (some f0) none = fails_with proc pipe enfile
connect_files proc pipe none f1 = fails_with proc pipe enfile

abbrev pub open_pipe : (proc : ℕ) → Option ℕ → M Kernel (Option (ℤ × ℤ))
open_pipe proc none = set_errno proc enomem >> pure none
open_pipe proc (some pipe) = do
  change_pipe pipe (λ p. record p { ring = record (p.ring) { wpos = 0; rpos = 0 } })
  f0 ← fs_alloc_file
  f1 ← fs_alloc_file
  connect_files proc pipe f0 f1

-- The two descriptors, or `none` for the return of -1.
pub pipe_open : (site : ℕ) → M Kernel (Option (ℤ × ℤ))
pipe_open site = do
  proc ← myproc
  k ← get
  pipe ← alloc_pipe site (proc_at k proc).pid
  open_pipe proc pipe
