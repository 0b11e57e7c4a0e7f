-- ===== src/Proc/Io.antt =====
-- src/proc.c: `proc_open`, `proc_read` and `proc_write`. A path or a buffer is `none` or 0 where the user's pointer
-- is null. A number outside the descriptors is the fault `bad_index`.
pub mod Read
pub mod Open
pub mod Whole
mod Tests
use riscv_hobby_os.Base.{
  ℕ, ◌+◌, ◌-◌, ◌%◌, ◌^◌, Bool, Option, none, some, List, [], M, pure, get, ◌>>=◌, ◌>>◌, ◌==◌,
  if◌then◌else◌, length, take, ℤ, pos, negsuc, minus, is_negative, to_u32,
}
use riscv_hobby_os.Errno.{einval, enfile, emfile, ebadf}
use riscv_hobby_os.Kernel.{
  Kernel, File, file_at, with_proc, acquire, release, change_proc, change_file, set_errno, myproc,
}
use riscv_hobby_os.Proc.Fds.{set_fd, fd_alloc, fd_file}
use riscv_hobby_os.Fs.{fs_alloc_file}
use riscv_hobby_os.Fs.Open.{Io, fs_open, fs_read, fs_write}

-- `-status`, of a status that is negative
abbrev pub errno_of_status : ℤ → ℕ
errno_of_status (pos n) = n
errno_of_status (negsuc n) = n + 1

-- `*proc->perrno = code; return -1;`
abbrev pub refuse_call : (proc code : ℕ) → M Kernel ℤ
refuse_call proc code = set_errno proc code >> pure (minus 1)

abbrev pub refuse_locked : (proc code : ℕ) → M Kernel ℤ
refuse_locked proc code = do set_errno proc code; with_proc proc release; pure (minus 1)

-- Behind the call of `fs_open`, for descriptor `fd`.
abbrev pub open_done : (proc fd : ℕ) → ℤ → M Kernel ℤ
open_done proc fd status =
    if is_negative status
    then change_proc proc (set_fd fd none) >> refuse_locked proc (errno_of_status status)
    else with_proc proc release >> pure (pos fd)

-- Behind the call of `fd_alloc`.
abbrev pub open_at : (site proc i : ℕ) → (filepath : List ℕ) → ℤ → M Kernel ℤ
open_at site proc i filepath (negsuc n) = refuse_locked proc emfile
open_at site proc i filepath (pos fd) = fs_open site i filepath >>= open_done proc fd

abbrev pub open_file : (site proc : ℕ) → (filepath : List ℕ) → Option ℕ → M Kernel ℤ
open_file site proc filepath none = refuse_call proc enfile
open_file site proc filepath (some i) = do
  with_proc proc acquire
  fd ← fd_alloc proc i
  open_at site proc i filepath fd

abbrev pub open_path : (site proc : ℕ) → Option (List ℕ) → M Kernel ℤ
open_path site proc none = refuse_call proc einval
open_path site proc (some filepath) = do f ← fs_alloc_file; open_file site proc filepath f

pub proc_open : (site : ℕ) → Option (List ℕ) → M Kernel ℤ
proc_open site filepath = do proc ← myproc; open_path site proc filepath

-- `f->position += nread`
abbrev pub move_by : ℕ → File → File
move_by n f = record f { position = (f.position + n) % 2 ^ 32 }

-- Behind the call of `fs_read`: what `proc_read` returns, and the bytes in the buffer.
abbrev pub read_done : (proc i : ℕ) → ℤ × List ℕ → M Kernel (ℤ × List ℕ)
read_done proc i (nread, bytes) =
    if is_negative nread
    then set_errno proc (errno_of_status nread) >> pure (minus 1, bytes)
    else change_file i (move_by (to_u32 nread)) >> pure (nread, bytes)

abbrev pub read_file : Io → (proc buf size : ℕ) → Option ℕ → M Kernel (ℤ × List ℕ)
read_file io proc buf size none = set_errno proc ebadf >> pure (minus 1, [])
read_file io proc buf size (some i) =
    if buf == 0
    then set_errno proc einval >> pure (minus 1, [])
    else (do k ← get; r ← fs_read io i (file_at k i).position size; read_done proc i r)

pub proc_read : Io → (fd buf size : ℕ) → M Kernel (ℤ × List ℕ)
proc_read io fd buf size = do proc ← myproc; f ← fd_file proc fd; read_file io proc buf size f

abbrev pub write_done : (proc : ℕ) → ℤ → M Kernel ℤ
write_done proc status =
    if is_negative status then refuse_call proc (errno_of_status status) else pure status

-- A size of -1 stands for that of the text in the buffer.
abbrev pub write_bytes : (memory : List ℕ) → (nbytes : ℕ) → (text : List ℕ) → List ℕ
write_bytes memory nbytes text = if nbytes == 2 ^ 32 - 1 then text else take nbytes memory

abbrev pub write_file : Io → (proc buf : ℕ) → (bytes : List ℕ) → Option ℕ → M Kernel ℤ
write_file io proc buf bytes none = refuse_call proc ebadf
write_file io proc buf bytes (some i) =
    if buf == 0
    then refuse_call proc einval
    else (do k ← get; status ← fs_write io i (file_at k i).position bytes; write_done proc status)

-- `memory` is what stands in the user's memory from `buf` on, and `text` its part before the first zero.
pub proc_write : Io → (fd buf nbytes : ℕ) → (memory text : List ℕ) → M Kernel ℤ
proc_write io fd buf nbytes memory text = do
  proc ← myproc
  f ← fd_file proc fd
  write_file io proc buf (write_bytes memory nbytes text) f
