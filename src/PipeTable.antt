-- ===== src/PipeTable.antt =====
-- src/pipe.c: the table of pipes, and the closing of a pipe's files. `pipe_open` is in `Open`. What
-- the page at `buf` holds is the ring's `page`; a new pipe keeps the old bytes, which are never read.
pub mod Leak
pub mod Open
pub mod Transfer
mod Tests
use riscv_hobby_os.Base.{
  ℕ, ◌+◌, Bool, true, false, not, ◌&&◌, Option, none, some, List, M, pure, fails, fault, get,
  modify, ◌>>=◌, ◌>>◌, bad_cast, ◌==◌, if◌then◌else◌, find_index, ℤ, pos, map,
}
use riscv_hobby_os.Page.{kalloc, release_page}
use riscv_hobby_os.Pipe.{PipeFlags, Ring}
use riscv_hobby_os.Kernel.{
  Obj, null, uart0, pipe_obj, proc_obj, bifs_obj, File, Pipe, Kernel, file_at, pipe_at, on_mem,
  with_pipes, with_pipe, acquire, release, change_file, change_pipe, deref,
}
use riscv_hobby_os.Proc.Wake.{proc_mark_for_wakeup}

-- The pipes have zeros in their other fields when the kernel starts.
abbrev pub vacant_pipe : Pipe → Pipe
vacant_pipe p = record p {
  flags = record { allocated = false; write_closed = false };
  ring = record (p.ring) { full = false };
}

pub init_pipes : Kernel → Kernel
init_pipes k = record k {
  pipes_lock = 0;
  pipes = map (λ p. record (vacant_pipe p) { buf = 0 }) k.pipes;
}

-- `!pp->flags`
abbrev pub no_flags : Pipe → Bool
no_flags p = not p.flags.allocated && not p.flags.write_closed && not p.ring.full

abbrev occupied : Pipe → Pipe
occupied p = record p { flags = record (p.flags) { allocated = true } }

-- Behind the search of `alloc_pipe`, with the table locked.
abbrev pub claim_pipe : (pipe_buf : ℕ) → Option ℕ → M Kernel (Option ℕ)
claim_pipe pipe_buf none = with_pipes release >> pure none
claim_pipe pipe_buf (some i) = do
  change_pipe i occupied
  with_pipe i acquire
  change_pipe i (λ p. record p { buf = pipe_buf })
  with_pipes release
  pure (some i)

-- The first free pipe, its lock held. `site` is the address of the text "pipe_buf".
pub alloc_pipe : (site pid : ℕ) → M Kernel (Option ℕ)
alloc_pipe site pid = do
  pipe_buf ← on_mem (kalloc site pid)
  if pipe_buf == 0
      then pure none
      else do with_pipes acquire; k ← get; claim_pipe pipe_buf (find_index no_flags k.pipes)

pub free_pipe : ℕ → M Kernel (Unit {0})
free_pipe i = do k ← get; on_mem (release_page (pipe_at k i).buf); change_pipe i vacant_pipe

-- The reading end is being closed.
abbrev pub close_reader : (file pipe : ℕ) → M Kernel (Unit {0})
close_reader file pipe = do
  proc_mark_for_wakeup (pipe_obj pipe)
  k ← get
  if (file_at k file).refcount == 0
      then (do
        wf ← deref (pipe_at k pipe).wf
        change_file wf (λ f. record f { fs_file = null })
        free_pipe pipe)
      else pure tt

-- The writing end is being closed.
abbrev pub close_writer : (file pipe : ℕ) → M Kernel (Unit {0})
close_writer file pipe = do
  k ← get
  (if (file_at k file).refcount == 0
      then change_pipe pipe (λ p. record p { flags = record (p.flags) { write_closed = true } })
      else pure tt)
  proc_mark_for_wakeup (pipe_obj pipe)

abbrev pub close_end : (file pipe : ℕ) → M Kernel ℤ
close_end file pipe = do
  with_pipe pipe acquire
  k ← get
  (if (file_at k file).readable
      then close_reader file pipe
      else if (file_at k file).writable
      then close_writer file pipe
      else pure tt)
  with_pipe pipe release
  pure (pos 0)

-- The file's `fs_file` is taken for a pipe, whatever it points to.
abbrev pub close_file_of : (file : ℕ) → Obj → M Kernel ℤ
close_file_of file null = pure (pos 0)
close_file_of file (pipe_obj pipe) = close_end file pipe
close_file_of file _ = fails bad_cast

pub pipe_close_file : ℕ → M Kernel ℤ
pipe_close_file file = do k ← get; close_file_of file (file_at k file).fs_file
