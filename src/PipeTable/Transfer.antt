-- ===== src/PipeTable/Transfer.antt =====
-- `pipe_read` and `pipe_write` of src/pipe.c. A call runs up to its sleep, `switches`; what it does when it is
-- scheduled again is its `_back`. `buf_size` is PIPE_BUF_SIZE. A read gives the bytes that it copied.
pub mod Copies
use riscv_hobby_os.Base.{
  ℕ, ◌+◌, Bool, true, false, Option, none, some, List, [], ◌∷◌, M, pure, fails, null_deref, get,
  modify, ◌>>=◌, ◌>>◌, bad_cast, ◌==◌, ltb, if◌then◌else◌, length, drop, ℤ, pos, minus,
}
use riscv_hobby_os.Errno.{enobufs, epipe}
use riscv_hobby_os.Pipe.{Ring, is_empty, pipe_copy_out, pipe_write_round}
use riscv_hobby_os.Kernel.{
  Obj, null, pipe_obj, Kernel, file_at, pipe_at, with_pipe, acquire, release, change_pipe, myproc,
}
use riscv_hobby_os.Proc.Wake.{proc_mark_for_wakeup}
use riscv_hobby_os.Proc.Sched.{Step, returns, switches}
use riscv_hobby_os.Proc.Wait.{proc_yield, proc_yield_back}

abbrev put_ring : (pipe : ℕ) → Ring → M Kernel (Unit {0})
put_ring pipe r = change_pipe pipe (λ p. record p { ring = r })

abbrev copied_out : (pipe : ℕ) → List ℕ × Ring → M Kernel (Step (List ℕ))
copied_out pipe (bytes, r) = do put_ring pipe r; with_pipe pipe release; pure (returns bytes)

-- There is nothing to read.
abbrev wait_for_bytes : (pipe : ℕ) → (write_closed : Bool) → M Kernel (Step (List ℕ))
wait_for_bytes pipe true = with_pipe pipe release >> pure (returns [])
wait_for_bytes pipe false = do
  proc_mark_for_wakeup (pipe_obj pipe)
  with_pipe pipe release
  _ ← proc_yield (pipe_obj pipe)
  pure switches

-- From the test of the loop on, with the lock held.
abbrev read_round : (buf_size pipe size : ℕ) → M Kernel (Step (List ℕ))
read_round buf_size pipe size = do
  k ← get
  if is_empty (pipe_at k pipe).ring
      then wait_for_bytes pipe (pipe_at k pipe).flags.write_closed
      else copied_out pipe (pipe_copy_out buf_size (pipe_at k pipe).ring size)

abbrev read_from : (buf_size size : ℕ) → Obj → M Kernel (Step (List ℕ))
read_from buf_size size null = fails null_deref
read_from buf_size size (pipe_obj pipe) = with_pipe pipe acquire >> read_round buf_size pipe size
read_from buf_size size _ = fails bad_cast

unfoldable pub pipe_read : (buf_size file size : ℕ) → M Kernel (Step (List ℕ))
pipe_read buf_size file size = do
  _ ← myproc
  k ← get
  read_from buf_size size (file_at k file).fs_file

-- Behind `swtch`.
pub pipe_read_back : (buf_size proc pipe size : ℕ) → M Kernel (Step (List ℕ))
pipe_read_back buf_size proc pipe size = do
  proc_yield_back proc
  with_pipe pipe acquire
  read_round buf_size pipe size

-- The last part of a round of `pipe_write`. The number is `nwritten`, which the call keeps while it sleeps.
abbrev wrote_all : (pipe nwritten : ℕ) → (all : Bool) → M Kernel (Step ℤ × ℕ)
wrote_all pipe nwritten true = with_pipe pipe release >> pure (returns (pos nwritten), nwritten)
wrote_all pipe nwritten false = do
  with_pipe pipe release
  _ ← proc_yield (pipe_obj pipe)
  pure (switches, nwritten)

abbrev wrote_some : (pipe nbytes nwritten : ℕ) → Option (ℕ × Ring) → M Kernel (Step ℤ × ℕ)
wrote_some pipe nbytes nwritten none =
    with_pipe pipe release >> pure (returns (minus enobufs), nwritten)
wrote_some pipe nbytes nwritten (some (wr, r)) = do
  put_ring pipe r
  (if ltb 0 wr then proc_mark_for_wakeup (pipe_obj pipe) else pure tt)
  wrote_all pipe (nwritten + wr) (nwritten + wr == nbytes)

-- One round of the loop, with the lock held.
abbrev write_round : (buf_size pipe : ℕ) → (bytes : List ℕ) → (nwritten : ℕ) → M Kernel (Step ℤ × ℕ)
write_round buf_size pipe bytes nwritten = do
  k ← get
  wrote_some pipe (length bytes) nwritten
      (pipe_write_round buf_size (pipe_at k pipe).ring (drop nwritten bytes))

abbrev write_to : (buf_size : ℕ) → (bytes : List ℕ) → Obj → M Kernel (Step ℤ × ℕ)
write_to buf_size bytes null = pure (returns (minus epipe), 0)
write_to buf_size bytes (pipe_obj pipe) = do
  with_pipe pipe acquire
  _ ← myproc
  write_round buf_size pipe bytes 0
write_to buf_size bytes _ = fails bad_cast

unfoldable pub pipe_write : (buf_size file : ℕ) → (bytes : List ℕ) → M Kernel (Step ℤ × ℕ)
pipe_write buf_size file bytes = do k ← get; write_to buf_size bytes (file_at k file).fs_file

-- Whether the pipe was closed while the call slept.
abbrev write_again :
    (buf_size pipe : ℕ) → (bytes : List ℕ) → (nwritten : ℕ) → Obj → M Kernel (Step ℤ × ℕ)
write_again buf_size pipe bytes nwritten null = pure (returns (minus epipe), nwritten)
write_again buf_size pipe bytes nwritten _ =
    with_pipe pipe acquire >> write_round buf_size pipe bytes nwritten

-- Behind `swtch`. The pipe is the one that the call was made with.
pub pipe_write_back :
    (buf_size proc file pipe : ℕ) → (bytes : List ℕ) → (nwritten : ℕ) → M Kernel (Step ℤ × ℕ)
pipe_write_back buf_size proc file pipe bytes nwritten = do
  proc_yield_back proc
  k ← get
  write_again buf_size pipe bytes nwritten (file_at k file).fs_file
