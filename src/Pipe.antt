-- ===== src/Pipe.antt =====
-- src/pipe.c: the ring buffer of a pipe. `page` is the memory that `buf` points to, of which the
-- first `buf_size` bytes (PIPE_BUF_SIZE, a quarter of a page) are the pipe's; `buf_size` is a
-- parameter, since the page size differs between the machines. The pipes' table, their files and
-- the processes that sleep on them are `Kernel`'s and `PipeTable`'s.
pub mod Moves
pub mod Queue
pub mod Take
pub mod Stream
pub mod Wrap
mod Tests
use riscv_hobby_os.Base.{
  ℕ, zero, suc, ◌+◌, ◌-◌, ◌%◌, ◌^◌, Bool, true, false, not, ◌&&◌, List, [], ◌∷◌, ◌==◌, leb, ltb,
  Option, none, some, if◌then◌else◌, get_or, set,
}

-- The bits PIPE_FLAG_ALLOCATED and PIPE_FLAG_WRITE_CLOSED of `flags`; PIPE_BUF_FULL is `full` of
-- the ring.
pub record PipeFlags : Type 0 where
  pub allocated : Bool
  pub write_closed : Bool

pub record Ring : Type 0 where
  pub page : List ℕ
  pub full : Bool
  pub wpos : ℕ
  pub rpos : ℕ

-- `pos++; if (pos == PIPE_BUF_SIZE) pos = 0;`
abbrev pub bump : ℕ → ℕ → ℕ
bump buf_size pos = if pos + 1 == buf_size then 0 else pos + 1

-- The loop of `pipe_do_write`. `wbuf` is the place of the next byte in the page; unlike `wpos` it
-- is not reset at the end of the buffer. The result counts on from `nwritten`.
write_loop : (buf_size wbuf nwritten : ℕ) → List ℕ → Ring → ℕ × Ring
write_loop buf_size wbuf nwritten [] r = (nwritten, r)
write_loop buf_size wbuf nwritten (b ∷ rest) r =
    let r' : Ring = record r { page = set r.page wbuf b; wpos = bump buf_size r.wpos } in
    if r'.wpos == r.rpos
    then (nwritten + 1, record r' { full = true })
    else write_loop buf_size (wbuf + 1) (nwritten + 1) rest r'

-- How many of the bytes were written, and the ring.
unfoldable pub pipe_do_write : (buf_size : ℕ) → Ring → List ℕ → ℕ × Ring
unfolding write_loop
pipe_do_write buf_size r bytes = write_loop buf_size r.wpos 0 bytes r

-- `int32_t available = PIPE_BUF_SIZE - wpos + rpos`, 0 when full, as the word that is stored.
abbrev pub available : ℕ → Ring → ℕ
available buf_size r = if r.full then 0 else (buf_size + 2 ^ 32 - r.wpos + r.rpos) % 2 ^ 32

-- One round of the loop of `pipe_write`: `none` is its return of -ENOBUFS, where the stored word
-- reads as a negative `int32_t`.
unfoldable pub pipe_write_round : (buf_size : ℕ) → Ring → List ℕ → Option (ℕ × Ring)
pipe_write_round buf_size r bytes =
    if leb (2 ^ 31) (available buf_size r)
    then none
    else if ltb 0 (available buf_size r)
    then some (pipe_do_write buf_size r bytes)
    else some (0, r)

-- `pipe->rpos == pipe->wpos && ((pipe->flags & PIPE_BUF_FULL) == 0)`
abbrev pub is_empty : Ring → Bool
is_empty r = r.rpos == r.wpos && not r.full

-- The loop of `pipe_read` behind the wait: the bytes that it copies out, and the ring. `rbuf` is
-- the place of the next byte in the page, and is not reset either.
read_loop : (buf_size size rbuf : ℕ) → Ring → List ℕ × Ring
read_loop buf_size zero rbuf r = ([], r)
read_loop buf_size (suc size) rbuf r =
    let b = get_or r.page rbuf 0 in
    let r' : Ring = record r { rpos = bump buf_size r.rpos } in
    let (rest, last) = read_loop buf_size size (rbuf + 1) r' in
    if r'.rpos == r.wpos then (b ∷ [], r') else (b ∷ rest, last)

-- The flag goes down if at least one byte was read.
abbrev clear_full : List ℕ × Ring → List ℕ × Ring
clear_full ([], r) = ([], r)
clear_full (b ∷ bytes, r) = (b ∷ bytes, record r { full = false })

unfoldable pub pipe_copy_out : (buf_size : ℕ) → Ring → ℕ → List ℕ × Ring
unfolding read_loop
pipe_copy_out buf_size r size = clear_full (read_loop buf_size size r.rpos r)
