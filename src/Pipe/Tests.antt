-- ===== src/Pipe/Tests.antt =====
-- The pipe's loops at rings of eight bytes, and the theorems at such.
use riscv_hobby_os.Base.{ℕ, ◌≡◌, refl, false, List, [], ◌∷◌, ◌++◌, arith, replicate, get_or}
use riscv_hobby_os.Pipe.{Ring, pipe_do_write, pipe_write_round, pipe_copy_out}
use riscv_hobby_os.Pipe.Moves.{IsValid, contents}
use riscv_hobby_os.Pipe.Stream.{Transfer, writes, reads, step, run, run_order}
use riscv_hobby_os.Pipe.Wrap.{pipe_do_write_wraps}

abbrev buf_size : ℕ
buf_size = 8

-- A page of four times the buffer, the writer and the reader at a given place.
abbrev ring_at : (wpos rpos : ℕ) → Ring
ring_at wpos rpos = record { page = replicate 32 0; full = false; wpos = wpos; rpos = rpos }

abbrev script : List Transfer
script = writes (1 ∷ 2 ∷ 3 ∷ []) ∷ reads 2 ∷ writes (4 ∷ 5 ∷ []) ∷ reads 9 ∷ []

script_runs : (run buf_size (ring_at 0 0) script).delivered ≡ 1 ∷ 2 ∷ 3 ∷ 4 ∷ 5 ∷ []
unfolding run step pipe_write_round pipe_do_write pipe_copy_out
script_runs = refl

-- Seven bytes written and read put both positions at the last place. Of the next two bytes, written
-- in one call and read in two, the second is lost.
wrapped_runs :
    (run buf_size (ring_at 7 7) (writes (1 ∷ 2 ∷ []) ∷ reads 1 ∷ reads 1 ∷ [])).delivered
    ≡ 1 ∷ 0 ∷ []
unfolding run step pipe_write_round pipe_do_write pipe_copy_out
wrapped_runs = refl

full_runs : (pipe_do_write buf_size (ring_at 0 0) (replicate 9 1)).0 ≡ 8
unfolding pipe_do_write
full_runs = refl

IsValid-at : IsValid buf_size (ring_at 3 1)
IsValid-at = record {
  wpos_in = omega arith;
  rpos_in = omega arith;
  fits = omega arith;
  meet = λ e. ground arith;
}

IsValid-end : IsValid buf_size (ring_at 7 2)
IsValid-end = record {
  wpos_in = omega arith;
  rpos_in = omega arith;
  fits = omega arith;
  meet = λ e. ground arith;
}

IsValid-start : IsValid buf_size (ring_at 0 0)
IsValid-start = record {
  wpos_in = omega arith;
  rpos_in = omega arith;
  fits = omega arith;
  meet = λ e. ground arith;
}

run_order_example :
    let out = run 8 (ring_at 0 0) script in
    IsValid 8 out.ring × (out.accepted ≡ out.delivered ++ contents 8 out.ring)
unfolding step pipe_write_round pipe_do_write pipe_copy_out
run_order_example = run_order 8 (ring_at 0 0) script IsValid-start (omega arith) (omega arith)

pipe_do_write_wraps_example :
    let (k, r') = pipe_do_write 8 (ring_at 7 2) (5 ∷ 6 ∷ []) in
    (k ≡ 2) × (contents 8 r' ≡ contents 8 (ring_at 7 2) ++ 5 ∷ 0 ∷ []) × (get_or r'.page 8 0 ≡ 6)
pipe_do_write_wraps_example =
    pipe_do_write_wraps 8 (ring_at 7 2) 5 6 IsValid-end refl refl (omega arith) (omega arith)
