-- ===== src/PipeTable/Tests.antt =====
-- The table of pipes at a concrete kernel.
use riscv_hobby_os.Base.{
  ℕ, ◌≡◌, refl, true, false, Option, none, some, List, [], ◌∷◌, Run, done, fault, ◌++◌, length, min,
  arith,
}
use riscv_hobby_os.Page.{PagedMem}
use riscv_hobby_os.Page.Laws.{Allocated}
use riscv_hobby_os.Page.Tests.{half_used, half_used-IsValid, half_used_has_free}
use riscv_hobby_os.Kernel.{
  ProcState, running, sleeping, Kernel, pipe_obj, no_file, no_pipe, pipe_at, set_pipe, proc_at,
}
use riscv_hobby_os.Pipe.Moves.{used, IsValid, contents}
use riscv_hobby_os.PipeTable.Transfer.Copies.{pipe_read-contents}
use riscv_hobby_os.Pipe.{Ring, pipe_do_write, pipe_write_round, pipe_copy_out}
use riscv_hobby_os.Proc.Wake.{proc_mark_for_wakeup}
use riscv_hobby_os.Proc.Sched.{returns, switches}
use riscv_hobby_os.Proc.Wait.{psleep, proc_yield}
use riscv_hobby_os.PipeTable.Transfer.{pipe_read, pipe_write}
use riscv_hobby_os.Kernel.Examples.{some_kernel}
use riscv_hobby_os.PipeTable.{alloc_pipe}
use riscv_hobby_os.PipeTable.Leak.{alloc_pipe_leaks}

-- The one pipe is in use, and one of the two pages is free.
abbrev busy_kernel : Kernel
busy_kernel = record some_kernel {
  mem = half_used;
  pipes = record no_pipe { flags = record { allocated = true; write_closed = false } } ∷ [];
}

alloc_pipe_leaks_example :
    (ptr : ℕ) × (m : PagedMem) × (alloc_pipe 9 4 busy_kernel
      ≡ done none (record busy_kernel { mem = m }))
    × Allocated 1024 512 9 4 0 half_used ptr m
alloc_pipe_leaks_example =
    alloc_pipe_leaks 1024 512 9 4 busy_kernel half_used-IsValid half_used_has_free refl refl

-- Process 0 at a pipe that is empty, over file 0.
abbrev piped : Kernel
piped = record some_kernel {
  files = record no_file { fs_file = pipe_obj 0 } ∷ [];
  pipes =
      record no_pipe {
        flags = record { allocated = true; write_closed = false };
        ring = record { page = 0 ∷ 0 ∷ 0 ∷ 0 ∷ []; rpos = 0; wpos = 0; full = false };
      }
      ∷ [];
}

-- A result, with the bytes in the pipe's page and what the caller does.
abbrev seen : {A : Type 0} → Run Kernel A → Option (A × List ℕ × ProcState)
seen (done a k) = some (a, (pipe_at k 0).ring.page, (proc_at k 0).state)
seen (fault f) = none

abbrev behind : {A : Type 0} → Run Kernel A → Kernel
behind (done a k) = k
behind (fault f) = piped

-- A buffer of four bytes takes four of six; the call sleeps.
write_blocks :
    seen (pipe_write 4 0 (1 ∷ 2 ∷ 3 ∷ 4 ∷ 5 ∷ 6 ∷ []) piped)
    ≡ some ((switches, 4), 1 ∷ 2 ∷ 3 ∷ 4 ∷ [], sleeping)
unfolding pipe_write pipe_write_round pipe_do_write proc_mark_for_wakeup proc_yield psleep
write_blocks = refl

-- A read gives bytes that were written before.
write_reads :
    seen (pipe_read 4 0 8 (behind (pipe_write 4 0 (1 ∷ 2 ∷ 3 ∷ []) piped)))
    ≡ some (returns (1 ∷ 2 ∷ 3 ∷ []), 1 ∷ 2 ∷ 3 ∷ 0 ∷ [], running)
unfolding pipe_write pipe_write_round pipe_do_write pipe_read pipe_copy_out proc_mark_for_wakeup
    proc_yield psleep
write_reads = refl

-- A read of an empty pipe sleeps.
read_blocks : seen (pipe_read 4 0 8 piped) ≡ some (switches, 0 ∷ 0 ∷ 0 ∷ 0 ∷ [], sleeping)
unfolding pipe_read proc_mark_for_wakeup proc_yield psleep
read_blocks = refl

-- Three bytes are in the pipe.
abbrev filled_ring : Ring
filled_ring = record { page = 1 ∷ 2 ∷ 3 ∷ 0 ∷ []; rpos = 0; wpos = 3; full = false }

abbrev filled : Kernel
filled = record piped { pipes = record (pipe_at piped 0) { ring = filled_ring } ∷ [] }

filled-IsValid : IsValid 4 filled_ring
filled-IsValid = record {
  wpos_in = omega arith;
  rpos_in = omega arith;
  fits = omega arith;
  meet = λ e. absurd (ground arith);
}

pipe_read-contents_example :
    let p = pipe_at filled 0 in
    let (bytes, r) = pipe_copy_out 4 p.ring 2 in
    (pipe_read 4 0 2 filled
      ≡ done (returns bytes) (set_pipe 0 (record p { lock = 0; ring = r }) filled))
    × (contents 4 p.ring ≡ bytes ++ contents 4 r)
    × (length bytes ≡ min 2 (used 4 p.ring))
    × IsValid 4 r
pipe_read-contents_example =
    pipe_read-contents 4 0 0 2 0 filled refl refl (omega arith) refl filled-IsValid refl
      (omega arith) (omega arith)
