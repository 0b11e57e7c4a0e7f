-- ===== src/PipeTable/Transfer/Copies.antt =====
-- What `pipe_read` gives when there is something to read.
use riscv_hobby_os.Base.{
  ℕ, zero, suc, ◌+◌, ◌<◌, ◌≤◌, ◌≡◌, refl, ◌∙◌, ap, Bool, false, Option, none, some, List, [], ◌∷◌,
  ◌++◌, Run, done, fault, panicked, >>-done, >>=-done, if◌then◌else◌, length, set, get_or-set_self,
  min,
}
use riscv_hobby_os.Pipe.{Ring, is_empty, pipe_copy_out}
use riscv_hobby_os.Pipe.Moves.{used, IsValid, contents}
use riscv_hobby_os.Pipe.Take.{pipe_copy_out-append}
use riscv_hobby_os.Kernel.{
  pipe_obj, Kernel, Pipe, no_pipe, current_proc, file_at, pipe_at, set_pipe, with_pipe, acquire,
  myproc,
}
use riscv_hobby_os.Kernel.Locks.{lock_pipe}
use riscv_hobby_os.Proc.Sched.{Step, returns}
use riscv_hobby_os.PipeTable.Transfer.{copied_out, wait_for_bytes, read_round, read_from, pipe_read}

set-set : (ps : List Pipe) (i : ℕ) (p q : Pipe) → set (set ps i p) i q ≡ set ps i q
set-set [] i p q = refl
set-set (x ∷ ps) zero p q = refl
set-set (x ∷ ps) (suc i) p q = ap (λ ps. x ∷ ps) (set-set ps i p q)

module _ (k : Kernel) (pipe : ℕ) (h : pipe < length k.pipes) where
  at_pipe : (p : Pipe) → pipe_at (set_pipe pipe p k) pipe ≡ p
  at_pipe p = get_or-set_self k.pipes pipe p no_pipe h

  put_again : (p q : Pipe) → set_pipe pipe q (set_pipe pipe p k) ≡ set_pipe pipe q k
  put_again p q = ap (λ ps. record k { pipes = ps }) (set-set k.pipes pipe p q)

  -- The ring is stored and the lock given back.
  copied_out_lem :
      (p : Pipe) (bytes : List ℕ) (r : Ring)
      → copied_out pipe (bytes, r) (set_pipe pipe p k)
        ≡ done (returns bytes) (set_pipe pipe (record p { lock = 0; ring = r }) k)
  copied_out_lem p bytes r =
      ap (λ q. unlocks (set_pipe pipe (record q { ring = r }) (set_pipe pipe p k))) (at_pipe p)
      ∙ ap unlocks (put_again p (record p { ring = r }))
      ∙ ap (λ q. done (returns bytes) (set_pipe pipe (record q { lock = 0 }) (set_pipe pipe p' k)))
          (at_pipe p')
      ∙ ap (done (returns bytes)) (put_again p' (record p' { lock = 0 }))
    where
      p' : Pipe
      p' = record p { ring = r }

      unlocks : Kernel → Run Kernel (Step (List ℕ))
      unlocks k' = done (returns bytes) (set_pipe pipe (record (pipe_at k' pipe) { lock = 0 }) k')

  round-copies :
      (n size : ℕ) (p : Pipe)
      → is_empty p.ring ≡ false
      → let (bytes, r) = pipe_copy_out n p.ring size in
        read_round n pipe size (set_pipe pipe p k)
        ≡ done (returns bytes) (set_pipe pipe (record p { lock = 0; ring = r }) k)
  round-copies n size p e =
      ap tested (at_pipe p)
      ∙ ap (λ b. chosen b p) e
      ∙ copied_out_lem p ((pipe_copy_out n p.ring size).0) ((pipe_copy_out n p.ring size).1)
    where
      chosen : Bool → Pipe → Run Kernel (Step (List ℕ))
      chosen b q =
          (if b
              then wait_for_bytes pipe q.flags.write_closed
              else copied_out pipe (pipe_copy_out n q.ring size))
            (set_pipe pipe p k)

      tested : Pipe → Run Kernel (Step (List ℕ))
      tested q = chosen (is_empty q.ring) q

-- In a process's read of a pipe that holds bytes and whose lock is free, the call does not sleep. It returns as many
-- bytes as were asked for, or all there are, if that does not run past the end of the buffer. They are the oldest ones,
-- the pipe keeps the rest in order, and nothing else of the kernel changes.
pub pipe_read-contents :
    (n file pipe size proc : ℕ) (k : Kernel)
    → current_proc k ≡ some proc
    → (file_at k file).fs_file ≡ pipe_obj pipe
    → pipe < length k.pipes
    → (pipe_at k pipe).lock ≡ 0
    → IsValid n (pipe_at k pipe).ring
    → is_empty (pipe_at k pipe).ring ≡ false
    → 0 < size
    → (pipe_at k pipe).ring.rpos + min size (used n (pipe_at k pipe).ring) ≤ n
    → let p = pipe_at k pipe in
      let (bytes, r) = pipe_copy_out n p.ring size in
      (pipe_read n file size k
        ≡ done (returns bytes) (set_pipe pipe (record p { lock = 0; ring = r }) k))
      × (contents n p.ring ≡ bytes ++ contents n r)
      × (length bytes ≡ min size (used n p.ring))
      × IsValid n r
unfolding pipe_read
pipe_read-contents n file pipe size proc k c f h l v e s b =
    let (valid, len, split, _, _) = pipe_copy_out-append n (pipe_at k pipe).ring size v e s b in
    (
      >>=-done myproc _ k (ap here c) (
          ap (λ o. read_from n size o k) f
          ∙ >>-done (with_pipe pipe acquire) (read_round n pipe size) k (lock_pipe pipe k l)
              (round-copies k pipe h n size (record (pipe_at k pipe) { lock = 1 }) e)),
      split,
      len,
      valid,
    )
  where
    here : Option ℕ → Run Kernel ℕ
    here o = elim o [ none ↦ fault panicked | some i ↦ done i k ]
