-- ===== src/Pipe/Stream.antt =====
-- A pipe over a whole history of writes and reads, in any interleaving.
use mathlib.Core.List.{append_assoc, append-nil}
use riscv_hobby_os.Base.{
  ℕ, zero, suc, ◌+◌, ◌-◌, ◌^◌, ◌≤◌, ◌<◌, ◌≡◌, ◌∙◌, sym, ap, false, List, [], ◌∷◌, ◌++◌, inl, inr,
  arith, ltb, leb, if◌then◌else◌, Bool-cases, length, take, take-nil, min, not, Option, none, some,
}
use riscv_hobby_os.Pipe.{Ring, pipe_write_round, pipe_copy_out, is_empty, available}
use riscv_hobby_os.Pipe.Moves.{used, IsValid, contents}
use riscv_hobby_os.Pipe.Queue.{pipe_do_write-append}
use riscv_hobby_os.Pipe.Take.{pipe_copy_out-append}

-- A round of `pipe_write` with these bytes left, or a `pipe_read` that asks for so many.
pub data Transfer : Type 0 where
  writes : List ℕ → Transfer
  reads : ℕ → Transfer

-- What went into the pipe, what came out, and the ring.
pub record Moved : Type 0 where
  pub accepted : List ℕ
  pub delivered : List ℕ
  pub ring : Ring

abbrev written : Ring → List ℕ → Option (ℕ × Ring) → Moved
written r bytes none = record { accepted = []; delivered = []; ring = r }
written r bytes (some (k, r')) = record { accepted = take k bytes; delivered = []; ring = r' }

-- A read of an empty ring waits, and moves nothing.
abbrev read_out : ℕ → Ring → ℕ → Moved
read_out n r size =
    if is_empty r
    then record { accepted = []; delivered = []; ring = r }
    else (let (bytes, r') = pipe_copy_out n r size in
        record { accepted = []; delivered = bytes; ring = r' })

unfoldable pub step : ℕ → Ring → Transfer → Moved
step n r (writes bytes) = written r bytes (pipe_write_round n r bytes)
step n r (reads size) = read_out n r size

unfoldable pub run : ℕ → Ring → List Transfer → Moved
run n r [] = record { accepted = []; delivered = []; ring = r }
run n r (t ∷ ts) =
    let first = step n r t in
    let rest = run n first.ring ts in
    record {
      accepted = first.accepted ++ rest.accepted;
      delivered = first.delivered ++ rest.delivered;
      ring = rest.ring;
    }

-- The transfer ends before the end of the buffer.
abbrev pub Straight : ℕ → Ring → Transfer → Type 0
Straight n r (writes bytes) = r.wpos + length bytes ≤ n
Straight n r (reads size) = (0 < size) × (r.rpos + min size (used n r) ≤ n)

abbrev pub AllStraight : ℕ → Ring → List Transfer → Type 0
AllStraight n r [] = Unit {0}
AllStraight n r (t ∷ ts) = Straight n r t × AllStraight n (step n r t).ring ts

-- One transfer: the bytes in the pipe and those that go in are those that come out and those left.
record Keeps (n : ℕ) (r : Ring) (out : Moved) : Type 0 where
  valid : IsValid n out.ring
  order : contents n r ++ out.accepted ≡ out.delivered ++ contents n out.ring

-- In a valid ring the word `available` is no negative `int32_t`, and it is 0 only in a full ring.
available_lem :
    (n : ℕ) (r : Ring)
    → IsValid n r
    → n < 2 ^ 30
    → (leb (2 ^ 31) (available n r) ≡ false) × (ltb 0 (available n r) ≡ not r.full)
available_lem n r v h = ground (arith, v.wpos_in, v.rpos_in)

take-min : (bytes : List ℕ) (k : ℕ) → take (min (length bytes) k) bytes ≡ take k bytes
take-min [] k = take-nil (min 0 k) ∙ sym (take-nil k)
take-min (b ∷ bytes) zero = let e : min (length (b ∷ bytes)) 0 ≡ 0 = omega arith in rw e
take-min (b ∷ bytes) (suc k) =
    let e : min (length (b ∷ bytes)) (suc k) ≡ suc (min (length bytes) k) = omega arith in
    rw e (ap (λ t. b ∷ t) (take-min bytes k))

module _ (n : ℕ) (r : Ring) (v : IsValid n r) (small : n < 2 ^ 30) where
  idle-Keeps : Keeps n r (record { accepted = []; delivered = []; ring = r })
  idle-Keeps = record { valid = v; order = append-nil (contents n r) }

  write-Keeps : (bytes : List ℕ) → Straight n r (writes bytes) → Keeps n r (step n r (writes bytes))
  unfolding step pipe_write_round
  write-Keeps bytes s =
      let (never, room) = available_lem n r v small in
      elim (Bool-cases r.full) [
        | inl full ↦ rw (never, room ∙ ap not full) idle-Keeps
        | inr free ↦
            let (v', k, c, _) = pipe_do_write-append n r bytes v free s in
            rw (never, room ∙ ap not free)
              (record {
                valid = v';
                order =
                    ap (λ t. contents n r ++ take t bytes) k
                    ∙ ap (λ t. contents n r ++ t) (take-min bytes (n - used n r))
                    ∙ sym c;
              })
      ]

  read-Keeps : (size : ℕ) → Straight n r (reads size) → Keeps n r (step n r (reads size))
  unfolding step
  read-Keeps size s = elim (Bool-cases (is_empty r)) [
    | inl none_there ↦ rw none_there idle-Keeps
    | inr some_there ↦
        let (v', _, c, _, _) = pipe_copy_out-append n r size v some_there s.0 s.1 in
        rw some_there (record { valid = v'; order = append-nil (contents n r) ∙ c })
  ]

step-Keeps :
    (n : ℕ) (r : Ring) (t : Transfer)
    → IsValid n r
    → n < 2 ^ 30
    → Straight n r t
    → Keeps n r (step n r t)
step-Keeps n r (writes bytes) v small s = write-Keeps n r v small bytes s
step-Keeps n r (reads size) v small s = read-Keeps n r v small size s

-- Over any history of writes and reads, each of which ends before the end of the buffer, the bytes
-- that were in the pipe followed by those accepted are the bytes delivered followed by those still
-- in the pipe: none is lost, made up, doubled or moved.
pub run_order :
    (n : ℕ) (r : Ring) (ts : List Transfer)
    → IsValid n r
    → n < 2 ^ 30
    → AllStraight n r ts
    → let out = run n r ts in
      IsValid n out.ring × (contents n r ++ out.accepted ≡ out.delivered ++ contents n out.ring)
unfolding run
run_order n r [] v small s = (v, append-nil (contents n r))
run_order n r (t ∷ ts) v small s =
    let first = step n r t in
    let k = step-Keeps n r t v small s.0 in
    let (v', rest) = run_order n first.ring ts k.valid small s.1 in
    let last = run n first.ring ts in
    (
      v',
      sym (append_assoc (contents n r) first.accepted last.accepted)
          ∙ ap (λ x. x ++ last.accepted) k.order
          ∙ append_assoc first.delivered (contents n first.ring) last.accepted
          ∙ ap (λ x. first.delivered ++ x) rest
          ∙ sym (append_assoc first.delivered last.delivered (contents n last.ring)),
    )
