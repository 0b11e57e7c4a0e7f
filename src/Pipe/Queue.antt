-- ===== src/Pipe/Queue.antt =====
-- A transfer that does not run past the end of the buffer moves bytes through a queue: what
-- `pipe_do_write` puts in is appended to the contents, and what `pipe_read` takes out is their
-- front.
use riscv_hobby_os.Base.{
  ℕ, zero, suc, ◌+◌, ◌-◌, ◌≤◌, ◌<◌, ◌≡◌, refl, ◌≢◌, ◌∙◌, sym, ap, subst, Bool, true, false, List,
  [], ◌∷◌, ◌++◌, ◌⊎◌, inl, inr, arith, ◌==◌, ltb, if◌then◌else◌, Bool-cases, length, get_or, set,
  take, take-nil, length-set, get_or-set_self, get_or-set_ne, min,
}
use mathlib.Core.List.{append_assoc, append-nil}
use riscv_hobby_os.Pipe.{Ring, bump, write_loop, pipe_do_write}
use riscv_hobby_os.Pipe.Moves.{used, IsValid, window, contents}

-- `k` places on from `i`, round the end of the buffer.
abbrev pub advance : (buf_size i k : ℕ) → ℕ
advance buf_size i k = if ltb (i + k) buf_size then i + k else i + k - buf_size

module _ (n : ℕ) where
  -- A byte written just behind a window extends it.
  pub window-set :
      (page : List ℕ) (b k i w : ℕ)
      → i < n
      → k < n
      → n ≤ length page
      → w ≡ advance n i k
      → window n (set page w b) i (suc k) ≡ window n page i k ++ b ∷ []
  window-set page b zero i w hi hk l e =
      let s : w ≡ i = ground arith in
      rw s (ap (λ x. x ∷ []) (get_or-set_self page i b 0 (omega arith)))
  window-set page b (suc k) i w hi hk l e =
      let other : w ≢ i = ground arith in
      let tail : window n (set page w b) (bump n i) (suc k) ≡ window n page (bump n i) k ++ b ∷ [] =
        window-set page b k (bump n i) w (ground arith) (omega arith) l (ground arith) in
      rw tail (ap (λ x. x ∷ (window n page (bump n i) k ++ b ∷ [])) (get_or-set_ne page b 0 other))

  pub window-append :
      (page : List ℕ) (k m i : ℕ)
      → i < n
      → k ≤ n
      → window n page i (k + m) ≡ window n page i k ++ window n page (advance n i k) m
  window-append page zero m i hi hk =
      let e : advance n i 0 ≡ i = ground arith in rw e (ap (window n page i) (omega arith))
  window-append page (suc k) m i hi hk =
      let e : advance n (bump n i) k ≡ advance n i (suc k) = ground arith in
      let s : suc k + m ≡ suc (k + m) = omega arith in
      rw s (
        ap (λ t. get_or page i 0 ∷ t)
          (window-append page k m (bump n i) (ground arith) (omega arith)
            ∙ ap (λ j. window n page (bump n i) k ++ window n page j m) e))

  pub length-window : (page : List ℕ) (k i : ℕ) → length (window n page i k) ≡ k
  length-window page zero i = refl
  length-window page (suc k) i = ap suc (length-window page k (bump n i))

  pub used-le : (r : Ring) → IsValid n r → used n r ≤ n
  used-le r v = ground arith

  -- The writer stands `used` places behind the reader.
  pub wpos-advance : (r : Ring) → IsValid n r → r.wpos ≡ advance n r.rpos (used n r)
  wpos-advance r v = ground arith

-- One round of the loop of `pipe_do_write`, at the writer's own position.
abbrev pub put : ℕ → ℕ → Ring → Ring
put n b r = record r {
  page = set r.page r.wpos b;
  full = bump n r.wpos == r.rpos;
  wpos = bump n r.wpos;
}

module _ (n b : ℕ) (r : Ring) (v : IsValid n r) (room : r.full ≡ false) where
  pub put-IsValid : IsValid n (put n b r)
  put-IsValid = record {
    wpos_in = ground (arith, v.wpos_in);
    rpos_in = v.rpos_in;
    fits = omega (arith, length-set r.page r.wpos b, v.fits);
    meet = λ e. ground arith;
  }

  pub used-put : used n (put n b r) ≡ suc (used n r)
  used-put = ground (arith, v.wpos_in, v.rpos_in)

  pub contents-put : contents n (put n b r) ≡ contents n r ++ b ∷ []
  contents-put = rw used-put (
      window-set n r.page b (used n r) r.rpos r.wpos v.rpos_in
        (ground (arith, v.wpos_in, v.rpos_in)) v.fits (wpos-advance n r v))

-- What `pipe_do_write` promises: it takes as many bytes as there is room for, in order.
record Written (n : ℕ) (r : Ring) (bytes : List ℕ) (so_far : ℕ) (out : ℕ × Ring) : Type 0 where
  valid : IsValid n out.1
  number : out.0 ≡ so_far + min (length bytes) (n - used n r)
  appended : contents n out.1 ≡ contents n r ++ take (n - used n r) bytes
  reader : out.1.rpos ≡ r.rpos
  has_room : used n out.1 ≡ used n r + min (length bytes) (n - used n r)

module _ (n b so_far : ℕ) (rest : List ℕ) (r : Ring) (v : IsValid n r) (room : r.full ≡ false) where
  -- The round that fills the ring ends the loop.
  last-Written :
      (bump n r.wpos == r.rpos) ≡ true → Written n r (b ∷ rest) so_far (so_far + 1, put n b r)
  last-Written full =
      let u : used n r + 1 ≡ n = ground (arith, used-put n b r v room) in
      let k : n - used n r ≡ 1 = omega arith in
      record {
        valid = put-IsValid n b r v room;
        number = omega arith;
        appended = rw k (contents-put n b r v room);
        reader = refl;
        has_room = omega (arith, used-put n b r v room);
      }

  -- What a later round has written is written behind this one's byte.
  later-Written :
      {out : ℕ × Ring}
      → Written n (put n b r) rest (so_far + 1) out
      → Written n r (b ∷ rest) so_far out
  later-Written w =
      let u : suc (used n r) ≤ n =
        omega (arith, used-put n b r v room, used-le n (put n b r) (put-IsValid n b r v room)) in
      let k : n - used n r ≡ suc (n - used n (put n b r)) = omega (arith, used-put n b r v room) in
      record {
        valid = w.valid;
        number = omega (arith, w.number, k);
        appended = rw k (
            w.appended
            ∙ ap (λ t. t ++ take (n - used n (put n b r)) rest) (contents-put n b r v room)
            ∙ append_assoc (contents n r) (b ∷ []) _);
        reader = w.reader;
        has_room = omega (arith, w.has_room, k, used-put n b r v room);
      }

  -- The next place in the page is the writer's new position, unless nothing is left to write.
  aligned :
      {wbuf : ℕ}
      → wbuf ≡ r.wpos
      → r.wpos + length (b ∷ rest) ≤ n
      → (length rest ≡ 0) ⊎ ((wbuf + 1 ≡ bump n r.wpos) × (bump n r.wpos + length rest ≤ n))
  aligned e fits = elim (Bool-cases (length rest == 0)) [
    | inl z ↦ inl (ground arith)
    | inr z ↦ let s : bump n r.wpos ≡ r.wpos + 1 = ground arith in inr (omega arith, omega arith)
  ]

write_loop-Written :
    (n wbuf so_far : ℕ) (bytes : List ℕ) (r : Ring)
    → IsValid n r
    → r.full ≡ false
    → (length bytes ≡ 0) ⊎ ((wbuf ≡ r.wpos) × (r.wpos + length bytes ≤ n))
    → Written n r bytes so_far (write_loop n wbuf so_far bytes r)
unfolding write_loop
write_loop-Written n wbuf so_far [] r v f h = record {
  valid = v;
  number = omega arith;
  appended = rw (take-nil (n - used n r)) (sym (append-nil (contents n r)));
  reader = refl;
  has_room = omega arith;
}
write_loop-Written n wbuf so_far (b ∷ rest) r v f (inl z) = absurd (omega arith)
write_loop-Written n wbuf so_far (b ∷ rest) r v f (inr (e, fits)) =
    let with_full : Bool → Ring =
      λ t. record r { page = set r.page r.wpos b; full = t; wpos = bump n r.wpos } in
    elim (Bool-cases (bump n r.wpos == r.rpos)) [
      | inl full ↦
          rw (e, full)
            (subst (λ t. Written n r (b ∷ rest) so_far (so_far + 1, with_full t)) full
              (last-Written n b so_far rest r v f full))
      | inr more ↦
          let same : with_full r.full ≡ put n b r = ap with_full (f ∙ sym more) in
          rw (e, more, same)
            (later-Written n b so_far rest r v f (
              write_loop-Written n (r.wpos + 1) (so_far + 1) rest (put n b r)
                (put-IsValid n b r v f) more (aligned n b so_far rest r v f refl fits)))
    ]

-- Into a ring that is not full, `pipe_do_write` of bytes that end before the end of the buffer
-- puts as many as there is room for, returns their number, and appends exactly those to the
-- contents.
pub pipe_do_write-append :
    (n : ℕ) (r : Ring) (bytes : List ℕ)
    → IsValid n r
    → r.full ≡ false
    → r.wpos + length bytes ≤ n
    → let (k, r') = pipe_do_write n r bytes in
      let free = n - used n r in
      IsValid n r'
      × (k ≡ min (length bytes) free)
      × (contents n r' ≡ contents n r ++ take free bytes)
      × (r'.rpos ≡ r.rpos)
unfolding pipe_do_write
pipe_do_write-append n r bytes v f h =
    let w = write_loop-Written n r.wpos 0 bytes r v f (inr (refl, h)) in
    (w.valid, omega (arith, w.number), w.appended, w.reader)
