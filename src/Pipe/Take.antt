-- ===== src/Pipe/Take.antt =====
-- The reader's side of the queue.
use riscv_hobby_os.Base.{
  ℕ, zero, suc, ◌+◌, ◌-◌, ◌≤◌, ◌<◌, ◌≡◌, refl, ◌∙◌, ap, false, List, ◌∷◌, ◌++◌, ◌⊎◌, inl, inr,
  arith, ◌==◌, Bool-cases, length, get_or, min,
}
use riscv_hobby_os.Pipe.{Ring, bump, read_loop, pipe_copy_out, is_empty, clear_full}
use riscv_hobby_os.Pipe.Moves.{used, IsValid, window, contents}
use riscv_hobby_os.Pipe.Queue.{advance, window-append, length-window, used-le, wpos-advance}

-- The ring with the reader `k` places on.
abbrev moved : (n k : ℕ) → Ring → Ring
moved n k r = record r { rpos = advance n r.rpos k }

abbrev cons_byte : ℕ → List ℕ × Ring → List ℕ × Ring
cons_byte b out = (b ∷ out.0, out.1)

-- With `u` bytes ahead of it the loop copies as many as are asked for, or all.
read_loop-window :
    (n size rbuf u : ℕ) (r : Ring)
    → 0 < u
    → u ≤ n
    → r.rpos < n
    → r.wpos ≡ advance n r.rpos u
    → (size ≡ 0) ⊎ ((rbuf ≡ r.rpos) × (r.rpos + min size u ≤ n))
    → read_loop n size rbuf r ≡ (window n r.page r.rpos (min size u), moved n (min size u) r)
unfolding read_loop
read_loop-window n zero rbuf u r p l i w h =
    let e : min 0 u ≡ 0 = omega arith in
    let s : advance n r.rpos 0 ≡ r.rpos = ground arith in rw (e, s)
read_loop-window n (suc size) rbuf u r p l i w (inl z) = absurd (omega arith)
read_loop-window n (suc size) rbuf u r p l i w (inr (e, fits)) =
    elim (Bool-cases (bump n r.rpos == r.wpos)) [
      | inl last ↦
          let one : u ≡ 1 = ground arith in
          let m : min (suc size) u ≡ 1 = omega arith in
          let s : advance n r.rpos 1 ≡ bump n r.rpos = ground arith in rw (e, last, m, s)
      | inr more ↦
          let two : 1 < u = ground arith in
          let m : min (suc size) u ≡ suc (min size (u - 1)) = omega arith in
          let s : advance n (bump n r.rpos) (min size (u - 1))
              ≡ advance n r.rpos (suc (min size (u - 1))) =
            ground arith in
          let rest : read_loop n size (rbuf + 1) (record r { rpos = bump n r.rpos }) ≡ (
            window n r.page (bump n r.rpos) (min size (u - 1)),
            record r { rpos = advance n (bump n r.rpos) (min size (u - 1)) },
          ) =
            read_loop-window n size (rbuf + 1) (u - 1) (record r { rpos = bump n r.rpos })
              (omega arith) (omega arith) (ground arith) (ground arith)
              (elim (Bool-cases (size == 0)) [
                | inl z ↦ inl (ground arith)
                | inr z ↦ inr (ground arith)
              ]) in
          rw (e, more, m, ← s) (ap (cons_byte (get_or r.page r.rpos 0)) (rw e at rest))
    ]

clear_full-window :
    (n : ℕ) (page : List ℕ) (k i : ℕ) (r : Ring)
    → 0 < k
    → clear_full (window n page i k, r) ≡ (window n page i k, record r { full = false })
clear_full-window n page zero i r p = elim p [ ]
clear_full-window n page (suc k) i r p = refl

-- From a ring that is not empty, a `pipe_read` that ends before the end of the buffer returns as
-- many bytes as are asked for, or all there are; they are the front of the contents, and the ring
-- holds the rest.
pub pipe_copy_out-append :
    (n : ℕ) (r : Ring) (size : ℕ)
    → IsValid n r
    → is_empty r ≡ false
    → 0 < size
    → r.rpos + min size (used n r) ≤ n
    → let (bytes, r') = pipe_copy_out n r size in
      IsValid n r'
      × (length bytes ≡ min size (used n r))
      × (contents n r ≡ bytes ++ contents n r')
      × (r'.full ≡ false)
      × (r'.wpos ≡ r.wpos)
unfolding pipe_copy_out
pipe_copy_out-append n r size v ne p h = rw ran (
  record {
    wpos_in = v.wpos_in;
    rpos_in = ground (arith, v.rpos_in);
    fits = v.fits;
    meet = λ e. ground arith;
  },
  length-window n r.page m r.rpos,
  split,
  refl,
  refl,
)
  where
    m : ℕ
    m = min size (used n r)

    some_used : 0 < used n r
    some_used = ground (arith, v.wpos_in, v.rpos_in)

    r' : Ring
    r' = record r { full = false; rpos = advance n r.rpos m }

    rest : used n r ≡ m + used n r'
    rest = ground (arith, used-le n r v, v.wpos_in, v.rpos_in, v.meet)

    split : contents n r ≡ window n r.page r.rpos m ++ contents n r'
    split =
        ap (window n r.page r.rpos) rest
        ∙ window-append n r.page m (used n r') r.rpos v.rpos_in (omega (arith, used-le n r v))

    ran : clear_full (read_loop n size r.rpos r) ≡ (window n r.page r.rpos m, r')
    ran =
        rw
          (read_loop-window n size r.rpos (used n r) r some_used (used-le n r v) v.rpos_in
            (wpos-advance n r v) (inr (refl, h)))
          (clear_full-window n r.page m r.rpos (moved n m r) (omega (arith, some_used)))
