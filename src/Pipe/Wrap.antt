-- ===== src/Pipe/Wrap.antt =====
-- A transfer that runs past the end of the buffer.
use mathlib.Core.Path.{ap₂}
use mathlib.Core.List.{append_assoc}
use riscv_hobby_os.Base.{
  ℕ, zero, suc, ◌+◌, ◌≤◌, ◌<◌, ◌≡◌, refl, ◌≢◌, ◌∙◌, ap, false, List, [], ◌∷◌, ◌++◌, arith, ◌==◌,
  length, get_or, set, get_or-set_self, get_or-set_ne, length-set,
}
use riscv_hobby_os.Pipe.{Ring, bump, write_loop, pipe_do_write}
use riscv_hobby_os.Pipe.Moves.{used, IsValid, window, contents}
use riscv_hobby_os.Pipe.Queue.{window-set, window-append, wpos-advance, advance}

-- A byte behind the buffer is not seen through it.
window-set_behind :
    (n : ℕ) (page : List ℕ) (j y k i : ℕ)
    → n ≤ j
    → i < n
    → window n (set page j y) i k ≡ window n page i k
window-set_behind n page j y zero i h lt = refl
window-set_behind n page j y (suc k) i h lt =
    let other : j ≢ i = omega arith in
    ap₂ ◌∷◌ (get_or-set_ne page y 0 other)
      (window-set_behind n page j y k (bump n i) h (ground arith))

-- With the writer at the last place of the buffer and at least three free places, a write of two
-- bytes reports both written, and leaves the contents longer by two: but the second byte went to
-- the page behind the buffer, and what a reader finds in its place is the byte that stood at the
-- start of the buffer before.
pub pipe_do_write_wraps :
    (n : ℕ) (r : Ring) (x y : ℕ)
    → IsValid n r
    → r.full ≡ false
    → r.wpos + 1 ≡ n
    → 1 < r.rpos
    → n < length r.page
    → let (k, r') = pipe_do_write n r (x ∷ y ∷ []) in
      (k ≡ 2)
      × (contents n r' ≡ contents n r ++ x ∷ get_or r.page 0 0 ∷ [])
      × (get_or r'.page n 0 ≡ y)
unfolding pipe_do_write write_loop
pipe_do_write_wraps n r x y v f e far big =
    rw ran (refl, seen, get_or-set_self page' n y 0 (omega (arith, long)))
  where
    page' : List ℕ
    page' = set r.page r.wpos x

    long : length page' ≡ length r.page
    long = length-set r.page r.wpos x

    w' : ℕ
    w' = bump n (bump n r.wpos)

    r' : Ring
    r' = record r { page = set page' n y; wpos = w' }

    put_at : ℕ → ℕ × Ring
    put_at j = (2, record r { page = set page' j y; wpos = w' })

    first : (bump n r.wpos == r.rpos) ≡ false
    first = ground arith

    second : (w' == r.rpos) ≡ false
    second = ground arith

    ran : write_loop n r.wpos 0 (x ∷ y ∷ []) r ≡ (2, r')
    ran = rw (first, second) (ap put_at e)

    grown : used n r' ≡ suc (used n r) + 1
    grown = ground (arith, v.wpos_in, v.rpos_in)

    seen : contents n r' ≡ contents n r ++ x ∷ get_or r.page 0 0 ∷ []
    seen =
        window-set_behind n page' n y (used n r') r.rpos (omega arith) v.rpos_in
        ∙ ap (window n page' r.rpos) grown
        ∙ window-append n page' (suc (used n r)) 1 r.rpos v.rpos_in
            (ground (arith, v.wpos_in, v.rpos_in))
        ∙ ap₂ ◌++◌
            (window-set n r.page x (used n r) r.rpos r.wpos v.rpos_in
              (ground (arith, v.wpos_in, v.rpos_in)) v.fits (wpos-advance n r v))
            (ap (λ b. b ∷ []) start)
        ∙ append_assoc (contents n r) (x ∷ []) (get_or r.page 0 0 ∷ [])
      where
        start : get_or page' (advance n r.rpos (suc (used n r))) 0 ≡ get_or r.page 0 0
        start =
            let z : advance n r.rpos (suc (used n r)) ≡ 0 = ground (arith, v.wpos_in, v.rpos_in) in
            rw z (get_or-set_ne r.page x 0 (omega arith))
