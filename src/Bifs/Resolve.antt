-- ===== src/Bifs/Resolve.antt =====
-- What a path names: `bifs_opendirpath` goes from directory to directory by the words of the path.
use mathlib.Core.List.{append_assoc}
use riscv_hobby_os.Base.{
  ℕ, zero, suc, ◌+◌, ◌-◌, ◌≤◌, ◌<◌, ◌≡◌, ◌≢◌, refl, ◌∙◌, sym, ap, ap₂, fun_ext, true, false, Option,
  none, some, List, [], ◌∷◌, ◌++◌, ◌==◌, ltb, leb, length, drop, arith, length-append,
}
use riscv_hobby_os.Bifs.{
  Bifs, root, char_at, slash_from, next_slash, bifs_opendir, walk_path, last_word, bifs_opendirpath,
  and_open,
}
use riscv_hobby_os.Bifs.Words.{
  NoSlash, AreWords, path_of, slash_from-path, drop-append, char_at-append, last_of_word,
}

-- From directory to directory, each found by its word in the path.
unfoldable pub resolve : Bifs → (path : List ℕ) → (start dir : ℕ) → List (List ℕ) → Option ℕ
resolve b path start dir [] = some dir
resolve b path start dir (w ∷ ws) =
    and_open (bifs_opendir b (some dir) path (start + 1) (start + 1 + length w))
      (λ next. resolve b path (start + 1 + length w) next ws)

module _ (b : Bifs) (front w : List ℕ) (ws : List (List ℕ)) (slash : ℕ) where
  abbrev whole : List ℕ
  whole = front ++ path_of (w ∷ ws)

  abbrev before : List ℕ
  before = front ++ b'/' ∷ w

  split : whole ≡ before ++ path_of ws
  split = sym (append_assoc front (b'/' ∷ w) (path_of ws))

  length-before : length before ≡ length front + 1 + length w
  length-before = omega (arith, length-append front (b'/' ∷ w))

  -- What stands at the slash behind the word, and just before it.
  at_slash : slash ≡ length front + 1 + length w → char_at whole slash ≡ char_at (path_of ws) 0
  at_slash e =
      ap (λ p. char_at p slash) split
      ∙ char_at-append before (path_of ws) 0 slash (omega (arith, length-before))

  before_slash :
      slash ≡ length front + 1 + length w
      → NoSlash w
      → 0 < length w
      → char_at whole (slash - 1) ≢ b'/'
  before_slash e n p f = last_of_word w (path_of ws) n p (
      char_at_word
      ∙ sym (char_at-append front (path_of (w ∷ ws)) (suc (length w - 1)) (slash - 1) (omega arith))
      ∙ f)
    where
      char_at_word :
          char_at (w ++ path_of ws) (length w - 1) ≡ char_at (path_of (w ∷ ws)) (suc (length w - 1))
      char_at_word = refl

  -- The next slash is behind the next word.
  next_word :
      (v : List ℕ) (vs : List (List ℕ))
      → ws ≡ v ∷ vs
      → NoSlash v
      → slash ≡ length front + 1 + length w
      → next_slash whole (slash + 1) ≡ slash + 1 + length v
  unfolding next_slash
  next_word v vs f n e =
      let here : slash + 1 ≡ length (before ++ b'/' ∷ []) =
        omega (arith, length-append before (b'/' ∷ []), length-before) in
      let path : whole ≡ (before ++ b'/' ∷ []) ++ (v ++ path_of vs) =
        split
        ∙ ap (λ t. before ++ path_of t) f
        ∙ sym (append_assoc before (b'/' ∷ []) (v ++ path_of vs)) in
      ap₂ (λ k p. slash_from (drop k p) (slash + 1)) here path
      ∙ ap (λ t. slash_from t (slash + 1)) (drop-append (before ++ b'/' ∷ []) (v ++ path_of vs))
      ∙ slash_from-path v vs (slash + 1) n

  length-whole : length whole ≡ length before + length (path_of ws)
  length-whole = ap length split ∙ length-append before (path_of ws)

  -- Behind the last word the loop ends, and that word is looked up.
  ends :
      (fuel dir : ℕ)
      → ws ≡ []
      → NoSlash w
      → 0 < length w
      → slash ≡ length front + 1 + length w
      → walk_path fuel b whole (length whole) (length front) slash dir
        ≡ bifs_opendir b (some dir) whole (length front + 1) slash
  unfolding walk_path
  ends fuel dir f n p e = by_fuel fuel
    where
      at_end : (char_at whole slash == 0) ≡ true
      at_end = ground (arith, at_slash e ∙ ap (λ t. char_at (path_of t) 0) f)

      not_slash : (char_at whole (slash - 1) == b'/') ≡ false
      not_slash = ground (arith, before_slash e n p)

      inside : leb slash (length whole) ≡ true
      inside = ground (arith, length-whole, length-before)

      last :
          last_word b whole (length whole) (length front) slash dir
          ≡ bifs_opendir b (some dir) whole (length front + 1) slash
      last = rw (not_slash, inside)

      by_fuel :
          (fuel : ℕ)
          → walk_path fuel b whole (length whole) (length front) slash dir
            ≡ bifs_opendir b (some dir) whole (length front + 1) slash
      by_fuel zero = last
      by_fuel (suc fuel) = rw at_end last

-- The two tests of the loop at a slash that another word follows.
goes_on :
    (b : Bifs) (front w v : List ℕ) (vs : List (List ℕ)) (slash : ℕ)
    → slash ≡ length front + 1 + length w
    → let p = whole b front w (v ∷ vs) slash in
      ((char_at p slash == 0) ≡ false) × (ltb slash (length p) ≡ true)
goes_on b front w v vs slash e = (
  ground (arith, at_slash b front w (v ∷ vs) slash e),
  ground (arith, length-whole b front w (v ∷ vs) slash, length-before b front w (v ∷ vs) slash),
)

and_open-some : (o : Option ℕ) → and_open o (λ next. some next) ≡ o
and_open-some none = refl
and_open-some (some dir) = refl

-- One round later: what the loop does behind the next word, moved to where this round left it.
round_later :
    (b : Bifs) (fuel : ℕ) (front w v : List ℕ) (vs : List (List ℕ)) (slash dir : ℕ)
    → NoSlash v
    → slash ≡ length front + 1 + length w
    → (let front' = before b front w (v ∷ vs) slash in
        let q = front' ++ path_of (v ∷ vs) in
        walk_path fuel b q (length q) (length front') (length front' + 1 + length v) dir
        ≡ resolve b q (length front') dir (v ∷ vs))
    → let p = front ++ path_of (w ∷ v ∷ vs) in
      walk_path fuel b p (length p) slash (next_slash p (slash + 1)) dir
      ≡ resolve b p (length front + 1 + length w) dir (v ∷ vs)
round_later b fuel front w v vs slash dir n e ih =
    ap₂ (λ s t. walk_path fuel b path (length path) s t dir) at next
    ∙ ap (λ q. walk_path fuel b q (length q) (length front') (length front' + 1 + length v) dir)
        (split b front w (v ∷ vs) slash)
    ∙ ih
    ∙ ap₂ (λ q k. resolve b q k dir (v ∷ vs)) (sym (split b front w (v ∷ vs) slash))
        (length-before b front w (v ∷ vs) slash)
  where
    path : List ℕ
    path = whole b front w (v ∷ vs) slash

    front' : List ℕ
    front' = before b front w (v ∷ vs) slash

    at : slash ≡ length front'
    at = e ∙ sym (length-before b front w (v ∷ vs) slash)

    next : next_slash path (slash + 1) ≡ length front' + 1 + length v
    next = next_word b front w (v ∷ vs) slash v vs refl n e ∙ ap (λ i. i + 1 + length v) at

walk_path-resolve :
    (b : Bifs) (fuel : ℕ) (front w : List ℕ) (ws : List (List ℕ)) (slash dir : ℕ)
    → AreWords (w ∷ ws)
    → slash ≡ length front + 1 + length w
    → length ws ≤ fuel
    → let p = front ++ path_of (w ∷ ws) in
      walk_path fuel b p (length p) (length front) slash dir
      ≡ resolve b p (length front) dir (w ∷ ws)
unfolding walk_path resolve
walk_path-resolve b fuel front w [] slash dir (l, n, _) e h =
    ends b front w [] slash fuel dir refl n l e
    ∙ ap (bifs_opendir b (some dir) (front ++ path_of (w ∷ [])) (length front + 1)) e
    ∙ sym (and_open-some _)
walk_path-resolve b zero front w (v ∷ vs) slash dir (l, n, m) e h = absurd (omega arith)
walk_path-resolve b (suc fuel) front w (v ∷ vs) slash dir (l, n, m) e h =
    let p : List ℕ = whole b front w (v ∷ vs) slash in
    let front' : List ℕ = before b front w (v ∷ vs) slash in
    let (t, u) = goes_on b front w v vs slash e in
    rw (t, u)
      (ap₂ and_open (ap (bifs_opendir b (some dir) p (length front + 1)) e) (
        fun_ext λ next. round_later b fuel front w v vs slash next m.1 e (
          walk_path-resolve b fuel front' v vs (length front' + 1 + length v) next m refl
            (omega arith))))

length_path : (ws : List (List ℕ)) → length ws ≤ length (path_of ws)
length_path [] = omega arith
length_path (w ∷ ws) = omega (arith, length_path ws, length-append w (path_of ws))

-- The walk, in terms of `bifs_opendir`.
pub bifs_opendirpath-resolve :
    (b : Bifs) (w : List ℕ) (ws : List (List ℕ))
    → AreWords (w ∷ ws)
    → let p = path_of (w ∷ ws) in bifs_opendirpath b p (length p) ≡ resolve b p 0 root (w ∷ ws)
unfolding bifs_opendirpath next_slash
bifs_opendirpath-resolve b w ws h =
    let first : next_slash (path_of (w ∷ ws)) 1 ≡ 1 + length w = slash_from-path w ws 1 h.1 in
    ap
      (λ s.
        walk_path (length (path_of (w ∷ ws))) b (path_of (w ∷ ws)) (length (path_of (w ∷ ws))) 0 s
          root)
      first
    ∙ walk_path-resolve b (length (path_of (w ∷ ws))) [] w ws (1 + length w) root h refl
        (omega (arith, length_path (w ∷ ws)))
