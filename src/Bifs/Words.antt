-- ===== src/Bifs/Words.antt =====
-- Slashes in a path that is made of words.
use mathlib.Core.List.{append-nil}
use riscv_hobby_os.Base.{
  ℕ, zero, suc, ◌+◌, ◌-◌, ◌<◌, ◌≡◌, ◌≢◌, refl, ◌∙◌, ap, List, [], ◌∷◌, ◌++◌, length, drop, arith,
}
use riscv_hobby_os.Bifs.{char_at, slash_from}

-- A word of a path: not empty, and with no slash and no terminator in it.
abbrev pub NoSlash : List ℕ → Type 0
NoSlash [] = Unit {0}
NoSlash (c ∷ w) = (c ≢ b'/') × (c ≢ 0) × NoSlash w

abbrev pub AreWords : List (List ℕ) → Type 0
AreWords [] = Unit {0}
AreWords (w ∷ ws) = (0 < length w) × NoSlash w × AreWords ws

-- `/usr/bin` for the words `usr` and `bin`
abbrev pub path_of : List (List ℕ) → List ℕ
path_of [] = []
path_of (w ∷ ws) = b'/' ∷ (w ++ path_of ws)

slash_from-word :
    (w rest : List ℕ) (i : ℕ) → NoSlash w → slash_from (w ++ b'/' ∷ rest) i ≡ i + length w
slash_from-word [] rest i h = omega arith
slash_from-word (c ∷ w) rest i (s, z, h) = ground (arith, s, slash_from-word w rest (i + 1) h)

slash_from-last : (w : List ℕ) (i : ℕ) → NoSlash w → slash_from w i ≡ i + length w
slash_from-last [] i h = omega arith
slash_from-last (c ∷ w) i (s, z, h) = ground (arith, s, slash_from-last w (i + 1) h)

-- The slash behind a word is where the rest of the path begins.
pub slash_from-path :
    (w : List ℕ) (ws : List (List ℕ)) (i : ℕ)
    → NoSlash w
    → slash_from (w ++ path_of ws) i ≡ i + length w
slash_from-path w [] i h = rw (append-nil w) (slash_from-last w i h)
slash_from-path w (v ∷ ws) i h = slash_from-word w (v ++ path_of ws) i h

module _ {ℓ} {A : Type ℓ} where
  pub drop-append : (xs ys : List A) → drop (length xs) (xs ++ ys) ≡ ys
  drop-append [] ys = refl
  drop-append (x ∷ xs) ys = drop-append xs ys

-- The character `k` places behind a prefix.
pub char_at-append :
    (xs ys : List ℕ) (k i : ℕ) → i ≡ length xs + k → char_at (xs ++ ys) i ≡ char_at ys k
char_at-append [] ys k i e = let e' : i ≡ k = omega arith in rw e'
char_at-append (x ∷ xs) ys k zero e = absurd (omega arith)
char_at-append (x ∷ xs) ys k (suc i) e = char_at-append xs ys k i (omega arith)

pub last_of_word :
    (w rest : List ℕ) → NoSlash w → 0 < length w → char_at (w ++ rest) (length w - 1) ≢ b'/'
last_of_word [] rest h p = elim p [ ]
last_of_word (c ∷ []) rest (s, z, h) p = s
last_of_word (c ∷ d ∷ w) rest (s, z, h) p = λ e.
    last_of_word (d ∷ w) rest h (omega arith)
      (ap (λ k. char_at (d ∷ (w ++ rest)) k) before_last ∙ shift ∙ e)
  where
    before_last : suc (length w) - 1 ≡ length w
    before_last = omega arith

    one_on : suc (length w) ≡ suc (suc (length w)) - 1
    one_on = omega arith

    shift :
        char_at (d ∷ (w ++ rest)) (length w)
        ≡ char_at (c ∷ d ∷ (w ++ rest)) (suc (suc (length w)) - 1)
    shift = ap (λ k. char_at (c ∷ d ∷ (w ++ rest)) k) one_on
