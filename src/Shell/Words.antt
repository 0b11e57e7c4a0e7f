-- ===== src/Shell/Words.antt =====
-- The words of a command: a description of what `parse_command` reads, without its buffer.
use riscv_hobby_os.Base.{
  ℕ, ◌+◌, ◌≤◌, ◌≡◌, ◌≢◌, refl, ◌∙◌, sym, true, false, List, [], ◌∷◌, ◌++◌, ◌==◌, if◌then◌else◌,
  length, length-append, arith, Bool-cases, inl, inr,
}
use riscv_hobby_os.Shell.{space, bar, skip_spaces}

-- The words with the one that is being read, if it has begun.
abbrev pub finish : (words : List (List ℕ)) (word : List ℕ) → List (List ℕ)
finish words [] = words
finish words (ch ∷ word) = words ++ (ch ∷ word) ∷ []

-- The words up to a bar, split at spaces.
unfoldable pub words_from : (words : List (List ℕ)) (word input : List ℕ) → List (List ℕ)
words_from words word [] = finish words word
words_from words word (ch ∷ input) =
    let ended = words_from (finish words word) [] input in
    let longer = words_from words (word ++ ch ∷ []) input in
    if ch == bar then finish words word else if ch == space then ended else longer

-- From the bar on.
pub from_bar : List ℕ → List ℕ
from_bar [] = []
from_bar (ch ∷ input) = let rest = from_bar input in if ch == bar then ch ∷ input else rest

-- No character is the terminator.
abbrev pub IsText : List ℕ → Type 0
IsText [] = Unit {0}
IsText (ch ∷ text) = (ch ≢ 0) × IsText text

pub IsText-append : (xs ys : List ℕ) → IsText xs → IsText ys → IsText (xs ++ ys)
IsText-append [] ys p q = q
IsText-append (x ∷ xs) ys (n, p) q = (n, IsText-append xs ys p q)

abbrev pub AreTexts : List (List ℕ) → Type 0
AreTexts [] = Unit {0}
AreTexts (word ∷ words) = IsText word × AreTexts words

pub AreTexts-append :
    (ws : List (List ℕ)) (w : List ℕ) → AreTexts ws → IsText w → AreTexts (ws ++ w ∷ [])
AreTexts-append [] w p q = (q, tt)
AreTexts-append (v ∷ ws) w (t, p) q = (t, AreTexts-append ws w p q)

pub length-finish_snoc :
    (words : List (List ℕ)) (word : List ℕ) (ch : ℕ)
    → length (finish words (word ++ ch ∷ [])) ≡ length words + 1
length-finish_snoc words [] ch = length-append words ((ch ∷ []) ∷ [])
length-finish_snoc words (c ∷ word) ch = length-append words ((c ∷ (word ++ ch ∷ [])) ∷ [])

finish_snoc_grows :
    (words : List (List ℕ)) (word : List ℕ) (ch : ℕ)
    → length (finish words word) ≤ length (finish words (word ++ ch ∷ []))
finish_snoc_grows words [] ch = omega (arith, length-finish_snoc words [] ch)
finish_snoc_grows words (c ∷ word) ch =
    omega (arith, length-finish_snoc words (c ∷ word) ch, length-append words ((c ∷ word) ∷ []))

-- No word is lost.
pub words_from_grows :
    (words : List (List ℕ)) (word input : List ℕ)
    → length (finish words word) ≤ length (words_from words word input)
unfolding words_from
words_from_grows words word [] = omega arith
words_from_grows words word (ch ∷ input) = elim (Bool-cases (ch == bar)) [
  | inl e ↦ rw e (omega arith)
  | inr n ↦ rw n (elim (Bool-cases (ch == space)) [
    | inl e ↦ rw e (words_from_grows (finish words word) [] input)
    | inr m ↦ rw m (
        omega
          (arith, words_from_grows words (word ++ ch ∷ []) input, finish_snoc_grows words word ch))
  ])
]

space-bar : (ch : ℕ) → (ch == space) ≡ true → (ch == bar) ≡ false
space-bar ch e = ground (arith, e)

pub words_from-space :
    (words : List (List ℕ)) (word : List ℕ) (ch : ℕ) (input : List ℕ)
    → (ch == space) ≡ true
    → words_from words word (ch ∷ input) ≡ words_from (finish words word) [] input
unfolding words_from
words_from-space words word ch input e = rw (space-bar ch e, e) refl

pub from_bar-other :
    (ch : ℕ) (input : List ℕ) → (ch == bar) ≡ false → from_bar (ch ∷ input) ≡ from_bar input
unfolding from_bar
from_bar-other ch input e = rw e refl

pub from_bar-space :
    (ch : ℕ) (input : List ℕ) → (ch == space) ≡ true → from_bar (ch ∷ input) ≡ from_bar input
from_bar-space ch input e = from_bar-other ch input (space-bar ch e)

-- Spaces between two words change nothing.
pub words_from-skip :
    (words : List (List ℕ)) (input : List ℕ)
    → words_from words [] (skip_spaces input) ≡ words_from words [] input
unfolding skip_spaces
words_from-skip words [] = refl
words_from-skip words (ch ∷ input) = elim (Bool-cases (ch == space)) [
  | inl e ↦ rw e (words_from-skip words input ∙ sym (words_from-space words [] ch input e))
  | inr n ↦ rw n refl
]

pub from_bar-skip : (input : List ℕ) → from_bar (skip_spaces input) ≡ from_bar input
unfolding skip_spaces
from_bar-skip [] = refl
from_bar-skip (ch ∷ input) = elim (Bool-cases (ch == space)) [
  | inl e ↦ rw e (from_bar-skip input ∙ sym (from_bar-space ch input e))
  | inr n ↦ rw n refl
]

pub length-skip : (input : List ℕ) → length (skip_spaces input) ≤ length input
unfolding skip_spaces
length-skip [] = omega arith
length-skip (ch ∷ input) = elim (Bool-cases (ch == space)) [
  | inl e ↦ rw e (omega (arith, length-skip input))
  | inr n ↦ rw n (omega arith)
]

pub IsText-skip : (input : List ℕ) → IsText input → IsText (skip_spaces input)
unfolding skip_spaces
IsText-skip [] t = tt
IsText-skip (ch ∷ input) (n, t) = elim (Bool-cases (ch == space)) [
  | inl e ↦ rw e (IsText-skip input t)
  | inr m ↦ rw m (n, t)
]

-- The three kinds of a first character.
pub nil-words :
    (words : List (List ℕ)) (word : List ℕ)
    → (from_bar [] ≡ []) × (finish words word ≡ words_from words word [])
unfolding from_bar words_from
nil-words words word = (refl, refl)

pub bar-words :
    (words : List (List ℕ)) (word : List ℕ) (ch : ℕ) (input : List ℕ)
    → (ch == bar) ≡ true
    → (from_bar (ch ∷ input) ≡ ch ∷ input)
      × (finish words word ≡ words_from words word (ch ∷ input))
unfolding from_bar words_from
bar-words words word ch input e = (rw e refl, rw e refl)

pub other-words :
    (words : List (List ℕ)) (word : List ℕ) (ch : ℕ) (input : List ℕ)
    → (ch == bar) ≡ false
    → (ch == space) ≡ false
    → words_from words (word ++ ch ∷ []) input ≡ words_from words word (ch ∷ input)
unfolding words_from
other-words words word ch input b s = rw (b, s) refl
