-- ===== src/Str/Compare.antt =====
-- `strncmp` and `has_prefix` against the strings' own prefixes.
use mathlib.Core.List.{append-nil}
use native.Mathlib.Numerals.{add-one}
use riscv_hobby_os.Base.{
  ℕ, zero, suc, ◌+◌, ◌^◌, ◌≤◌, ◌<◌, ◌≡◌, refl, ◌∙◌, sym, ap, Bool, true, false, some, ◌↔◌, List, [],
  ◌∷◌, ◌++◌, ◌==◌, if◌then◌else◌, take, is_zero, sub_ℕ, arith,
}
use riscv_hobby_os.Str.{
  strncmp, kstrlen, has_prefix, decrement, first_char, ustrncmp_from, ustrncmp,
}

-- Stops at the first difference or after `num` characters.
abbrev pub same_prefix : ℕ → List ℕ → List ℕ → Bool
same_prefix zero a b = true
same_prefix (suc n) [] [] = true
same_prefix (suc n) [] (y ∷ b) = false
same_prefix (suc n) (x ∷ a) [] = false
same_prefix (suc n) (x ∷ a) (y ∷ b) = if x == y then same_prefix n a b else false

same_prefix-take : (n : ℕ) (a b : List ℕ) → same_prefix n a b ≡ true → take n a ≡ take n b
same_prefix-take zero a b h = refl
same_prefix-take (suc n) [] [] h = refl
same_prefix-take (suc n) [] (y ∷ b) h = ground arith
same_prefix-take (suc n) (x ∷ a) [] h = ground arith
same_prefix-take (suc n) (x ∷ a) (y ∷ b) h = ground (arith, same_prefix-take n a b)

take-same_prefix : (n : ℕ) (a b : List ℕ) → take n a ≡ take n b → same_prefix n a b ≡ true
take-same_prefix zero a b h = refl
take-same_prefix (suc n) [] [] h = refl
take-same_prefix (suc n) [] (y ∷ b) h = ground arith
take-same_prefix (suc n) (x ∷ a) [] h = ground arith
take-same_prefix (suc n) (x ∷ a) (y ∷ b) h = ground (arith, take-same_prefix n a b)

pub strncmp-same_prefix :
    (a b : List ℕ) (n : ℕ)
    → suc n < 2 ^ 32
    → is_zero (strncmp a b (suc n)) ≡ same_prefix (suc n) a b
unfolding strncmp
strncmp-same_prefix [] [] n h = refl
strncmp-same_prefix [] (y ∷ b) n h = refl
strncmp-same_prefix (x ∷ a) [] n h = refl
strncmp-same_prefix (x ∷ a) (y ∷ b) zero h = ground arith
strncmp-same_prefix (x ∷ a) (y ∷ b) (suc n) h =
    let e : decrement (suc (suc n)) ≡ suc n = omega arith in
    rw e (ground (arith, strncmp-same_prefix a b n))

-- `strncmp` returns 0 exactly when the two strings agree in their first `num` characters.
strncmp-take :
    (a b : List ℕ) (num : ℕ)
    → 0 < num
    → num < 2 ^ 32
    → (is_zero (strncmp a b num) ≡ true) ↔ (take num a ≡ take num b)
strncmp-take a b zero p h = elim p [ ]
strncmp-take a b (suc n) p h = (
  λ e. same_prefix-take (suc n) a b (sym (strncmp-same_prefix a b n h) ∙ e),
  λ e. strncmp-same_prefix a b n h ∙ take-same_prefix (suc n) a b e,
)

take-kstrlen : (s t : List ℕ) → take (kstrlen s) (s ++ t) ≡ s
unfolding kstrlen
take-kstrlen [] t = refl
take-kstrlen (c ∷ s) t = ap (λ r. c ∷ r) (take-kstrlen s t)

take-prefix : (p s : List ℕ) → take (kstrlen p) s ≡ p → (rest : List ℕ) × (s ≡ p ++ rest)
unfolding kstrlen
take-prefix [] s e = (s, refl)
take-prefix (c ∷ p) [] e = absurd (ground arith)
take-prefix (c ∷ p) (d ∷ s) e =
    let (rest, f) = take-prefix p s (ground arith) in (rest, ground arith)

abbrev non_empty : List ℕ → Bool
non_empty [] = false
non_empty (c ∷ s) = true

-- For a prefix that is not empty, `has_prefix` answers yes exactly when the text begins with it, and
-- then gives the index behind it.
has_prefix-append :
    (str prefix : List ℕ)
    → 0 < kstrlen prefix
    → kstrlen prefix < 2 ^ 32
    → (has_prefix str prefix ≡ some (kstrlen prefix)) ↔ ((rest : List ℕ) × (str ≡ prefix ++ rest))
unfolding has_prefix
has_prefix-append str prefix p h = (λ e. found (ground arith), λ (rest, e). yields rest e)
  where
    n : ℕ
    n = kstrlen prefix

    whole : take n prefix ≡ prefix
    whole = ap (take n) (sym (append-nil prefix)) ∙ take-kstrlen prefix []

    found : is_zero (strncmp str prefix n) ≡ true → (rest : List ℕ) × (str ≡ prefix ++ rest)
    found e = take-prefix prefix str ((strncmp-take str prefix n p h).0 e ∙ whole)

    yields : (rest : List ℕ) → str ≡ prefix ++ rest → has_prefix str prefix ≡ some n
    yields rest e =
        rw
          ((strncmp-take str prefix n p h).1 (ap (take n) e ∙ take-kstrlen prefix rest ∙ sym whole))

-- No byte of a C string is its terminator.
abbrev pub IsText : List ℕ → Type 0
IsText [] = Unit {0}
IsText (c ∷ s) = (0 < c) × IsText s

first_char-same_prefix :
    (a b : List ℕ)
    → IsText a
    → IsText b
    → is_zero (sub_ℕ (first_char a) (first_char b)) ≡ same_prefix 1 a b
first_char-same_prefix [] [] s t = refl
first_char-same_prefix [] (y ∷ b) s t = ground arith
first_char-same_prefix (x ∷ a) [] s t = ground arith
first_char-same_prefix (x ∷ a) (y ∷ b) s t = ground arith

ustrncmp_from-same_prefix :
    (a b : List ℕ) (i n num : ℕ)
    → IsText a
    → IsText b
    → i + suc n ≡ num
    → is_zero (ustrncmp_from i a b num) ≡ same_prefix (suc (suc n)) a b
unfolding ustrncmp_from
ustrncmp_from-same_prefix [] [] i n num s t h = refl
ustrncmp_from-same_prefix [] (y ∷ b) i n num s t h = refl
ustrncmp_from-same_prefix (x ∷ a) [] i n num s t h = refl
ustrncmp_from-same_prefix (x ∷ a) (y ∷ b) i zero num s t h =
    let e : (num ≤ i + 1) × (i + 1 ≤ num) = omega arith in
    ground (arith, first_char-same_prefix a b s.1 t.1)
ustrncmp_from-same_prefix (x ∷ a) (y ∷ b) i (suc n) num s t h =
    ground (arith, ustrncmp_from-same_prefix a b (i + 1) n num s.1 t.1)

-- `ustrncmp`, asked to compare `num` characters, returns 0 exactly when the two strings agree in
-- their first `num + 1`.
ustrncmp-take :
    (a b : List ℕ) (num : ℕ)
    → IsText a
    → IsText b
    → 0 < num
    → (is_zero (ustrncmp a b num) ≡ true) ↔ (take (num + 1) a ≡ take (num + 1) b)
unfolding ustrncmp
ustrncmp-take a b zero s t p = elim p [ ]
ustrncmp-take a b (suc n) s t p =
    rw (add-one (suc n), ustrncmp_from-same_prefix a b 0 n (suc n) s t (omega arith))
      (same_prefix-take (suc (suc n)) a b, take-same_prefix (suc (suc n)) a b)
