-- ===== src/Base/Scan.antt =====
-- The loop `for (i = 0; i < n; i++) if (test(a[i])) ...; return` over an array, and the count of
-- the entries that pass a test.
use Prim.Native.Nat.{ℕ, zero, suc, ◌+◌, ◌≤◌, ◌<◌}
use mathlib.Core.Path.{◌≡◌, refl}
use mathlib.Core.Bool.{Bool, true, false}
use mathlib.Core.List.{List, [], ◌∷◌}
use mathlib.Core.Option.{Option, none, some}
use native.Mathlib.Omega.{arith}
use riscv_hobby_os.Base.Tests.{if◌then◌else◌}
use riscv_hobby_os.Base.Lists.{length, get_elem?, set}

abbrev pub next_index : Option ℕ → Option ℕ
next_index none = none
next_index (some i) = some (suc i)

module _ {ℓ} {A : Type ℓ} where
  -- The index of the first entry that passes the test.
  abbrev pub find_index : (A → Bool) → List A → Option ℕ
  find_index p [] = none
  find_index p (x ∷ xs) = if p x then some 0 else next_index (find_index p xs)

  abbrev pub count : (A → Bool) → List A → ℕ
  count p [] = 0
  count p (x ∷ xs) = (if p x then 1 else 0) + count p xs

module _ {ℓ} {A : Type ℓ} (p : A → Bool) where
  -- What the scan stops at passes the test, and nothing before it does.
  pub find_index-some :
      (xs : List A) (i : ℕ)
      → find_index p xs ≡ some i
      → (x : A) × (get_elem? xs i ≡ some x) × (p x ≡ true)
  find_index-some [] i e = ground arith
  find_index-some (x ∷ xs) zero e = (x, refl, ground arith)
  find_index-some (x ∷ xs) (suc i) e = find_index-some xs i (ground arith)

  pub find_index-first :
      (xs : List A) (i j : ℕ) {x : A}
      → find_index p xs ≡ some i
      → j < i
      → get_elem? xs j ≡ some x
      → p x ≡ false
  find_index-first [] i j e h g = ground arith
  find_index-first (y ∷ xs) zero j e h g = elim h [ ]
  find_index-first (y ∷ xs) (suc i) zero e h g = ground arith
  find_index-first (y ∷ xs) (suc i) (suc j) e h g =
      find_index-first xs i j (ground arith) (omega arith) g

  pub find_index-none :
      (xs : List A) (j : ℕ) {x : A} → find_index p xs ≡ none → get_elem? xs j ≡ some x → p x ≡ false
  find_index-none [] j e g = ground arith
  find_index-none (y ∷ xs) zero e g = ground arith
  find_index-none (y ∷ xs) (suc j) e g = find_index-none xs j (ground arith) g

  pub count_of_none : (xs : List A) → find_index p xs ≡ none → count p xs ≡ 0
  count_of_none [] e = refl
  count_of_none (x ∷ xs) e = ground (arith, count_of_none xs)

  -- Replacing an entry moves the count by the two entries' tests.
  pub count-set :
      (xs : List A) (i : ℕ) (v : A) {x : A}
      → get_elem? xs i ≡ some x
      → count p (set xs i v) + (if p x then 1 else 0) ≡ count p xs + (if p v then 1 else 0)
  count-set [] i v e = ground arith
  count-set (y ∷ xs) zero v e = ground arith
  count-set (y ∷ xs) (suc i) v e = omega (arith, count-set xs i v e)

  pub count-le-length : (xs : List A) → count p xs ≤ length xs
  count-le-length [] = omega arith
  count-le-length (x ∷ xs) = ground (arith, count-le-length xs)
