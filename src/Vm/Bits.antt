-- ===== src/Vm/Bits.antt =====
-- The bits of a page table entry: what `bit_or` does digit by digit, and what the entries that
-- `map_page_sv39` writes say.
use Prim.Native.Nat.{bit_or, bit_or-bitwise, digits, max}
use riscv_hobby_os.Base.{
  ℕ, zero, suc, ◌+◌, ◌*◌, ◌/◌, ◌%◌, ◌^◌, ◌≤◌, ◌<◌, ◌≡◌, refl, ◌∙◌, sym, ap, true, false, ◌==◌,
  arith, ◌⊎◌, inl, inr,
}
use riscv_hobby_os.Vm.{pte_to_phys, phys_to_pte, table_pte, leaf_pte, is_nonleaf, is_valid}

abbrev or_digits : ℕ → ℕ → ℕ → ℕ
or_digits n a b = digits (λ b. b) max n a b

or_digits_fuel : (n m a b : ℕ) → a ≤ n → a ≤ m → or_digits n a b ≡ or_digits m a b
or_digits_fuel zero zero a b p q = refl
or_digits_fuel zero (suc m) zero b p q = refl
or_digits_fuel zero (suc m) (suc a) b p q = absurd (omega arith)
or_digits_fuel (suc n) zero zero b p q = refl
or_digits_fuel (suc n) zero (suc a) b p q = absurd (omega arith)
or_digits_fuel (suc n) (suc m) zero b p q = refl
or_digits_fuel (suc n) (suc m) (suc a) b p q =
    omega (arith, or_digits_fuel n m (suc a / 2) (b / 2) (omega arith) (omega arith))

zero-bit_or : (b : ℕ) → bit_or 0 b ≡ b
zero-bit_or b = bit_or-bitwise 0 b

bit_or_step : (a b : ℕ) → bit_or a b ≡ bit_or (a / 2) (b / 2) * 2 + max (a % 2) (b % 2)
bit_or_step zero b = omega (arith, zero-bit_or b, zero-bit_or (b / 2))
bit_or_step (suc a) b = omega (
  arith,
  bit_or-bitwise (suc a) b,
  bit_or-bitwise (suc a / 2) (b / 2),
  or_digits_fuel a (suc a / 2) (suc a / 2) (b / 2) (omega arith) (omega arith),
)

bit_or-zero_fuel : (n a : ℕ) → a ≤ n → bit_or a 0 ≡ a
bit_or-zero_fuel zero zero h = refl
bit_or-zero_fuel zero (suc a) h = absurd (omega arith)
bit_or-zero_fuel (suc n) zero h = refl
bit_or-zero_fuel (suc n) (suc a) h =
    omega (arith, bit_or_step (suc a) 0, bit_or-zero_fuel n (suc a / 2) (omega arith))

bit_or-zero : (a : ℕ) → bit_or a 0 ≡ a
bit_or-zero a = bit_or-zero_fuel a a (omega arith)

or_mod_2 : (a b : ℕ) → bit_or a b % 2 ≡ max (a % 2) (b % 2)
or_mod_2 a b = omega (arith, bit_or_step a b)

or_div_2 : (a b : ℕ) → bit_or a b / 2 ≡ bit_or (a / 2) (b / 2)
or_div_2 a b = omega (arith, bit_or_step a b)

or_div_4 : (a b : ℕ) → bit_or a b / 4 ≡ bit_or (a / 4) (b / 4)
or_div_4 a b =
    halves (bit_or a b)
    ∙ ap (λ x. x / 2) (or_div_2 a b)
    ∙ or_div_2 (a / 2) (b / 2)
    ∙ ap (λ x. bit_or x (b / 2 / 2)) (sym (halves a))
    ∙ ap (bit_or (a / 4)) (sym (halves b))
  where
    halves : (x : ℕ) → x / 4 ≡ x / 2 / 2
    halves x = omega arith

or_div_8 : (a b : ℕ) → bit_or a b / 8 ≡ bit_or (a / 8) (b / 8)
or_div_8 a b =
    halves (bit_or a b)
    ∙ ap (λ x. x / 4) (or_div_2 a b)
    ∙ or_div_4 (a / 2) (b / 2)
    ∙ ap (λ x. bit_or x (b / 2 / 4)) (sym (halves a))
    ∙ ap (bit_or (a / 8)) (sym (halves b))
  where
    halves : (x : ℕ) → x / 8 ≡ x / 2 / 4
    halves x = omega arith

or_div_32 : (a b : ℕ) → bit_or a b / 32 ≡ bit_or (a / 32) (b / 32)
or_div_32 a b =
    halves (bit_or a b)
    ∙ ap (λ x. x / 8) (or_div_4 a b)
    ∙ or_div_8 (a / 4) (b / 4)
    ∙ ap (λ x. bit_or x (b / 4 / 8)) (sym (halves a))
    ∙ ap (bit_or (a / 32)) (sym (halves b))
  where
    halves : (x : ℕ) → x / 32 ≡ x / 4 / 8
    halves x = omega arith

or_div_1024 : (a b : ℕ) → bit_or a b / 1024 ≡ bit_or (a / 1024) (b / 1024)
or_div_1024 a b =
    halves (bit_or a b)
    ∙ ap (λ x. x / 32) (or_div_32 a b)
    ∙ or_div_32 (a / 32) (b / 32)
    ∙ ap (λ x. bit_or x (b / 32 / 32)) (sym (halves a))
    ∙ ap (bit_or (a / 1024)) (sym (halves b))
  where
    halves : (x : ℕ) → x / 1024 ≡ x / 32 / 32
    halves x = omega arith

double : (k n : ℕ) → ℕ
double zero n = n
double (suc k) n = double k n * 2

-- A number above `2 ^ k` leaves the digits below alone.
bit_or-double : (k n x : ℕ) → x < double k 1 → bit_or (double k n) x ≡ double k n + x
unfolding double
bit_or-double zero n zero h = omega (arith, bit_or-zero n)
bit_or-double zero n (suc x) h = absurd (omega arith)
bit_or-double (suc k) n x h = omega (
  arith,
  bit_or_step (double k n * 2) x,
  ap (λ d. bit_or d (x / 2)) halved,
  bit_or-double k n (x / 2) (omega arith),
)
  where
    halved : double k n * 2 / 2 ≡ double k n
    halved = omega arith

pub bit_or-page_offs : (n x : ℕ) → x < 4096 → bit_or (n * 4096) x ≡ n * 4096 + x
unfolding double
bit_or-page_offs n x h =
    ap (λ d. bit_or d x) wide ∙ bit_or-double 12 n x (omega arith) ∙ omega arith
  where
    wide : n * 4096 ≡ double 12 n
    wide = omega arith

or-low : (a b : ℕ) → b < 1024 → bit_or a b / 1024 ≡ a / 1024
or-low a b h = or_div_1024 a b ∙ ap (bit_or (a / 1024)) (zero_div) ∙ bit_or-zero (a / 1024)
  where
    zero_div : b / 1024 ≡ 0
    zero_div = omega arith

-- A digit that one side has, both have.
or_bit_1 : (a b : ℕ) → (a / 2 % 2 ≡ 1) ⊎ (b / 2 % 2 ≡ 1) → bit_or a b / 2 % 2 ≡ 1
or_bit_1 a b h = omega (arith, or_div_2 a b, or_mod_2 (a / 2) (b / 2))

or_bit_3 : (a b : ℕ) → (a / 8 % 2 ≡ 1) ⊎ (b / 8 % 2 ≡ 1) → bit_or a b / 8 % 2 ≡ 1
or_bit_3 a b h = omega (arith, or_div_8 a b, or_mod_2 (a / 8) (b / 8))

-- A page that may be read or executed: its entry is a leaf.
abbrev pub IsLeafPerm : ℕ → Type 0
IsLeafPerm perm = (perm / 2 % 2 ≡ 1) ⊎ (perm / 8 % 2 ≡ 1)

bits-IsValid : (pte : ℕ) → pte % 2 ≡ 1 → is_valid pte ≡ true
bits-IsValid pte h = ground (arith, h)

bits-leaf : (pte : ℕ) → IsLeafPerm pte → is_nonleaf pte ≡ false
bits-leaf pte (inl h) = ground (arith, h)
bits-leaf pte (inr h) = ground (arith, h)

bits-nonleaf : (pte : ℕ) → pte % 2 ≡ 1 → pte / 2 % 2 ≡ 0 → pte / 8 % 2 ≡ 0 → is_nonleaf pte ≡ true
bits-nonleaf pte h r x = ground (arith, h, r, x)

pub nonleaf-valid : (pte : ℕ) → is_nonleaf pte ≡ true → is_valid pte ≡ true
nonleaf-valid pte h = ground (arith, h)

pub nonleaf-zero : (pte : ℕ) → is_nonleaf pte ≡ true → (pte == 0) ≡ false
nonleaf-zero pte h = ground (arith, h)

or-IsLeafPerm : (a b : ℕ) → IsLeafPerm a → IsLeafPerm (bit_or a b)
or-IsLeafPerm a b (inl h) = inl (or_bit_1 a b (inl h))
or-IsLeafPerm a b (inr h) = inr (or_bit_3 a b (inl h))

-- The entries that `map_page_sv39` writes, for the page frame with number `n`.
module _ (n : ℕ) (small : n < 2 ^ 44) where
  pub table_pte-pte_to_phys : pte_to_phys (table_pte (n * 4096)) ≡ n * 4096
  table_pte-pte_to_phys =
      omega
        (arith, or_div_1024 (phys_to_pte (n * 4096)) 1, ap (λ x. bit_or x 0) number, bit_or-zero n)
    where
      number : phys_to_pte (n * 4096) / 1024 ≡ n
      number = omega arith

  pub leaf_pte-pte_to_phys :
      (perm : ℕ) → perm < 1024 → pte_to_phys (leaf_pte (n * 4096) perm) ≡ n * 4096
  leaf_pte-pte_to_phys perm h =
      let p = phys_to_pte (n * 4096) in
      omega (
        arith,
        or-low p perm h,
        or-low (bit_or p perm) 64 (omega arith),
        or-low (bit_or (bit_or p perm) 64) 128 (omega arith),
        or-low (bit_or (bit_or (bit_or p perm) 64) 128) 1 (omega arith),
      )

  pub table_pte-nonleaf : is_nonleaf (table_pte (n * 4096)) ≡ true
  table_pte-nonleaf =
      let p = phys_to_pte (n * 4096) in
      bits-nonleaf (table_pte (n * 4096)) (omega (arith, or_mod_2 p 1))
        (omega (arith, or_div_2 p 1, or_mod_2 (p / 2) 0))
        (omega (arith, or_div_8 p 1, or_mod_2 (p / 8) 0))

pub leaf_pte-valid : (pa perm : ℕ) → is_valid (leaf_pte pa perm) ≡ true
leaf_pte-valid pa perm =
    bits-IsValid (leaf_pte pa perm)
      (omega (arith, or_mod_2 (bit_or (bit_or (bit_or (phys_to_pte pa) perm) 64) 128) 1))

pub leaf_pte-leaf : (pa perm : ℕ) → IsLeafPerm perm → is_nonleaf (leaf_pte pa perm) ≡ false
leaf_pte-leaf pa perm h =
    bits-leaf (leaf_pte pa perm)
      (or-IsLeafPerm _ 1 (or-IsLeafPerm _ 128 (or-IsLeafPerm _ 64 (has h))))
  where
    has : IsLeafPerm perm → IsLeafPerm (bit_or (phys_to_pte pa) perm)
    has (inl r) = inl (or_bit_1 (phys_to_pte pa) perm (inr r))
    has (inr x) = inr (or_bit_3 (phys_to_pte pa) perm (inr x))
