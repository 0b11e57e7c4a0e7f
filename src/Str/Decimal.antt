-- ===== src/Str/Decimal.antt =====
-- `itoa` prints the decimal digits, and `uatoi` reads them back.
use mathlib.Core.List.{append_assoc}
use riscv_hobby_os.Base.{
  ℕ, zero, suc, ◌+◌, ◌*◌, ◌/◌, ◌%◌, ◌^◌, ◌-◌, ◌≤◌, ◌<◌, ◌≡◌, refl, ◌∙◌, sym, ap, true, false, List,
  [], ◌∷◌, ◌++◌, ◌==◌, ltb, if◌then◌else◌, length, drop, set, set-append, split_last, split_at,
  arith, Bool-cases, inl, inr, length-append, pos, minus,
}
use riscv_hobby_os.Str.{
  digit_count, write_digits, itoa, all_digits, sum_digits, uatoi, has_minus, skip_minus,
}

-- The decimal digits of a number, the highest first.
decimal_from : (fuel num : ℕ) → List ℕ
decimal_from zero num = []
decimal_from (suc fuel) num =
    let more = decimal_from fuel (num / 10) in
    (if num / 10 == 0 then [] else more) ++ (num % 10 + b'0') ∷ []

unfoldable pub decimal : ℕ → List ℕ
unfolding decimal_from
decimal num = decimal_from (num + 1) num

digit_count-decimal_from : (fuel num : ℕ) → digit_count fuel num ≡ length (decimal_from fuel num)
unfolding digit_count decimal_from
digit_count-decimal_from zero num = refl
digit_count-decimal_from (suc fuel) num = elim (Bool-cases (num / 10 == 0)) [
  | inl t ↦ rw t
  | inr f ↦ rw f (
      omega (
        arith,
        length-append (decimal_from fuel (num / 10)) ((num % 10 + b'0') ∷ []),
        digit_count-decimal_from fuel (num / 10),
      ))
]

-- `i--; buf[i] = d;` with `i` just behind `front`.
set_before :
    (front rest : List ℕ) (k d : ℕ)
    → length front ≡ k + 1
    → (ys : List ℕ) × (length ys ≡ k)
      × (length front - 1 ≡ k)
      × (set (front ++ rest) (length front - 1) d ≡ ys ++ d ∷ rest)
set_before front rest k d h =
    let (ys, w, s, l) = split_last front k h in
    let e : length front - 1 ≡ length ys = omega arith in
    (ys, l, omega arith, rw e (rw (s, append_assoc ys (w ∷ []) rest) (set-append ys rest d w)))

-- The loop fills exactly the places in front of `rest`.
write_digits-decimal_from :
    (fuel num : ℕ) (front rest : List ℕ)
    → num < fuel
    → length front ≡ length (decimal_from fuel num)
    → write_digits fuel (front ++ rest) (length front) num ≡ decimal_from fuel num ++ rest
unfolding write_digits decimal_from
write_digits-decimal_from zero num front rest h l = elim h [ ]
write_digits-decimal_from (suc fuel) num front rest h l = elim (Bool-cases (num / 10 == 0)) [
  | inl t ↦
      let (ys, k, z, e) = set_before front rest 0 (num % 10 + b'0') (rw t at l) in
      rw (t, e, empty ys k)
  | inr f ↦
      let m = length (decimal_from fuel (num / 10)) in
      let (ys, k, z, e) =
        set_before front rest m (num % 10 + b'0')
          (rw f at l ∙ length-append (decimal_from fuel (num / 10)) ((num % 10 + b'0') ∷ [])) in
      rw (f, e, z, ← k, write_digits-decimal_from fuel (num / 10) ys _ (ground arith) k)
        (sym (append_assoc (decimal_from fuel (num / 10)) ((num % 10 + b'0') ∷ []) rest))
]
  where
    empty : (ys : List ℕ) → length ys ≡ 0 → ys ≡ []
    empty [] e = refl
    empty (y ∷ ys) e = absurd (omega arith)

length-decimal : (num : ℕ) → digit_count (num + 1) num ≡ length (decimal num)
unfolding decimal
length-decimal num = digit_count-decimal_from (num + 1) num

-- If the digits and the terminator fit, `itoa` writes them at the start of the buffer, changes no
-- byte behind them, and returns how many bytes it wrote.
itoa_fits :
    (buf : List ℕ) (size num : ℕ)
    → size ≤ length buf
    → length (decimal num) + 1 ≤ size
    → itoa buf size num
      ≡ (pos (length (decimal num) + 1), decimal num ++ 0 ∷ drop (suc (length (decimal num))) buf)
unfolding itoa decimal
itoa_fits buf size num h l =
    let n = length (decimal_from (num + 1) num) in
    let (front, w, e, k) = split_at buf n (omega arith) in
    let t : ltb size (n + 1) ≡ false = ground arith in
    let i : n + 1 - 1 ≡ length front = omega arith in
    let written : write_digits (num + 1) (set buf (n + 1 - 1) 0) (n + 1 - 1) num
        ≡ decimal_from (num + 1) num ++ 0 ∷ drop (suc n) buf =
      rw i (
        ap (λ b. write_digits (num + 1) b (length front) num)
          (ap (λ b. set b (length front) 0) e ∙ set-append front (drop (suc n) buf) 0 w)
        ∙ write_digits-decimal_from (num + 1) num front _ (omega arith) k) in
    rw (digit_count-decimal_from (num + 1) num, t, written)

-- If they do not, it writes nothing and returns the size that it needs, negated.
itoa_too_small :
    (buf : List ℕ) (size num : ℕ)
    → size < length (decimal num) + 1
    → itoa buf size num ≡ (minus (length (decimal num) + 1), buf)
unfolding itoa
itoa_too_small buf size num h =
    let t : ltb size (length (decimal num) + 1) ≡ true = ground arith in rw (length-decimal num, t)

sum_digits-append :
    (s : List ℕ) (c : ℕ)
    → ((sum_digits (s ++ c ∷ [])).0 ≡ (sum_digits s).0 * 10 + (c - b'0'))
      × ((sum_digits (s ++ c ∷ [])).1 ≡ (sum_digits s).1 * 10)
unfolding sum_digits
sum_digits-append [] c = omega arith
sum_digits-append (x ∷ s) c = let (p, q) = sum_digits-append s c in (rw (p, q) (omega arith), rw q)

all_digits-append :
    (s : List ℕ) (d : ℕ) → d < 10 → all_digits s ≡ true → all_digits (s ++ (d + b'0') ∷ []) ≡ true
unfolding all_digits
all_digits-append [] d h e = ground arith
all_digits-append (x ∷ s) d h e = ground (arith, all_digits-append s d h)

-- What `uatoi` makes of the digits of a number.
record Reads (num : ℕ) (s : List ℕ) : Type 0 where
  value : (sum_digits s).0 ≡ num
  bound : 0 < num → (sum_digits s).1 ≤ 10 * num
  digits : all_digits s ≡ true

one_digit : (num : ℕ) → num < 10 → Reads num ((num % 10 + b'0') ∷ [])
unfolding sum_digits all_digits
one_digit num h = record { value = omega arith; bound = λ p. omega arith; digits = ground arith }

decimal_from-Reads : (fuel num : ℕ) → num < fuel → Reads num (decimal_from fuel num)
unfolding decimal_from
decimal_from-Reads zero num h = elim h [ ]
decimal_from-Reads (suc fuel) num h = elim (Bool-cases (num / 10 == 0)) [
  | inl t ↦ rw t (one_digit num (ground arith))
  | inr f ↦
      let r = decimal_from-Reads fuel (num / 10) (ground arith) in
      let a = sum_digits-append (decimal_from fuel (num / 10)) (num % 10 + b'0') in
      rw f (record {
        value = omega (arith, a.0, r.value);
        bound = λ p. omega (arith, a.1, r.bound (ground arith));
        digits = all_digits-append (decimal_from fuel (num / 10)) (num % 10) (omega arith) r.digits;
      })
]

no_minus : (s : List ℕ) → all_digits s ≡ true → (has_minus s ≡ false) × (skip_minus s ≡ s)
unfolding all_digits
no_minus [] h = (refl, refl)
no_minus (c ∷ s) h = (ground arith, ground arith)

-- For a number from 1 to 214748364, so that ten times the number fits an `int`, `uatoi` reads its digits, and those
-- digits behind a minus sign, as that number and its negative, with no error, and the multiplier of its loop fits an
-- `int`.
pub uatoi-decimal :
    (num : ℕ)
    → 0 < num
    → 10 * num < 2 ^ 31
    → (uatoi (decimal num) ≡ (false, pos num))
      × (uatoi (b'-' ∷ decimal num) ≡ (false, minus num))
      × ((sum_digits (decimal num)).1 < 2 ^ 31)
unfolding uatoi decimal
uatoi-decimal num p h =
    let r = decimal_from-Reads (num + 1) num (omega arith) in
    let (m, k) = no_minus (decimal_from (num + 1) num) r.digits in
    (rw (k, r.digits, m, r.value), rw (r.digits, r.value), omega (arith, r.bound p))
