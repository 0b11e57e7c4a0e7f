-- ===== src/Str.antt =====
-- src/string.c and user/src/ustr.c. A C string is the list of its bytes before the terminator, none
-- of which is 0; `unsigned int` counts wrap at 2 ^ 32. A destination buffer is the list of its
-- bytes.
pub mod Compare
pub mod Copy
pub mod Decimal
mod Tests
use riscv_hobby_os.Base.{
  ℕ, zero, suc, ◌+◌, ◌*◌, ◌/◌, ◌%◌, ◌^◌, ◌-◌, Bool, true, false, not, ◌&&◌, ◌||◌, Option, none,
  some, List, [], ◌∷◌, ◌++◌, ◌==◌, ltb, leb, if◌then◌else◌, length, get_or, set, ℤ, pos, negsuc,
  sub_ℕ, minus, is_zero,
}

-- `num--` on an `unsigned int`
abbrev pub decrement : ℕ → ℕ
decrement num = (num + 2 ^ 32 - 1) % 2 ^ 32

-- A branch that leaves the loop by `break` reaches `if (num == 0) return 0;` too.
unfoldable pub strncmp : List ℕ → List ℕ → ℕ → ℤ
strncmp [] [] num = pos 0
strncmp [] (y ∷ ys) num = negsuc 0
strncmp (x ∷ xs) [] num = pos 1
strncmp (x ∷ xs) (y ∷ ys) num =
    if x == y
    then (if decrement num == 0 then pos 0 else strncmp xs ys (decrement num))
    else if num == 0
    then pos 0
    else sub_ℕ x y

pub kstrlen : List ℕ → ℕ
kstrlen [] = 0
kstrlen (c ∷ s) = suc (kstrlen s)

-- The result, and what goes to `end_of_prefix`.
pub has_prefix : (str prefix : List ℕ) → Option ℕ
has_prefix str prefix =
    if is_zero (strncmp str prefix (kstrlen prefix)) then some (kstrlen prefix) else none

-- The loop of `strncpy`, at `dest[i]`.
strncpy_from : (num i : ℕ) → List ℕ → List ℕ → List ℕ
strncpy_from num i dest [] = set dest i 0
strncpy_from num i dest (c ∷ src) =
    if ltb i (decrement num) then strncpy_from num (i + 1) (set dest i c) src else set dest i 0

pub strncpy : (dest src : List ℕ) → ℕ → List ℕ
unfolding strncpy_from
strncpy dest src num = strncpy_from num 0 dest src

-- `do { need_size++; num /= 10; } while (num > 0);`
digit_count : (fuel num : ℕ) → ℕ
digit_count zero num = 0
digit_count (suc fuel) num =
    let more = digit_count fuel (num / 10) in suc (if num / 10 == 0 then 0 else more)

-- `do { i--; buf[i] = (orig_num % 10) + '0'; orig_num /= 10; } while (orig_num > 0);`
write_digits : (fuel : ℕ) → List ℕ → (i num : ℕ) → List ℕ
write_digits zero buf i num = buf
write_digits (suc fuel) buf i num =
    let now = set buf (i - 1) (num % 10 + b'0') in
    let more = write_digits fuel now (i - 1) (num / 10) in if num / 10 == 0 then now else more

-- The status and the buffer. Ten rounds serve every `uint32_t`; the fuel is `num + 1`.
pub itoa : List ℕ → (size num : ℕ) → ℤ × List ℕ
unfolding digit_count write_digits
itoa buf size num =
    let need_size = digit_count (num + 1) num + 1 in
    if ltb size need_size
    then (minus need_size, buf)
    else (pos need_size, write_digits (num + 1) (set buf (need_size - 1) 0) (need_size - 1) num)

-- `*a` at the end of a string reads the terminator.
abbrev pub first_char : List ℕ → ℕ
first_char s = get_or s 0 0

-- `do { ... i++; a++; b++; } while (i < num); return *a - *b;`: after the last round the two
-- characters behind it are compared.
ustrncmp_from : ℕ → List ℕ → List ℕ → ℕ → ℤ
ustrncmp_from i [] [] num = pos 0
ustrncmp_from i [] (y ∷ ys) num = negsuc 0
ustrncmp_from i (x ∷ xs) [] num = pos 1
ustrncmp_from i (x ∷ xs) (y ∷ ys) num =
    if x == y
    then (if ltb (i + 1) num
        then ustrncmp_from (i + 1) xs ys num
        else sub_ℕ (first_char xs) (first_char ys))
    else sub_ℕ x y

pub ustrncmp : List ℕ → List ℕ → ℕ → ℤ
unfolding ustrncmp_from
ustrncmp a b num = ustrncmp_from 0 a b num

pub ustrlen : List ℕ → ℕ
ustrlen [] = 0
ustrlen (c ∷ s) = suc (ustrlen s)

-- `while (*s != 0)`: are all characters digits?
all_digits : List ℕ → Bool
all_digits [] = true
all_digits (c ∷ s) = if ltb c b'0' || ltb b'9' c then false else all_digits s

-- The loop from the last digit back to the first: the number and the multiplier. An overflow of
-- `int` is undefined in C: the values here are exact, and `Str.Decimal` bounds them.
pub sum_digits : List ℕ → ℕ × ℕ
sum_digits [] = (0, 1)
sum_digits (c ∷ s) =
    let (number, mult_10) = sum_digits s in (number + (c - b'0') * mult_10, mult_10 * 10)

-- Does the text begin with a minus sign, and what stands behind it?
abbrev has_minus : List ℕ → Bool
has_minus [] = false
has_minus (c ∷ s) = c == b'-'

abbrev skip_minus : List ℕ → List ℕ
skip_minus [] = []
skip_minus (c ∷ s) = if c == b'-' then s else c ∷ s

-- The error flag, and the number.
pub uatoi : List ℕ → Bool × ℤ
unfolding all_digits sum_digits
uatoi s =
    if all_digits (skip_minus s)
    then (let number = (sum_digits (skip_minus s)).0 in
        (false, if has_minus s then minus number else pos number))
    else (true, pos 0)
