-- ===== src/Str/Tests.antt =====
-- The string functions at inputs that can be followed in the source, and the theorems at such.
use riscv_hobby_os.Base.{
  ℕ, ◌<◌, ◌≡◌, refl, true, false, none, List, [], ◌∷◌, arith, ◌^◌, pos, negsuc, minus,
}
use riscv_hobby_os.Str.{strncmp, kstrlen, has_prefix, strncpy, itoa, ustrncmp, uatoi, sum_digits}
use riscv_hobby_os.Str.Decimal.{decimal, uatoi-decimal}

abbrev proc : List ℕ
proc = b'p' ∷ b'r' ∷ b'o' ∷ b'c' ∷ []

abbrev prog : List ℕ
prog = b'p' ∷ b'r' ∷ b'o' ∷ b'g' ∷ []

abbrev buffer : List ℕ
buffer = 1 ∷ 2 ∷ 3 ∷ 4 ∷ 5 ∷ 6 ∷ []

strncmp_runs : (strncmp proc prog 3 ≡ pos 0) × (strncmp proc prog 4 ≡ negsuc 3)
unfolding strncmp
strncmp_runs = (refl, refl)

-- Asked for three characters, it compares the fourth.
ustrncmp_runs : (ustrncmp proc prog 3 ≡ negsuc 3) × (ustrncmp proc prog 2 ≡ pos 0)
unfolding ustrncmp
ustrncmp_runs = (refl, refl)

-- An empty prefix is no prefix of a text that is not empty.
has_prefix_empty : has_prefix proc [] ≡ none
unfolding has_prefix strncmp kstrlen
has_prefix_empty = refl

itoa_runs : itoa buffer 6 407 ≡ (pos 4, b'4' ∷ b'0' ∷ b'7' ∷ 0 ∷ 5 ∷ 6 ∷ [])
unfolding itoa
itoa_runs = refl

uatoi_runs : uatoi (b'-' ∷ b'4' ∷ b'2' ∷ []) ≡ (false, negsuc 41)
unfolding uatoi
uatoi_runs = refl

uatoi_rejects : uatoi (b'4' ∷ b'x' ∷ []) ≡ (true, pos 0)
unfolding uatoi
uatoi_rejects = refl

strncpy_runs : strncpy buffer prog 3 ≡ b'p' ∷ b'r' ∷ 0 ∷ 4 ∷ 5 ∷ 6 ∷ []
unfolding strncpy
strncpy_runs = refl

uatoi-decimal_example :
    (uatoi (b'4' ∷ b'2' ∷ []) ≡ (false, pos 42))
    × (uatoi (b'-' ∷ b'4' ∷ b'2' ∷ []) ≡ (false, minus 42))
    × ((sum_digits (b'4' ∷ b'2' ∷ [])).1 < 2 ^ 31)
unfolding decimal
uatoi-decimal_example = uatoi-decimal 42 (omega arith) (omega arith)
