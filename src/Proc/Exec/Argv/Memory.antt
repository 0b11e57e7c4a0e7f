-- ===== src/Proc/Exec/Argv/Memory.antt =====
-- Words and texts in a memory of bytes.
use native.Mathlib.Numerals.{unary_clauses}
use riscv_hobby_os.Base.{
  ℕ, zero, suc, ◌+◌, ◌*◌, ◌/◌, ◌%◌, ◌^◌, ◌<◌, ◌≤◌, ◌≡◌, ◌≢◌, refl, ◌∙◌, ap₂, ◌⊎◌, inl, arith,
}
use riscv_hobby_os.Proc.Exec.Argv.{Bytes, store_byte, store_word, load_word}

-- Both memories agree from an address on, for a number of bytes.
abbrev pub Same : (lo hi : ℕ) → (m m' : Bytes) → Type 0
Same lo hi m m' = (b : ℕ) → lo ≤ b → b < hi → m' b ≡ m b

pub store_byte-other : (a v b : ℕ) (m : Bytes) → b ≢ a → store_byte a v m b ≡ m b
store_byte-other a v b m h = ground arith

pub store_byte-same : (a v : ℕ) (m : Bytes) → store_byte a v m a ≡ v
store_byte-same a v m = ground arith

pub store_word-other :
    (w a v b : ℕ) (m : Bytes) → (b < a) ⊎ (a + w ≤ b) → store_word w a v m b ≡ m b
store_word-other zero a v b m h = refl
store_word-other (suc n) a v b m h =
    store_word-other n (suc a) (v / 256) b (store_byte a (v % 256) m) (ground arith)
    ∙ store_byte-other a (v % 256) b m (ground arith)

pub load_word-Same :
    (w a : ℕ) (m m' : Bytes) → Same a (a + w) m m' → load_word w a m' ≡ load_word w a m
load_word-Same zero a m m' s = refl
load_word-Same (suc n) a m m' s =
    ap₂ (λ x y. x + 256 * y) (s a (omega arith) (omega arith))
      (load_word-Same n (suc a) m m' (λ b l h. s b (omega arith) (omega arith)))

pub pow_zero : 256 ^ 0 ≡ 1
pow_zero = refl

pub pow_suc : (n : ℕ) → 256 ^ suc n ≡ 256 ^ n * 256
pow_suc n = simp unary_clauses refl

pub load_word-store_word :
    (w a v : ℕ) (m : Bytes) → v < 256 ^ w → load_word w a (store_word w a v m) ≡ v
load_word-store_word zero a v m h = omega (arith, h, pow_zero)
load_word-store_word (suc n) a v m h =
    ap₂ (λ x y. x + 256 * y)
      (store_word-other n (suc a) (v / 256) a (store_byte a (v % 256) m) (inl (omega arith))
        ∙ store_byte-same a (v % 256) m)
      (load_word-store_word n (suc a) (v / 256) (store_byte a (v % 256) m)
        (omega (arith, h, pow_suc n)))
    ∙ omega arith
