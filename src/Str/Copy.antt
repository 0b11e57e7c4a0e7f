-- ===== src/Str/Copy.antt =====
-- `strncpy` fills the first `num` bytes of its destination at most, and terminates what it writes.
use mathlib.Core.List.{append_assoc}
use riscv_hobby_os.Base.{
  ℕ, zero, suc, ◌+◌, ◌^◌, ◌-◌, ◌≤◌, ◌<◌, ◌≡◌, ◌∙◌, true, false, List, [], ◌∷◌, ◌++◌, ltb, length,
  take, drop, take-nil, set-append, arith, min, length-append,
}
use riscv_hobby_os.Str.{strncpy_from, strncpy, decrement}

-- The loop at `dest[length done]`, with room for `k` more characters and the terminator.
strncpy_from_lem :
    (num k : ℕ) (done dest src : List ℕ)
    → length done + suc k ≡ num
    → num < 2 ^ 32
    → suc k ≤ length dest
    → strncpy_from num (length done) (done ++ dest) src
      ≡ done ++ (take k src ++ 0 ∷ drop (suc (min k (length src))) dest)
unfolding strncpy_from
strncpy_from_lem num k done [] src h b l = absurd (omega arith)
strncpy_from_lem num k done (w ∷ dest) [] h b l =
    let e : min k 0 ≡ 0 = omega arith in rw (take-nil k, e) (set-append done dest 0 w)
strncpy_from_lem num zero done (w ∷ dest) (c ∷ src) h b l =
    let t : ltb (length done) (decrement num) ≡ false = ground arith in
    let e : min 0 (suc (length src)) ≡ 0 = omega arith in rw (t, e) (set-append done dest 0 w)
strncpy_from_lem num (suc k) done (w ∷ dest) (c ∷ src) h b l =
    let t : ltb (length done) (decrement num) ≡ true = ground arith in
    let e : min (suc k) (suc (length src)) ≡ suc (min k (length src)) = omega arith in
    let n : length (done ++ c ∷ []) ≡ length done + 1 = length-append done (c ∷ []) in
    rw (t, e, set-append done dest c w, ← append_assoc done (c ∷ []) dest, ← n)
      (strncpy_from_lem num k (done ++ c ∷ []) dest src (omega arith) b (omega arith)
        ∙ append_assoc done (c ∷ []) _)

-- Into a buffer of `num` bytes or more `strncpy` writes the first `num - 1` characters of the
-- source, or all if there are fewer, and the terminator behind them, and no other byte.
strncpy_lem :
    (dest src : List ℕ) (num : ℕ)
    → 0 < num
    → num < 2 ^ 32
    → num ≤ length dest
    → strncpy dest src num ≡ take (num - 1) src ++ 0 ∷ drop (suc (min (num - 1) (length src))) dest
unfolding strncpy
strncpy_lem dest src num p h l =
    strncpy_from_lem num (num - 1) [] dest src (omega arith) h (omega arith)
