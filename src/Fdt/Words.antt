-- ===== src/Fdt/Words.antt =====
-- The words of the tree, and the tokens on which the parser does not move on.
use riscv_hobby_os.Base.{ℕ, zero, suc, ◌+◌, ◌*◌, ◌^◌, ◌<◌, ◌≡◌, refl, ◌∙◌, ap, Bool, arith}
use riscv_hobby_os.Fdt.{
  bswap, token_at, token_of, other, spins, goes_on, parse_round, parse_from, swap_bytes,
  swap_halves,
}

-- A word whose bytes are `a` to `d` from the lowest on becomes the one whose bytes stand in the
-- other order, so that `bswap` twice gives the word back.
bswap-bytes :
    (a b c d : ℕ)
    → a < 256
    → b < 256
    → c < 256
    → d < 256
    → bswap (a + b * 2 ^ 8 + c * 2 ^ 16 + d * 2 ^ 24) ≡ d + c * 2 ^ 8 + b * 2 ^ 16 + a * 2 ^ 24
unfolding bswap swap_bytes swap_halves
bswap-bytes a b c d p q r s = omega arith

-- At a token that the format does not have, the loop never ends, whatever fuel it is given.
parse_from-other :
    (fuel : ℕ) (ram : ℕ → ℕ) (strings : ℕ) (found_chosen : Bool) (tree : ℕ)
    → token_of (token_at ram tree) ≡ other
    → parse_from fuel ram strings (goes_on found_chosen tree) ≡ spins
unfolding parse_from
parse_from-other zero ram strings found_chosen tree e = refl
parse_from-other (suc fuel) ram strings found_chosen tree e =
    ap (λ t. parse_from fuel ram strings (parse_round fuel ram strings found_chosen tree t)) e
    ∙ parse_from-other fuel ram strings found_chosen tree e
