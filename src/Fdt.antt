-- ===== src/Fdt.antt =====
-- src/fdt.c and src/runflags.c: the flattened device tree, of which only the boot arguments are read,
-- and what the kernel takes from them. Memory is a function from addresses to bytes, on a
-- little-endian machine; an `uintptr_t` does not wrap. A loop has fuel, and `spins` is what is left
-- when the fuel is out.
pub mod Words
mod Tests
use riscv_hobby_os.Base.{
  ℕ, zero, suc, ◌+◌, ◌-◌, ◌*◌, ◌/◌, ◌%◌, ◌^◌, Bool, true, false, not, Option, none, some, List, [],
  ◌∷◌, ◌==◌, ltb, if◌then◌else◌, is_zero, drop,
}
use riscv_hobby_os.Str.{strncmp, has_prefix}

abbrev pub fdt_magic : ℕ
fdt_magic = 0xd00dfeed

abbrev pub fdt_version : ℕ
fdt_version = 17

-- The masks take whole bytes, and the halves that are put together have no byte in common.
pub swap_bytes : ℕ → ℕ
swap_bytes x =
    (x % 256 + x / 2 ^ 16 % 256 * 2 ^ 16) * 2 ^ 8 % 2 ^ 32
    + (x / 2 ^ 8 % 256 * 2 ^ 8 + x / 2 ^ 24 % 256 * 2 ^ 24) / 2 ^ 8

pub swap_halves : ℕ → ℕ
swap_halves y = y % 2 ^ 16 * 2 ^ 16 % 2 ^ 32 + y / 2 ^ 16 % 2 ^ 16 * 2 ^ 16 / 2 ^ 16

pub bswap : ℕ → ℕ
unfolding swap_bytes swap_halves
bswap x = swap_halves (swap_bytes x)

pub upalign4 : ℕ → ℕ
upalign4 x = (x + 3) / 4 * 4

abbrev pub read32 : (ℕ → ℕ) → ℕ → ℕ
read32 ram a = ram a + ram (a + 1) * 2 ^ 8 + ram (a + 2) * 2 ^ 16 + ram (a + 3) * 2 ^ 24

-- `bswap(*tree)`
abbrev pub token_at : (ℕ → ℕ) → ℕ → ℕ
token_at ram tree = bswap (read32 ram tree)

-- The bytes of a string, of which at most `size` matter.
abbrev pub string_at : (size : ℕ) → (ℕ → ℕ) → ℕ → List ℕ
string_at zero ram a = []
string_at (suc size) ram a =
    let rest = string_at size ram (a + 1) in if ram a == 0 then [] else ram a ∷ rest

abbrev pub node_chosen : List ℕ
node_chosen = b'c' ∷ b'h' ∷ b'o' ∷ b's' ∷ b'e' ∷ b'n' ∷ []

abbrev pub prop_bootargs : List ℕ
prop_bootargs = b'b' ∷ b'o' ∷ b'o' ∷ b't' ∷ b'a' ∷ b'r' ∷ b'g' ∷ b's' ∷ []

abbrev pub is_string : (name : List ℕ) (size : ℕ) → (ℕ → ℕ) → ℕ → Bool
is_string name size ram a = is_zero (strncmp (string_at size ram a) name size)

pub data Token : Type 0 where
  begin_node end_node prop nop end other : Token

abbrev pub token_of : ℕ → Token
token_of t =
    if t == 1
    then begin_node
    else if t == 2
    then end_node
    else if t == 3
    then prop
    else if t == 4
    then nop
    else if t == 9
    then end
    else other

-- The address of the boot arguments, none, or a loop that does not end.
pub data Outcome : Type 0 where
  bootargs_at : ℕ → Outcome
  no_bootargs spins : Outcome

-- `while (*end_of_name++) {}`: the address behind the terminator.
abbrev pub end_of_name : (fuel : ℕ) → (ℕ → ℕ) → ℕ → Option ℕ
end_of_name zero ram a = none
end_of_name (suc fuel) ram a =
    let rest = end_of_name fuel ram (a + 1) in if ram a == 0 then some (a + 1) else rest

-- Behind a property that is not the boot arguments.
abbrev pub after_prop : (tree len : ℕ) → ℕ
after_prop tree len = upalign4 (tree + 12 + len)

abbrev pub is_bootargs : (ℕ → ℕ) → (strings : ℕ) → (found_chosen : Bool) → (tree : ℕ) → Bool
is_bootargs ram strings false tree = false
is_bootargs ram strings true tree =
    is_string prop_bootargs 9 ram (strings + token_at ram (tree + 8))

-- What a round of the loops leaves: an end, or the tree and whether the node was found.
pub data Round : Type 0 where
  ends : Outcome → Round
  goes_on : (found_chosen : Bool) → (tree : ℕ) → Round

abbrev pub after_name : (ℕ → ℕ) → (found_chosen : Bool) → (name : ℕ) → Option ℕ → Round
after_name ram found_chosen name none = ends spins
after_name ram found_chosen name (some a) =
    goes_on (if is_string node_chosen 7 ram name then true else found_chosen) (upalign4 a)

-- A round of the inner loop of `fdt_parse`, or the body of the outer one at a node. An unknown token
-- leaves the tree where it is.
abbrev pub parse_round :
    (fuel : ℕ) → (ℕ → ℕ) → (strings : ℕ) → (found_chosen : Bool) → (tree : ℕ) → Token → Round
parse_round fuel ram strings found_chosen tree begin_node =
    after_name ram found_chosen (tree + 4) (end_of_name fuel ram (tree + 4))
parse_round fuel ram strings found_chosen tree end_node = goes_on found_chosen (tree + 4)
parse_round fuel ram strings found_chosen tree nop = goes_on found_chosen (tree + 4)
parse_round fuel ram strings found_chosen tree prop =
    if is_bootargs ram strings found_chosen tree
    then ends (bootargs_at (tree + 12))
    else goes_on found_chosen (after_prop tree (token_at ram (tree + 4)))
parse_round fuel ram strings found_chosen tree end = ends no_bootargs
parse_round fuel ram strings found_chosen tree other = goes_on found_chosen tree

pub parse_from : (fuel : ℕ) → (ℕ → ℕ) → (strings : ℕ) → Round → Outcome
parse_from fuel ram strings (ends o) = o
parse_from zero ram strings (goes_on found_chosen tree) = spins
parse_from (suc fuel) ram strings (goes_on found_chosen tree) =
    parse_from fuel ram strings
      (parse_round fuel ram strings found_chosen tree (token_of (token_at ram tree)))

pub fdt_parse : (fuel : ℕ) → (ℕ → ℕ) → (tree strings : ℕ) → Outcome
unfolding parse_from
fdt_parse fuel ram tree strings =
    if token_at ram tree == 1 then parse_from fuel ram strings (goes_on false tree) else no_bootargs

-- The header's words are big-endian: magic, off_dt_struct, off_dt_strings and last_comp_version.
pub fdt_init : (fuel : ℕ) → (ℕ → ℕ) → (header : ℕ) → Outcome
fdt_init fuel ram header =
    if header == 0
    then no_bootargs
    else if not (token_at ram header == fdt_magic)
    then no_bootargs
    else if ltb fdt_version (token_at ram (header + 24))
    then no_bootargs
    else fdt_parse fuel ram (header + token_at ram (header + 8))
        (header + token_at ram (header + 12))

-- RUNFLAGS_*
pub data RunFlags : Type 0 where
  no_runflags dry_run smoke_test tiny_stack : RunFlags

abbrev pub dry_run_arg : List ℕ
dry_run_arg = b'd' ∷ b'r' ∷ b'y' ∷ b'-' ∷ b'r' ∷ b'u' ∷ b'n' ∷ []

abbrev pub test_script_arg : List ℕ
test_script_arg = b't' ∷ b'e' ∷ b's' ∷ b't' ∷ b'-' ∷ b's' ∷ b'c' ∷ b'r' ∷ b'i' ∷ b'p' ∷ b't' ∷ []

abbrev pub tiny_stack_arg : List ℕ
tiny_stack_arg = b't' ∷ b'i' ∷ b'n' ∷ b'y' ∷ b'-' ∷ b's' ∷ b't' ∷ b'a' ∷ b'c' ∷ b'k' ∷ []

-- The flags and where `test_script` begins in the boot arguments: one behind the prefix, whatever
-- stands between.
pub parse_runflags : (bootargs : List ℕ) → RunFlags × Option ℕ
parse_runflags bootargs =
    if is_zero (strncmp bootargs dry_run_arg 8)
    then (dry_run, none)
    else elim (has_prefix bootargs test_script_arg) [
      | some n ↦ (smoke_test, some (n + 1))
      | none ↦ elim (has_prefix bootargs tiny_stack_arg) [
        | some n ↦ (tiny_stack, some (n + 1))
        | none ↦ (no_runflags, none)
      ]
    ]
