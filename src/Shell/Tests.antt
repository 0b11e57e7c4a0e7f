-- ===== src/Shell/Tests.antt =====
-- Parsing concrete lines.
use riscv_hobby_os.Base.{ℕ, ◌≡◌, refl, List, [], ◌∷◌, done, fault, arith}
use riscv_hobby_os.Shell.{
  Cmd, null, sh_init_cmd, sh_init_cmd_slots, next, parse_command, sh_alloc_cmd, parse, cmd_of,
}
use riscv_hobby_os.Shell.Words.{words_from, from_bar, IsText}
use riscv_hobby_os.Shell.Layout.{argv}
use riscv_hobby_os.Shell.Parse.{parse_command-words}

-- "  ab  c |d"
abbrev line : List ℕ
line = 32 ∷ 32 ∷ 97 ∷ 98 ∷ 32 ∷ 32 ∷ 99 ∷ 32 ∷ 124 ∷ 100 ∷ []

line-IsText : IsText line
line-IsText = (
  omega arith,
  (
    omega arith,
    (
      omega arith,
      (
        omega arith,
        (
          omega arith,
          (omega arith, (omega arith, (omega arith, (omega arith, (omega arith, tt))))),
        ),
      ),
    ),
  ),
)

line_words : words_from [] [] line ≡ (97 ∷ 98 ∷ []) ∷ (99 ∷ []) ∷ []
unfolding words_from
line_words = refl

parse_command-words_example :
    (c' : Cmd) × (parse_command line sh_init_cmd ≡ done (from_bar line) c')
    × (argv c' ≡ words_from [] [] line)
    × (next c' ≡ null)
unfolding words_from sh_init_cmd
parse_command-words_example =
    parse_command-words line sh_init_cmd refl line-IsText (omega arith) (omega arith)

-- "a b c d ec": behind the fourth word the rest does not begin with a bar, and `parse` takes "c" for a
-- second command.
abbrev five_words : List ℕ
five_words = 97 ∷ 32 ∷ 98 ∷ 32 ∷ 99 ∷ 32 ∷ 100 ∷ 32 ∷ 101 ∷ 99 ∷ []

abbrev second_command : List (List ℕ)
second_command = elim (parse five_words (sh_init_cmd_slots 2)) [
  | done head p ↦ argv (cmd_of p 0)
  | fault f ↦ []
]

fifth_word_cut : second_command ≡ (99 ∷ []) ∷ []
unfolding parse sh_init_cmd_slots sh_init_cmd sh_alloc_cmd parse_command
fifth_word_cut = refl
