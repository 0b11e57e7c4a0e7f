-- ===== src/Shell/Layout.antt =====
-- How a command's buffer and pointers hold words.
use mathlib.Core.List.{append_assoc}
use riscv_hobby_os.Base.{
  ℕ, ◌+◌, ◌≡◌, ◌≢◌, refl, ◌∙◌, sym, ap, false, List, [], ◌∷◌, ◌++◌, length, get_or, set,
  length-append, drop, arith, ◌==◌, if◌then◌else◌,
}
use riscv_hobby_os.Shell.{Pointer, null, char_at, cmd_at, Cmd}
use riscv_hobby_os.Shell.Words.{IsText, AreTexts}

-- The words, each with its terminator.
abbrev pub joined : List (List ℕ) → List ℕ
joined [] = []
joined (word ∷ words) = word ++ 0 ∷ joined words

-- Pointers to the words of a buffer that begin at `o`, and what stands behind them.
abbrev pub args_of : (o : ℕ) (words : List (List ℕ)) → List Pointer → List Pointer
args_of o [] tail = tail
args_of o (word ∷ words) tail = char_at o ∷ args_of (o + length word + 1) words tail

pub joined-snoc :
    (words : List (List ℕ)) (word : List ℕ)
    → joined (words ++ word ∷ []) ≡ (joined words ++ word) ++ 0 ∷ []
joined-snoc [] word = refl
joined-snoc (w ∷ words) word =
    ap (λ r. w ++ 0 ∷ r) (joined-snoc words word)
    ∙ sym (append_assoc w (0 ∷ (joined words ++ word)) (0 ∷ []))
    ∙ ap (λ r. r ++ 0 ∷ []) (sym (append_assoc w (0 ∷ joined words) word))

args_of-snoc :
    (o : ℕ) (words : List (List ℕ)) (word : List ℕ) (tail : List Pointer)
    → args_of o (words ++ word ∷ []) tail
      ≡ args_of o words (char_at (o + length (joined words)) ∷ tail)
args_of-snoc o [] word tail = ap (λ a. char_at a ∷ tail) (omega arith)
args_of-snoc o (w ∷ words) word tail =
    ap (λ r. char_at o ∷ r)
      (args_of-snoc (o + length w + 1) words word tail
        ∙ ap (λ a. args_of (o + length w + 1) words (char_at a ∷ tail)) far)
  where
    far : o + length w + 1 + length (joined words) ≡ o + length (w ++ 0 ∷ joined words)
    far = omega (arith, length-append w (0 ∷ joined words))

pub args_of-next :
    (words : List (List ℕ)) (word : List ℕ) (tail : List Pointer)
    → args_of 0 (words ++ word ∷ []) tail ≡ args_of 0 words (char_at (length (joined words)) ∷ tail)
args_of-next words word tail =
    args_of-snoc 0 words word tail
    ∙ ap (λ a. args_of 0 words (char_at a ∷ tail)) (at_start (length (joined words)))
  where
    at_start : (a : ℕ) → 0 + a ≡ a
    at_start a = omega arith

pub set-args_of :
    (o : ℕ) (words : List (List ℕ)) (p q : Pointer) (tail : List Pointer)
    → set (args_of o words (p ∷ tail)) (length words) q ≡ args_of o words (q ∷ tail)
set-args_of o [] p q tail = refl
set-args_of o (w ∷ words) p q tail =
    ap (λ r. char_at o ∷ r) (set-args_of (o + length w + 1) words p q tail)

pub get_or-args_of :
    (o : ℕ) (words : List (List ℕ)) (p d : Pointer) (tail : List Pointer)
    → get_or (args_of o words (p ∷ tail)) (length words) d ≡ p
get_or-args_of o [] p d tail = refl
get_or-args_of o (w ∷ words) p d tail = get_or-args_of (o + length w + 1) words p d tail

-- The string that starts at the head of a buffer.
abbrev pub string : List ℕ → List ℕ
string [] = []
string (ch ∷ buf) = let rest = string buf in if ch == 0 then [] else ch ∷ rest

-- What a program reads from `argv`, up to the null pointer.
abbrev pub argv_from : List ℕ → List Pointer → List (List ℕ)
argv_from buf [] = []
argv_from buf (null ∷ pointers) = []
argv_from buf (char_at o ∷ pointers) = string (drop o buf) ∷ argv_from buf pointers
argv_from buf (cmd_at i ∷ pointers) = []

abbrev pub argv : Cmd → List (List ℕ)
argv c = argv_from c.buf c.pointers

not_end : (ch : ℕ) → ch ≢ 0 → (ch == 0) ≡ false
not_end ch n = ground (arith, n)

string-word : (word rest : List ℕ) → IsText word → string (word ++ 0 ∷ rest) ≡ word
string-word [] rest t = refl
string-word (ch ∷ word) rest (n, t) = rw (not_end ch n) (ap (λ r. ch ∷ r) (string-word word rest t))

drop-prefix : (pre rest : List ℕ) → drop (length pre) (pre ++ rest) ≡ rest
drop-prefix [] rest = refl
drop-prefix (x ∷ pre) rest = drop-prefix pre rest

read_words :
    (pre : List ℕ) (words : List (List ℕ)) (rest : List ℕ) (tail : List Pointer)
    → AreTexts words
    → argv_from (pre ++ (joined words ++ rest)) (args_of (length pre) words (null ∷ tail)) ≡ words
read_words pre [] rest tail t = refl
read_words pre (w ∷ words) rest tail (s, t) =
    ap (λ v. v ∷ argv_from whole (args_of (length pre + length w + 1) words (null ∷ tail)))
      (ap string (drop-prefix pre ((w ++ 0 ∷ joined words) ++ rest) ∙ behind)
        ∙ string-word w (joined words ++ rest) s)
    ∙ ap (λ r. w ∷ r)
        (ap (λ b. argv_from b (args_of (length pre + length w + 1) words (null ∷ tail))) moved
          ∙ ap (λ o. argv_from (read ++ (joined words ++ rest)) (args_of o words (null ∷ tail)))
              place
          ∙ read_words read words rest tail t)
  where
    whole : List ℕ
    whole = pre ++ ((w ++ 0 ∷ joined words) ++ rest)

    read : List ℕ
    read = (pre ++ w) ++ 0 ∷ []

    behind : (w ++ 0 ∷ joined words) ++ rest ≡ w ++ 0 ∷ (joined words ++ rest)
    behind = append_assoc w (0 ∷ joined words) rest

    moved : whole ≡ read ++ (joined words ++ rest)
    moved =
        ap (λ r. pre ++ r) behind
        ∙ sym (append_assoc pre w (0 ∷ (joined words ++ rest)))
        ∙ sym (append_assoc (pre ++ w) (0 ∷ []) (joined words ++ rest))

    place : length pre + length w + 1 ≡ length read
    place = omega (arith, length-append (pre ++ w) (0 ∷ []), length-append pre w)

-- The words are read back, whatever stands behind them.
pub argv-joined :
    (words : List (List ℕ)) (rest : List ℕ) (tail : List Pointer)
    → AreTexts words
    → argv_from (joined words ++ rest) (args_of 0 words (null ∷ tail)) ≡ words
argv-joined words rest tail t = read_words [] words rest tail t
