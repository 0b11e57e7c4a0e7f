-- ===== src/Shell/Loop.antt =====
-- Where the loop of `parse_command` stops.
use mathlib.Core.List.{append-nil}
use riscv_hobby_os.Base.{
  ℕ, zero, suc, ◌+◌, ◌<◌, ◌≤◌, ◌≡◌, refl, ◌∙◌, sym, ap, true, false, List, [], ◌∷◌, ◌++◌, M, Run,
  done, pure, ◌>>◌, >>-done, ◌==◌, ltb, if◌then◌else◌, length, length-append, arith, Bool-cases,
  inl, inr,
}
use riscv_hobby_os.Shell.{Cmd, space, bar, skip_spaces, put_char, start_word, parse_loop}
use riscv_hobby_os.Shell.Words.{
  finish, words_from, from_bar, IsText, IsText-append, AreTexts, AreTexts-append, words_from_grows,
  words_from-space, words_from-skip, from_bar-other, from_bar-space, from_bar-skip, length-skip,
  IsText-skip, nil-words, bar-words, other-words,
}
use riscv_hobby_os.Shell.Layout.{joined, joined-snoc}
use riscv_hobby_os.Shell.Steps.{state, put-word, ended, put-end, start-word}

-- Where the loop stops: the state holds the words, and the input is at its end or at the bar.
pub record Stopped (words : List (List ℕ)) (word input : List ℕ) (result : Run Cmd (ℕ × List ℕ))
    : Type 0 where
  pub found : List (List ℕ)
  pub last : List ℕ
  pub room : ℕ
  pub runs : result ≡ done (length found, from_bar input) (state found last room)
  pub words_are : finish found last ≡ words_from words word input
  pub texts : AreTexts found
  pub text : IsText last
  pub fits : length found + room ≡ 4
  pub small : length (joined found ++ last) < 32

-- A space is not the first character of a word.
abbrev pub Begun : List ℕ → List ℕ → Type 0
Begun [] [] = Unit {0}
Begun [] (ch ∷ input) = (ch == space) ≡ false
Begun (c ∷ word) input = Unit {0}

pub skip-Begun : (input : List ℕ) → Begun [] (skip_spaces input)
unfolding skip_spaces
skip-Begun [] = tt
skip-Begun (ch ∷ input) = elim (Bool-cases (ch == space)) [
  | inl e ↦ rw e (skip-Begun input)
  | inr n ↦ rw n n
]

pub snoc-Begun : (word input : List ℕ) (ch : ℕ) → Begun (word ++ ch ∷ []) input
snoc-Begun [] input ch = tt
snoc-Begun (c ∷ word) input ch = tt

-- What is known of a state of the loop.
pub record Ready (words : List (List ℕ)) (word input : List ℕ) (room : ℕ) : Type 0 where
  pub texts : AreTexts words
  pub text : IsText word
  pub rest : IsText input
  pub begun : Begun word input
  pub fits : length words + room ≡ 4
  pub small : length (joined words ++ word) + length input < 32
  pub few : length (words_from words word input) ≤ 4

-- The end of the input or a bar.
pub stop :
    (words : List (List ℕ)) (word input : List ℕ) (room : ℕ)
    → Ready words word input room
    → from_bar input ≡ input
    → finish words word ≡ words_from words word input
    → Stopped words word input (done (length words, input) (state words word room))
stop words word input room r e w = record {
  found = words;
  last = word;
  room = room;
  runs = ap (λ i. done (length words, i) (state words word room)) (sym e);
  words_are = w;
  texts = r.texts;
  text = r.text;
  fits = r.fits;
  small = omega (arith, r.small);
}

-- What one stop says of another state from which the loop comes to it.
pub as_before :
    (words words' : List (List ℕ)) (word word' input input' : List ℕ)
    (result result' : Run Cmd (ℕ × List ℕ))
    → result ≡ result'
    → words_from words' word' input' ≡ words_from words word input
    → from_bar input' ≡ from_bar input
    → Stopped words' word' input' result'
    → Stopped words word input result
as_before words words' word word' input input' result result' e w b s = record {
  found = s.found;
  last = s.last;
  room = s.room;
  runs = e ∙ s.runs ∙ ap (λ i. done (length s.found, i) (state s.found s.last s.room)) b;
  words_are = s.words_are ∙ w;
  texts = s.texts;
  text = s.text;
  fits = s.fits;
  small = s.small;
}

-- Four words are there, and no fifth begins.
pub full :
    (words : List (List ℕ)) (word input : List ℕ) (room : ℕ)
    → Ready words word input room
    → 3 < length words
    → (from_bar input ≡ input) × (finish words word ≡ words_from words word input)
full words (c ∷ word) input room r h = absurd (
    omega (
      arith,
      r.few,
      words_from_grows words (c ∷ word) input,
      length-append words ((c ∷ word) ∷ []),
    ))
full words [] [] room r h = nil-words words []
full words [] (ch ∷ input) room r h = elim (Bool-cases (ch == bar)) [
  | inl e ↦ bar-words words [] ch input e
  | inr n ↦ absurd (
      omega (
        arith,
        r.few,
        ap length (other-words words [] ch input n r.begun),
        words_from_grows words (ch ∷ []) input,
        length-append words ((ch ∷ []) ∷ []),
      ))
]

-- The end of a round, which goes on unless the arguments are full.
abbrev pub goes_on : (fuel : ℕ) (input : List ℕ) (argc : ℕ) → M Cmd (ℕ × List ℕ)
goes_on fuel input argc = if ltb 3 argc then pure (argc, input) else parse_loop fuel input argc

abbrev pub Loop : ℕ → Type 0
Loop fuel =
    (words : List (List ℕ)) (word input : List ℕ) (room : ℕ)
    → length input < fuel
    → Ready words word input room
    → Stopped words word input (parse_loop fuel input (length words) (state words word room))

pub goes_on-Stopped :
    (fuel : ℕ) (words : List (List ℕ)) (word input : List ℕ) (room : ℕ)
    → Loop fuel
    → length input < fuel
    → Ready words word input room
    → Stopped words word input (goes_on fuel input (length words) (state words word room))
goes_on-Stopped fuel words word input room loop h r = elim (Bool-cases (ltb 3 (length words))) [
  | inl e ↦
      let (b, w) = full words word input room r (more e) in rw e (stop words word input room r b w)
  | inr n ↦ rw n (loop words word input room h r)
]
  where
    more : ltb 3 (length words) ≡ true → 3 < length words
    more e = ground (arith, e)

-- A space behind a word.
pub run-space :
    (fuel : ℕ) (words : List (List ℕ)) (word input : List ℕ) (room : ℕ)
    → length (joined words ++ word) < 32
    → (put_char 0 >> (start_word (length words + 1) >> goes_on fuel input (length words + 1)))
        (state words word (suc room))
      ≡ goes_on fuel input (length (words ++ word ∷ [])) (state (words ++ word ∷ []) [] room)
run-space fuel words word input room h =
    >>-done (put_char 0) (start_word (length words + 1) >> goes_on fuel input (length words + 1))
      (state words word (suc room)) (put-end words word (suc room) h)
      (>>-done (start_word (length words + 1)) (goes_on fuel input (length words + 1))
        (ended words word (suc room)) (start-word words word room)
        (ap (λ n. goes_on fuel input n (state (words ++ word ∷ []) [] room))
          (sym (length-append words (word ∷ [])))))

-- A character of a word.
pub run-char :
    (fuel : ℕ) (words : List (List ℕ)) (word input : List ℕ) (room ch : ℕ)
    → length (joined words ++ word) < 32
    → (put_char ch >> goes_on fuel input (length words)) (state words word room)
      ≡ goes_on fuel input (length words) (state words (word ++ ch ∷ []) room)
run-char fuel words word input room ch h =
    >>-done (put_char ch) (goes_on fuel input (length words)) (state words word room)
      (put-word words word room ch h) refl

module _ (fuel : ℕ) (loop : Loop fuel) (words : List (List ℕ)) (room ch : ℕ) (input : List ℕ) where
  pub char-Stopped :
      (word : List ℕ)
      → length input < fuel
      → (ch == bar) ≡ false
      → (ch == space) ≡ false
      → Ready words word (ch ∷ input) room
      → Stopped words word
          (ch ∷ input)
          (parse_loop (suc fuel) (ch ∷ input) (length words) (state words word room))
  unfolding parse_loop
  char-Stopped word h b s r =
      as_before words words word (word ++ ch ∷ []) (ch ∷ input) input _ _
        (rw (b, s) (run-char fuel words word input room ch (omega (arith, r.small))))
        (other-words words word ch input b s) (sym (from_bar-other ch input b))
        (goes_on-Stopped fuel words (word ++ ch ∷ []) input room loop h ready)
    where
      ready : Ready words (word ++ ch ∷ []) input room
      ready = record {
        texts = r.texts;
        text = IsText-append word (ch ∷ []) r.text (r.rest.0, tt);
        rest = r.rest.1;
        begun = snoc-Begun word input ch;
        fits = r.fits;
        small = omega (
          arith,
          r.small,
          length-append (joined words) word,
          length-append (joined words) (word ++ ch ∷ []),
          length-append word (ch ∷ []),
        );
        few = omega (arith, r.few, ap length (other-words words word ch input b s));
      }

  pub space-Stopped :
      (c : ℕ) (word : List ℕ)
      → length input < fuel
      → (ch == bar) ≡ false
      → (ch == space) ≡ true
      → Ready words (c ∷ word) (ch ∷ input) (suc room)
      → Stopped words
          (c ∷ word)
          (ch ∷ input)
          (parse_loop (suc fuel) (ch ∷ input) (length words) (state words (c ∷ word) (suc room)))
  unfolding parse_loop
  space-Stopped c word h b e r =
      as_before words more (c ∷ word) [] (ch ∷ input) (skip_spaces input) _ _
        (rw (b, e)
          (run-space fuel words (c ∷ word) (skip_spaces input) room (omega (arith, r.small))))
        same (from_bar-skip input ∙ sym (from_bar-space ch input e))
        (goes_on-Stopped fuel more [] (skip_spaces input) room loop
          (omega (arith, h, length-skip input)) ready)
    where
      more : List (List ℕ)
      more = words ++ (c ∷ word) ∷ []

      same : words_from more [] (skip_spaces input) ≡ words_from words (c ∷ word) (ch ∷ input)
      same = words_from-skip more input ∙ sym (words_from-space words (c ∷ word) ch input e)

      ready : Ready more [] (skip_spaces input) room
      ready = record {
        texts = AreTexts-append words (c ∷ word) r.texts r.text;
        text = tt;
        rest = IsText-skip input r.rest.1;
        begun = skip-Begun input;
        fits = omega (arith, r.fits, length-append words ((c ∷ word) ∷ []));
        small = omega (
          arith,
          r.small,
          length-skip input,
          ap length (append-nil (joined more)),
          ap length (joined-snoc words (c ∷ word)),
          length-append (joined words ++ c ∷ word) (0 ∷ []),
        );
        few = omega (arith, r.few, ap length same);
      }

-- No room is left for the word that a space ends.
pub no_room :
    (words : List (List ℕ)) (c : ℕ) (word : List ℕ) (ch : ℕ) (input : List ℕ)
    → (ch == space) ≡ true
    → Ready words (c ∷ word) (ch ∷ input) 0
    → ⊥
no_room words c word ch input e r = omega (
  arith,
  r.fits,
  r.few,
  words_from_grows words (c ∷ word) (ch ∷ input),
  length-append words ((c ∷ word) ∷ []),
)

pub at_space :
    (fuel : ℕ) (loop : Loop fuel) (words : List (List ℕ)) (word : List ℕ) (room ch : ℕ)
    (input : List ℕ)
    → length input < fuel
    → (ch == bar) ≡ false
    → (ch == space) ≡ true
    → Ready words word (ch ∷ input) room
    → Stopped words word
        (ch ∷ input)
        (parse_loop (suc fuel) (ch ∷ input) (length words) (state words word room))
at_space fuel loop words [] room ch input h n e r = absurd (ground (arith, e, r.begun))
at_space fuel loop words (c ∷ word) zero ch input h n e r =
    absurd (no_room words c word ch input e r)
at_space fuel loop words (c ∷ word) (suc room) ch input h n e r =
    space-Stopped fuel loop words room ch input c word h n e r

pub Loop-Stopped : (fuel : ℕ) → Loop fuel
unfolding parse_loop
Loop-Stopped zero words word input room h r = absurd (omega arith)
Loop-Stopped (suc fuel) words word [] room h r =
    let (b, w) = nil-words words word in stop words word [] room r b w
Loop-Stopped (suc fuel) words word (ch ∷ input) room h r = elim (Bool-cases (ch == bar)) [
  | inl e ↦
      let (b, w) = bar-words words word ch input e in rw e (stop words word (ch ∷ input) room r b w)
  | inr n ↦ elim (Bool-cases (ch == space)) [
    | inl e ↦ at_space fuel (Loop-Stopped fuel) words word room ch input (omega arith) n e r
    | inr m ↦ char-Stopped fuel (Loop-Stopped fuel) words room ch input word (omega arith) n m r
  ]
]
