-- ===== src/Shell/Steps.antt =====
-- The states of `parse_command`'s loop, and what a character does to them.
use mathlib.Core.List.{append_assoc, append-nil}
use riscv_hobby_os.Base.{
  ℕ, suc, ◌+◌, ◌<◌, ◌≡◌, ◌∙◌, sym, ap, true, List, [], ◌∷◌, ◌++◌, done, fault, bad_index, ltb,
  if◌then◌else◌, length, length-append, replicate, arith,
}
use riscv_hobby_os.Shell.{null, char_at, Cmd, put_char, set_arg, start_word}
use riscv_hobby_os.Shell.Layout.{joined, args_of, joined-snoc, args_of-next, set-args_of}

-- The command where the finished words and the one that is read are in its buffer; `room` pointers
-- are left.
abbrev pub state : (words : List (List ℕ)) (word : List ℕ) (room : ℕ) → Cmd
state words word room = record {
  buf = joined words ++ word;
  pointers = args_of 0 words (char_at (length (joined words)) ∷ replicate room null);
}

pub put_char-done :
    (ch : ℕ) (c : Cmd)
    → length c.buf < 32
    → put_char ch c ≡ done tt (record c { buf = c.buf ++ ch ∷ [] })
put_char-done ch c h =
    ap (λ b. if b then done tt (record c { buf = c.buf ++ ch ∷ [] }) else fault bad_index) (small h)
  where
    small : length c.buf < 32 → ltb (length c.buf) 32 ≡ true
    small h = ground arith

-- A character is read.
pub put-word :
    (words : List (List ℕ)) (word : List ℕ) (room ch : ℕ)
    → length (joined words ++ word) < 32
    → put_char ch (state words word room) ≡ done tt (state words (word ++ ch ∷ []) room)
put-word words word room ch h =
    put_char-done ch (state words word room) h
    ∙ ap (λ b. done tt (record (state words word room) { buf = b }))
        (append_assoc (joined words) word (ch ∷ []))

-- A word ends, and the next begins.
abbrev pub ended : (words : List (List ℕ)) (word : List ℕ) (room : ℕ) → Cmd
ended words word room = record {
  buf = joined (words ++ word ∷ []);
  pointers = args_of 0 (words ++ word ∷ []) (replicate room null);
}

pub put-end :
    (words : List (List ℕ)) (word : List ℕ) (room : ℕ)
    → length (joined words ++ word) < 32
    → put_char 0 (state words word room) ≡ done tt (ended words word room)
put-end words word room h =
    put_char-done 0 (state words word room) h
    ∙ ap (λ b. done tt (record { buf = b; pointers = (state words word room).pointers }))
        (sym (joined-snoc words word))
    ∙ ap (λ ps. done tt (record { buf = joined (words ++ word ∷ []); pointers = ps }))
        (sym (args_of-next words word (replicate room null)))

pub start-word :
    (words : List (List ℕ)) (word : List ℕ) (room : ℕ)
    → start_word (length words + 1) (ended words word (suc room))
      ≡ done tt (state (words ++ word ∷ []) [] room)
start-word words word room =
    ap
      (λ n.
        done tt (
          set_arg n (char_at (length (joined (words ++ word ∷ [])))) (ended words word (suc room))))
      (sym (length-append words (word ∷ [])))
    ∙ ap (λ ps. done tt (record { buf = joined (words ++ word ∷ []); pointers = ps }))
        (set-args_of 0 (words ++ word ∷ []) null (char_at (length (joined (words ++ word ∷ []))))
          (replicate room null))
    ∙ ap
        (λ b.
          done tt (record { buf = b; pointers = (state (words ++ word ∷ []) [] room).pointers }))
        (sym (append-nil (joined (words ++ word ∷ []))))
