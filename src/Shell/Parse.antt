-- ===== src/Shell/Parse.antt =====
-- `parse_command` finds the words.
use mathlib.Core.List.{append_assoc, append-nil}
use riscv_hobby_os.Base.{
  ℕ, zero, suc, ◌+◌, ◌<◌, ◌≤◌, ◌≡◌, ◌≢◌, refl, ◌∙◌, sym, ap, false, List, [], ◌∷◌, ◌++◌, M, done,
  pure, modify, ◌>>=◌, ◌>>◌, >>-done, >>=-done, ◌==◌, if◌then◌else◌, length, length-append, get_or,
  set, replicate, arith,
}
use riscv_hobby_os.Shell.{
  null, char_at, Cmd, next, skip_spaces, put_char, set_arg, parse_loop, first_of, end_args,
  parse_command,
}
use riscv_hobby_os.Shell.Words.{
  finish, words_from, from_bar, IsText, AreTexts, AreTexts-append, words_from-skip, from_bar-skip,
  length-skip, IsText-skip,
}
use riscv_hobby_os.Shell.Layout.{
  joined, args_of, joined-snoc, args_of-next, set-args_of, get_or-args_of, argv, argv_from,
  argv-joined,
}
use riscv_hobby_os.Shell.Steps.{state, ended, put-end}
use riscv_hobby_os.Shell.Loop.{skip-Begun, Ready, Loop-Stopped}

null-at : (room i : ℕ) → get_or (replicate room null) i null ≡ null
null-at zero i = refl
null-at (suc room) zero = refl
null-at (suc room) (suc i) = null-at room i

-- What stands behind the last argument.
next-null :
    (o : ℕ) (words : List (List ℕ)) (room i : ℕ)
    → length words ≤ i
    → get_or (args_of o words (replicate room null)) i null ≡ null
next-null o [] room i h = null-at room i
next-null o (w ∷ words) room zero h = absurd (omega arith)
next-null o (w ∷ words) room (suc i) h = next-null (o + length w + 1) words room i (omega arith)

get_or-prefix : (pre rest : List ℕ) → get_or (pre ++ rest) (length pre) 0 ≡ get_or rest 0 0
get_or-prefix [] rest = refl
get_or-prefix (x ∷ pre) rest = get_or-prefix pre rest

-- What `end_args` leaves.
abbrev Ended : (found : List (List ℕ)) (last input : List ℕ) (room : ℕ) → Type 0
Ended found last input room =
    (c : Cmd) × (end_args (length found, input) (state found last room) ≡ done input c)
    × (argv c ≡ finish found last)
    × (next c ≡ null)

-- Behind `put_char 0`.
abbrev finish_args : (argc : ℕ) → (input : List ℕ) → (ch : ℕ) → M Cmd (List ℕ)
finish_args argc input ch = modify (set_arg (if ch == 0 then argc else argc + 1) null) >> pure input

first-char :
    (found : List (List ℕ)) (last : List ℕ) (room : ℕ)
    → first_of (get_or (ended found last room).pointers (length found) null) (ended found last room)
      ≡ done (get_or (last ++ 0 ∷ []) 0 0) (ended found last room)
first-char found last room =
    ap (λ ps. first_of (get_or ps (length found) null) (ended found last room))
      (args_of-next found last (replicate room null))
    ∙ ap (λ p. first_of p (ended found last room))
        (get_or-args_of 0 found (char_at (length (joined found))) null (replicate room null))
    ∙ ap (λ b. done (get_or b (length (joined found)) 0) (ended found last room))
        (joined-snoc found last ∙ append_assoc (joined found) last (0 ∷ []))
    ∙ ap (λ ch. done ch (ended found last room)) (get_or-prefix (joined found) (last ++ 0 ∷ []))

run-end :
    (found : List (List ℕ)) (last input : List ℕ) (room : ℕ)
    → length (joined found ++ last) < 32
    → end_args (length found, input) (state found last room)
      ≡ finish_args (length found) input (get_or (last ++ 0 ∷ []) 0 0) (ended found last room)
run-end found last input room h =
    >>-done (put_char 0) _ (state found last room) (put-end found last room h) (
      >>=-done (first_of (get_or (ended found last room).pointers (length found) null))
        (finish_args (length found) input) (ended found last room) (first-char found last room)
        refl)

end_args-Ended :
    (found : List (List ℕ)) (last input : List ℕ) (room : ℕ)
    → AreTexts found
    → IsText last
    → length found + room ≡ 4
    → length (joined found ++ last) < 32
    → length (finish found last) ≤ 4
    → Ended found last input room
end_args-Ended found [] input room ts t f h few = (
  set_arg (length found) null (ended found [] room),
  run-end found [] input room h,
  ap (λ ps. argv_from (joined (found ++ [] ∷ [])) ps) cut
      ∙ ap (λ b. argv_from b (args_of 0 found (null ∷ replicate room null)))
          (joined-snoc found [] ∙ append_assoc (joined found) [] (0 ∷ []))
      ∙ argv-joined found (0 ∷ []) (replicate room null) ts,
  ap (λ ps. get_or ps 4 null) cut ∙ next-null 0 found (suc room) 4 (omega arith),
)
  where
    cut :
        set (args_of 0 (found ++ [] ∷ []) (replicate room null)) (length found) null
        ≡ args_of 0 found (null ∷ replicate room null)
    cut =
        ap (λ ps. set ps (length found) null) (args_of-next found [] (replicate room null))
        ∙ set-args_of 0 found (char_at (length (joined found))) null (replicate room null)
end_args-Ended found (c ∷ last) input zero ts (n, t) f h few =
    absurd (omega (arith, length-append found ((c ∷ last) ∷ [])))
end_args-Ended found (c ∷ last) input (suc room) ts (n, t) f h few = (
  set_arg (length found + 1) null (ended found (c ∷ last) (suc room)),
  run-end found (c ∷ last) input (suc room) h
      ∙ ap
          (λ b. done input (
            set_arg (if b then length found else length found + 1) null
              (ended found (c ∷ last) (suc room))))
          (not_nul c n),
  ap (λ ps. argv_from (joined more) ps) cut
      ∙ ap (λ b. argv_from b (args_of 0 more (null ∷ replicate room null)))
          (sym (append-nil (joined more)))
      ∙ argv-joined more [] (replicate room null) (AreTexts-append found (c ∷ last) ts (n, t)),
  ap (λ ps. get_or ps 4 null) cut ∙ next-null 0 more (suc room) 4 few,
)
  where
    more : List (List ℕ)
    more = found ++ (c ∷ last) ∷ []

    not_nul : (c : ℕ) → c ≢ 0 → (c == 0) ≡ false
    not_nul c n = ground (arith, n)

    cut :
        set (args_of 0 more (null ∷ replicate room null)) (length found + 1) null
        ≡ args_of 0 more (null ∷ replicate room null)
    cut =
        ap (λ i. set (args_of 0 more (null ∷ replicate room null)) i null)
          (sym (length-append found ((c ∷ last) ∷ [])))
        ∙ set-args_of 0 more null null (replicate room null)

-- From a fresh command and an input without zero bytes that fits into the buffer and begins with at
-- most four words, `parse_command` returns where the input ends or the bar stands, the command's
-- arguments read as the input's words up to there, and `next` is null.
pub parse_command-words :
    (input : List ℕ) (c : Cmd)
    → c.pointers ≡ replicate 5 null
    → IsText input
    → length input < 32
    → length (words_from [] [] input) ≤ 4
    → (c' : Cmd) × (parse_command input c ≡ done (from_bar input) c')
      × (argv c' ≡ words_from [] [] input)
      × (next c' ≡ null)
unfolding parse_command
parse_command-words input c fresh t h few =
    let s =
      Loop-Stopped (length (skip_spaces input) + 1) [] [] (skip_spaces input) 4 (omega arith)
        ready in
    let same = s.words_are ∙ words_from-skip [] input in
    let (c', run, args, end) =
      end_args-Ended s.found s.last (from_bar (skip_spaces input)) s.room s.texts s.text s.fits
        s.small (omega (arith, few, ap length same)) in
    (
      c',
      ap
            (λ ps.
              (parse_loop (length (skip_spaces input) + 1) (skip_spaces input) 0 >>= end_args)
                (record { buf = []; pointers = set ps 0 (char_at 0) }))
            fresh
          ∙ >>=-done (parse_loop (length (skip_spaces input) + 1) (skip_spaces input) 0) end_args
              (state [] [] 4) s.runs (run ∙ ap (λ i. done i c') (from_bar-skip input)),
      args ∙ same,
      end,
    )
  where
    ready : Ready [] [] (skip_spaces input) 4
    ready = record {
      texts = tt;
      text = tt;
      rest = IsText-skip input t;
      begun = skip-Begun input;
      fits = refl;
      small = omega (arith, length-skip input);
      few = omega (arith, few, ap length (words_from-skip [] input));
    }
