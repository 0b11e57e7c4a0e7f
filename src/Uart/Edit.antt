-- ===== src/Uart/Edit.antt =====
-- The receive buffer as a line that is typed: what each character does to it.
use riscv_hobby_os.Base.{
  ℕ, ◌≡◌, ◌≢◌, refl, ◌∙◌, sym, ap, ap₂, Bool, true, false, List, [], ◌∷◌, ◌++◌, ◌==◌, arith,
  if◌then◌else◌, inl, inr, Bool-cases, subst, get_or, set, count, pos,
}
use riscv_hobby_os.Pipe.{bump}
use riscv_hobby_os.Pipe.Moves.{used, IsValid, contents}
use riscv_hobby_os.Pipe.Queue.{put, put-IsValid, contents-put}
use riscv_hobby_os.Uart.{
  uart_buf_sz, ascii_del, newline, carriage_return, writes_char, Uart, Enqueue, increment,
  step_back, decrement_wpos, rub_out, next_wpos, store, count_line, wake_readers, enqueue_char,
  enqueue_loop, enqueue_start, uart_enqueue_chars,
}
use riscv_hobby_os.Uart.Line.{
  is_newline, rubbed, typed, typed_all, line, rubbed-append, back, back-IsValid, not_full,
  contents-back, full_iff, count-append_one, count-rubbed, Counted, Types,
}

module _ (s : Enqueue) (v : IsValid uart_buf_sz (line s)) where
  abbrev xs : List ℕ
  xs = contents uart_buf_sz (line s)

  typed_full : (ch : ℕ) → s.uart.rx.full ≡ true → typed ch xs ≡ xs
  typed_full ch f =
      ap
        (λ b.
          if b
          then xs
          else if ch == ascii_del
          then rubbed xs
          else xs ++ (if ch == carriage_return then newline else ch) ∷ [])
        (full_iff (line s) v ∙ f)

  typed_room :
      (ch : ℕ)
      → s.uart.rx.full ≡ false
      → typed ch xs ≡ (
          if ch == ascii_del
          then rubbed xs
          else xs ++ (if ch == carriage_return then newline else ch) ∷ [])
  typed_room ch f =
      ap
        (λ b.
          if b
          then xs
          else if ch == ascii_del
          then rubbed xs
          else xs ++ (if ch == carriage_return then newline else ch) ∷ [])
        (full_iff (line s) v ∙ f)

  stays : (ch : ℕ) → typed ch xs ≡ xs → Types ch s s
  stays ch e = record { valid = v; now = sym e; lines = λ n c. c }

  -- A backspace at an empty or a full buffer.
  rub_at_start : s.wpos ≡ s.uart.rx.rpos → typed ascii_del xs ≡ xs
  rub_at_start e = elim (Bool-cases s.uart.rx.full) [
    | inl f ↦ typed_full ascii_del f
    | inr f ↦
        let z : used uart_buf_sz (line s) ≡ 0 = ground (arith, e, f) in
        typed_room ascii_del f ∙ rw z refl
  ]

  abbrev last : ℕ
  last = get_or s.uart.rx.page (step_back s.wpos) 0

  rub_last :
      (p : s.wpos ≢ s.uart.rx.rpos)
      → typed ascii_del xs ≡ (if is_newline last then xs else contents uart_buf_sz (back (line s)))
  rub_last p =
      typed_room ascii_del (not_full (line s) v p)
      ∙ ap rubbed (contents-back (line s) v p)
      ∙ rubbed-append (contents uart_buf_sz (back (line s))) last
      ∙ ap (λ t. if is_newline last then t else contents uart_buf_sz (back (line s)))
          (sym (contents-back (line s) v p))

  rub_same : (w : ℕ) → w ≡ s.wpos → rub_out w s ≡ s
  rub_same w e = let same : (w == s.wpos) ≡ true = ground arith in rw same refl

  abbrev rubbed_out : Enqueue
  rubbed_out = record s {
    wpos = step_back s.wpos;
    effects = s.effects ++ writes_char 8 ∷ writes_char 32 ∷ writes_char 8 ∷ [];
    uart = record (s.uart) { rx = record (s.uart.rx) { full = false } };
  }

  rub_other : (w : ℕ) → w ≡ step_back s.wpos → rub_out w s ≡ rubbed_out
  rub_other w e =
      let other : (step_back s.wpos == s.wpos) ≡ false = ground (arith, v.wpos_in) in
      rw e (rw other refl)

  rub-Types : Types ascii_del s (rub_out (decrement_wpos s.uart.rx s.wpos) s)
  unfolding decrement_wpos
  rub-Types = elim (Bool-cases (s.wpos == s.uart.rx.rpos)) [
    | inl e ↦
        subst (Types ascii_del s) (sym (rub_same _ (ap (λ b. if b then s.wpos else behind) e)))
          (stays ascii_del (rub_at_start (ground (arith, e))))
    | inr e ↦
        let p : s.wpos ≢ s.uart.rx.rpos = ground (arith, e) in
        elim (Bool-cases (is_newline last)) [
          | inl n ↦
              subst (Types ascii_del s)
                (sym (
                  rub_same _ (
                    ap (λ b. if b then s.wpos else behind) e
                    ∙ ap (λ b. if b then s.wpos else step_back s.wpos) n)))
                (stays ascii_del
                  (rub_last p ∙ ap (λ b. if b then xs else contents uart_buf_sz (back (line s))) n))
          | inr n ↦
              let now : contents uart_buf_sz (line rubbed_out) ≡ typed ascii_del xs =
                sym (
                  rub_last p
                  ∙ ap (λ b. if b then xs else contents uart_buf_sz (back (line s))) n) in
              subst (Types ascii_del s)
                (sym (
                  rub_other _ (
                    ap (λ b. if b then s.wpos else behind) e
                    ∙ ap (λ b. if b then s.wpos else step_back s.wpos) n)))
                (record {
                  valid = back-IsValid (line s) v p;
                  now = now;
                  lines = λ k c.
                      c
                      ∙ ap pos (
                          sym (count-rubbed xs)
                          ∙ ap (count is_newline)
                              (sym (typed_room ascii_del (not_full (line s) v p)) ∙ sym now));
                })
        ]
  ]
    where
      behind : ℕ
      behind = if is_newline last then s.wpos else step_back s.wpos

  store-Types :
      (ch : ℕ)
      → s.uart.rx.full ≡ false
      → IsValid uart_buf_sz (line (store ch s))
        × (contents uart_buf_sz (line (store ch s)) ≡ xs ++ ch ∷ [])
  store-Types ch f =
      let next : next_wpos s.wpos ≡ bump uart_buf_sz s.wpos = ground (arith, v.wpos_in) in
      let r : line (store ch s) ≡ put uart_buf_sz ch (line s) = same_ring next in
      (
        subst (IsValid uart_buf_sz) (sym r) (put-IsValid uart_buf_sz ch (line s) v f),
        ap (contents uart_buf_sz) r ∙ contents-put uart_buf_sz ch (line s) v f,
      )
    where
      same_ring :
          next_wpos s.wpos ≡ bump uart_buf_sz s.wpos
          → line (store ch s) ≡ put uart_buf_sz ch (line s)
      same_ring e =
          ap₂
            (λ w b. record {
              page = set s.uart.rx.page s.wpos ch;
              full = b;
              wpos = w;
              rpos = s.uart.rx.rpos;
            })
            e (fills e)
        where
          fills :
              next_wpos s.wpos ≡ bump uart_buf_sz s.wpos
              → (if next_wpos s.wpos == s.uart.rx.rpos then true else s.uart.rx.full)
                ≡ (bump uart_buf_sz s.wpos == s.uart.rx.rpos)
          fills e' = ground (arith, f, e')

  full-Types : (ch : ℕ) → s.uart.rx.full ≡ true → Types ch s (wake_readers s)
  full-Types ch f = record { valid = v; now = sym (typed_full ch f); lines = λ n c. c }

  return-Types :
      (ch : ℕ)
      → (ch == ascii_del) ≡ false
      → (ch == carriage_return) ≡ true
      → s.uart.rx.full ≡ false
      → Types ch s (store newline (count_line s))
  return-Types ch d r f =
      let (ok, now) = store-Types newline f in
      record {
        valid = ok;
        now =
            now
            ∙ sym (
                typed_room ch f
                ∙ ap (λ b. if b then rubbed xs else typed_char) d
                ∙ ap (λ b. xs ++ (if b then newline else ch) ∷ []) r);
        lines = λ n c.
            ap increment c
            ∙ ap pos (sym (count-append_one xs newline) ∙ ap (count is_newline) (sym now));
      }
    where
      typed_char : List ℕ
      typed_char = xs ++ (if ch == carriage_return then newline else ch) ∷ []

  char-Types :
      (ch : ℕ)
      → (ch == ascii_del) ≡ false
      → (ch == carriage_return) ≡ false
      → s.uart.rx.full ≡ false
      → Types ch s (store ch s)
  char-Types ch d r f =
      let (ok, now) = store-Types ch f in
      record {
        valid = ok;
        now =
            now
            ∙ sym (
                typed_room ch f
                ∙ ap (λ b. if b then rubbed xs else typed_char) d
                ∙ ap (λ b. xs ++ (if b then newline else ch) ∷ []) r);
        lines = λ n c.
            c
            ∙ ap pos (
                omega (arith, count-append_one xs ch, not_newline n)
                ∙ ap (count is_newline) (sym now));
      }
    where
      typed_char : List ℕ
      typed_char = xs ++ (if ch == carriage_return then newline else ch) ∷ []

      not_newline : ch ≢ newline → ◌≡◌ {A = ℕ} (if is_newline ch then 1 else 0) 0
      not_newline n = ground (arith, n)

  enqueue_char-Types : (ch : ℕ) → Types ch s (enqueue_char ch s)
  unfolding enqueue_char
  enqueue_char-Types ch = elim (Bool-cases (ch == ascii_del)) [
    | inl d ↦
        let e : ascii_del ≡ ch = ground (arith, d) in
        rw d (subst (λ c. Types c s (rub_out (decrement_wpos s.uart.rx s.wpos) s)) e rub-Types)
    | inr d ↦ elim (Bool-cases s.uart.rx.full) [
      | inl f ↦ subst (Types ch s) (sym (by_tests d f)) (full-Types ch f)
      | inr f ↦ elim (Bool-cases (ch == carriage_return)) [
        | inl r ↦
            subst (Types ch s)
              (sym
                (by_tests d f ∙ ap (λ b. if b then store newline (count_line s) else store ch s) r))
              (return-Types ch d r f)
        | inr r ↦
            subst (Types ch s)
              (sym
                (by_tests d f ∙ ap (λ b. if b then store newline (count_line s) else store ch s) r))
              (char-Types ch d r f)
      ]
    ]
  ]
    where
      by_tests :
          (ch == ascii_del) ≡ false
          → {b : Bool} → s.uart.rx.full ≡ b
          → enqueue_char ch s ≡ (
              if b
              then wake_readers s
              else if ch == carriage_return
              then store newline (count_line s)
              else store ch s)
      by_tests d f =
          ap₂
            (λ x y.
              if x
              then rub_out (decrement_wpos s.uart.rx s.wpos) s
              else if y
              then wake_readers s
              else if ch == carriage_return
              then store newline (count_line s)
              else store ch s)
            d f

abbrev pub NoNewline : List ℕ → Type 0
NoNewline [] = Unit {0}
NoNewline (ch ∷ fifo) = (ch ≢ newline) × NoNewline fifo

loop-typed :
    (fifo : List ℕ) (s : Enqueue)
    → IsValid uart_buf_sz (line s)
    → IsValid uart_buf_sz (line (enqueue_loop fifo s))
      × (contents uart_buf_sz (line (enqueue_loop fifo s))
          ≡ typed_all fifo (contents uart_buf_sz (line s)))
      × (NoNewline fifo → Counted s → Counted (enqueue_loop fifo s))
unfolding enqueue_loop
loop-typed [] s v = (v, refl, λ n c. c)
loop-typed (ch ∷ fifo) s v =
    let t = enqueue_char-Types s v ch in
    let (ok, now, lines) = loop-typed fifo (enqueue_char ch s) t.valid in
    (ok, now ∙ ap (typed_all fifo) t.now, λ n c. lines n.1 (t.lines n.0 c))

-- Whatever is typed, the receive buffer stays valid and ends up holding what a line editor makes
-- of it: each character is appended, a carriage return as the end of a line; a backspace takes away
-- the last character of an unfinished line; and a buffer that is full takes nothing. If no bare
-- line feed is typed, a counter of lines that was right before is right again.
pub uart_enqueue_chars-typed :
    (fifo : List ℕ) (u : Uart)
    → IsValid uart_buf_sz u.rx
    → let u' = (uart_enqueue_chars fifo u).0 in
      IsValid uart_buf_sz u'.rx
      × (contents uart_buf_sz u'.rx ≡ typed_all fifo (contents uart_buf_sz u.rx))
      × (NoNewline fifo
          → u.rx_num_newlines ≡ pos (count is_newline (contents uart_buf_sz u.rx))
          → u'.rx_num_newlines ≡ pos (count is_newline (contents uart_buf_sz u'.rx)))
unfolding uart_enqueue_chars
uart_enqueue_chars-typed fifo u v = loop-typed fifo (enqueue_start u) v
