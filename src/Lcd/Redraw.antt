-- ===== src/Lcd/Redraw.antt =====
-- After a redraw the display shows the rows of the terminal.
use riscv_hobby_os.Base.{
  ℕ, suc, ◌≤◌, ◌+◌, ◌%◌, ◌^◌, ◌<◌, ◌≡◌, refl, ◌∙◌, sym, ap, subst, Bool, true, false, List, [], ◌∷◌,
  arith, length, length-take, get_or, take, ◌==◌, ltb,
}
use riscv_hobby_os.Lcd.{Buffer, Lcd, lcd_clear, lcd_set_cursor}
use riscv_hobby_os.Lcd.Print.{
  line_at, write_all, next_buf_line, redraw, redraw_current, clear_screen_and_scroll_up,
  printn_to_buf, lcd_printn,
}
use riscv_hobby_os.Lcd.Controller.{Screen, blank}
use riscv_hobby_os.Lcd.Bytes.{Ready, shown}
use riscv_hobby_os.Lcd.Terminal.{Terminal, terminal, IsBuffer, type_text, printn_to_buf-terminal}
use riscv_hobby_os.Lcd.Scroll.{
  offsets, Displays, write_text, move_to, draw, Displays-clear, Displays-draw, Displays-cursor,
  Displays-write_all, write_text-before, write_text-behind, write_text-cells,
}

-- The characters stand on the display from an address on.
abbrev pub ShowsRow : Screen → (addr : ℕ) → List ℕ → Type 0
ShowsRow s a cs = (j : ℕ) → j < length cs → s.cells (a + j) ≡ get_or cs j 0 % 2 ^ 8

-- The rows of the terminal from the top at the display's four rows; the last one is shown up to the cursor, and there
-- are spaces behind it.
abbrev pub ShowsTerminal : Screen → Terminal → Type 0
ShowsTerminal s t =
    ShowsRow s 0 (get_or t.above 0 [])
    × ShowsRow s 64 (get_or t.above 1 [])
    × ShowsRow s 20 (get_or t.above 2 [])
    × ShowsRow s 84 (take t.col t.row)
    × ((j : ℕ) → t.col ≤ j → j < 20 → s.cells (84 + j) ≡ b' ')
    × s.addr ≡ 84 + t.col

abbrev painted : (row0 row1 row2 row3 : List ℕ) → Screen
painted row0 row1 row2 row3 = write_text row3 (
    move_to 84 (
      write_text row2
        (move_to 20 (write_text row1 (move_to 64 (write_text row0 (move_to 0 blank)))))))

write_text-addr : (cs : List ℕ) (s : Screen) → (write_text cs s).addr ≡ s.addr + length cs
write_text-addr [] s = omega arith
write_text-addr (c ∷ cs) s = write_text-addr cs _ ∙ omega arith

module _ (row0 row1 row2 : List ℕ) where
  abbrev first : Screen
  first = write_text row0 (move_to 0 blank)

  abbrev second : Screen
  second = write_text row1 (move_to 64 first)

  abbrev third : Screen
  third = write_text row2 (move_to 20 second)

  module _ (row3 : List ℕ) (h0 : length row0 ≡ 20) (h1 : length row1 ≡ 20)
      (h2 : length row2 ≡ 20) where
    painted-row0 : ShowsRow (painted row0 row1 row2 row3) 0 row0
    painted-row0 j h =
        write_text-before row3 (move_to 84 third) (0 + j) (omega arith)
        ∙ write_text-before row2 (move_to 20 second) (0 + j) (omega arith)
        ∙ write_text-before row1 (move_to 64 first) (0 + j) (omega arith)
        ∙ write_text-cells row0 (move_to 0 blank) j h

    painted-row1 : ShowsRow (painted row0 row1 row2 row3) 64 row1
    painted-row1 j h =
        write_text-before row3 (move_to 84 third) (64 + j) (omega arith)
        ∙ write_text-behind row2 (move_to 20 second) (64 + j) (omega arith)
        ∙ write_text-cells row1 (move_to 64 first) j h

    painted-row2 : ShowsRow (painted row0 row1 row2 row3) 20 row2
    painted-row2 j h =
        write_text-before row3 (move_to 84 third) (20 + j) (omega arith)
        ∙ write_text-cells row2 (move_to 20 second) j h

    painted-rest : (j : ℕ) → length row3 ≤ j → (painted row0 row1 row2 row3).cells (84 + j) ≡ b' '
    painted-rest j h =
        write_text-behind row3 (move_to 84 third) (84 + j) (omega arith)
        ∙ write_text-behind row2 (move_to 20 second) (84 + j) (omega arith)
        ∙ write_text-behind row1 (move_to 64 first) (84 + j) (omega arith)
        ∙ write_text-behind row0 (move_to 0 blank) (84 + j) (omega arith)

    painted-row3 : ShowsRow (painted row0 row1 row2 row3) 84 row3
    painted-row3 j h = write_text-cells row3 (move_to 84 third) j h

redraw-next :
    (n row i : ℕ) (l : Lcd)
    → (i == l.buf.curr_line) ≡ false
    → redraw (suc n) row i l ≡ redraw n (row + 1) (next_buf_line i) (draw row i l)
unfolding redraw
redraw-next n row i l h = rw h refl

redraw-stops :
    (n row i : ℕ) (l : Lcd) → (i == l.buf.curr_line) ≡ true → redraw (suc n) row i l ≡ (row, l)
unfolding redraw
redraw-stops n row i l h = rw h refl

module _ (l : Lcd) (b : Buffer) (s : Screen) (d : Displays l b s) (q : IsBuffer b) where
  -- The lines above the current one, from the top.
  abbrev top : ℕ
  top = next_buf_line b.curr_line

  abbrev middle : ℕ
  middle = next_buf_line top

  abbrev bottom : ℕ
  bottom = next_buf_line middle

  abbrev cleared : Lcd
  cleared = lcd_clear l

  abbrev drawn1 : Lcd
  drawn1 = draw 0 top cleared

  abbrev drawn2 : Lcd
  drawn2 = draw 1 middle drawn1

  abbrev drawn3 : Lcd
  drawn3 = draw 2 bottom drawn2

  displays0 : Displays cleared b blank
  displays0 = Displays-clear l b s d

  displays1 : Displays drawn1 b (write_text (line_at b top) (move_to 0 blank))
  displays1 = Displays-draw 0 0 top cleared b blank (λ s. refl) displays0

  displays2 :
      Displays drawn2 b
        (write_text (line_at b middle) (move_to 64 (write_text (line_at b top) (move_to 0 blank))))
  displays2 = Displays-draw 1 64 middle drawn1 b _ (λ s. refl) displays1

  abbrev above_cursor : Screen
  above_cursor = third (line_at b top) (line_at b middle) (line_at b bottom)

  displays3 : Displays drawn3 b above_cursor
  displays3 = Displays-draw 2 20 bottom drawn2 b _ (λ s. refl) displays2

  in_buffer :
      (i : ℕ) (v : Bool) (l' : Lcd) (s' : Screen)
      → Displays l' b s'
      → (i == b.curr_line) ≡ v
      → (i == l'.buf.curr_line) ≡ v
  in_buffer i v l' s' (r, o, n, e, f) h = subst (λ c. (i == c.curr_line) ≡ v) (sym e) h

  redraws : redraw 4 0 top cleared ≡ (3, drawn3)
  redraws =
      redraw-next 3 0 top cleared (in_buffer top false cleared _ displays0 (ground arith))
      ∙ redraw-next 2 1 middle drawn1 (in_buffer middle false drawn1 _ displays1 (ground arith))
      ∙ redraw-next 1 2 bottom drawn2 (in_buffer bottom false drawn2 _ displays2 (ground arith))
      ∙ redraw-stops 0 3 (next_buf_line bottom) drawn3
          (in_buffer (next_buf_line bottom) true drawn3 _ displays3 (ground arith))

  -- The rows of the terminal, as they are written.
  abbrev redrawn : Screen
  redrawn =
      painted (line_at b top) (line_at b middle) (line_at b bottom)
        (take b.pos (line_at b b.curr_line))

  displays4 : Displays (redraw_current 3 drawn3) b redrawn
  displays4 =
      let (r, o, n, e, f) = Displays-cursor 3 84 drawn3 b above_cursor refl displays3 in
      subst
        (λ c.
          Displays (write_all (take c.pos (line_at c c.curr_line)) (lcd_set_cursor 0 3 drawn3)) b
            redrawn)
        (sym e)
        (Displays-write_all (take b.pos (line_at b b.curr_line)) (lcd_set_cursor 0 3 drawn3) b
          (move_to 84 above_cursor) (r, o, n, e, f))

  displays5 : l.buf ≡ b → Displays (clear_screen_and_scroll_up l) b redrawn
  unfolding clear_screen_and_scroll_up
  displays5 e =
      subst (λ (row, l'). Displays (redraw_current row l') b redrawn)
        (sym (ap (λ c. redraw 4 0 (next_buf_line c.curr_line) cleared) e ∙ redraws)) displays4

  redrawn-ShowsTerminal : ShowsTerminal redrawn (terminal b)
  redrawn-ShowsTerminal =
      let (l, rows, c, p, e) = q in
      let h0 = rows top (ground arith) in
      let h1 = rows middle (ground arith) in
      let h2 = rows bottom (ground arith) in
      let last = take b.pos (line_at b b.curr_line) in
      let now = rows b.curr_line c in
      let typed = length-take b.pos (line_at b b.curr_line) in
      (
        painted-row0 (line_at b top) (line_at b middle) (line_at b bottom) last h0 h1 h2,
        painted-row1 (line_at b top) (line_at b middle) (line_at b bottom) last h0 h1 h2,
        painted-row2 (line_at b top) (line_at b middle) (line_at b bottom) last h0 h1 h2,
        painted-row3 (line_at b top) (line_at b middle) (line_at b bottom) last h0 h1 h2,
        λ j u v.
            painted-rest (line_at b top) (line_at b middle) (line_at b bottom) last h0 h1 h2 j
              (omega (arith, typed, now, p, u)),
        write_text-addr last (move_to 84 above_cursor) ∙ omega (arith, typed, now, p),
      )

-- The driver is set up as `lcd_init` leaves it, and its buffer is well-formed.
abbrev pub IsSetUp : Lcd → Type 0
IsSetUp l = Ready l × l.row_offsets ≡ offsets × l.num_lines ≡ 4 × IsBuffer l.buf

-- A redraw sends through the pins exactly what makes the display show the buffer's lines as a terminal does, the
-- oldest on top and the current one below up to the cursor, with the display's cursor behind it.
pub clear_screen_and_scroll_up-ShowsTerminal :
    (l : Lcd)
    → IsSetUp l
    → IsSetUp (clear_screen_and_scroll_up l)
      × ShowsTerminal (shown (clear_screen_and_scroll_up l)).screen (terminal l.buf)
clear_screen_and_scroll_up-ShowsTerminal l (r, o, n, q) =
    let (r', o', n', e, f) = displays5 l l.buf (shown l).screen (r, o, n, refl, refl) q refl in
    (
      (r', o', n', subst IsBuffer (sym e) q),
      subst (λ s. ShowsTerminal s (terminal l.buf)) (sym f)
          (redrawn-ShowsTerminal l l.buf (shown l).screen (r, o, n, refl, refl) q),
    )

abbrev printed : List ℕ → Lcd → Lcd
printed text l = record l { buf = (printn_to_buf text l.buf).1 }

redraws_it :
    (text : List ℕ) (l : Lcd)
    → ((printn_to_buf text l.buf).1).screen_is_full ≡ true
    → ltb 0 (type_text text (terminal l.buf)).0 ≡ true
    → ((printn_to_buf text l.buf).0, terminal ((printn_to_buf text l.buf).1))
      ≡ type_text text (terminal l.buf)
    → lcd_printn text l ≡ clear_screen_and_scroll_up (printed text l)
unfolding lcd_printn
redraws_it text l full scrolls e = rw full (rw (ap (λ p. ltb 0 p.0) e ∙ scrolls) refl)

-- Where a text makes the full screen scroll, printing it leaves on the display, pin by pin, the first
-- three rows that typing the text on a scrolling terminal gives, the fourth one up to the cursor with spaces behind it,
-- and the display's cursor there; the driver stays set up, with a well-formed buffer.
pub lcd_printn-ShowsTerminal :
    (text : List ℕ) (l : Lcd)
    → IsSetUp l
    → ((printn_to_buf text l.buf).1).screen_is_full ≡ true
    → ltb 0 (type_text text (terminal l.buf)).0 ≡ true
    → IsSetUp (lcd_printn text l)
      × ShowsTerminal (shown (lcd_printn text l)).screen (type_text text (terminal l.buf)).1
lcd_printn-ShowsTerminal text l (r, o, n, q) full scrolls =
    let (q', e) = printn_to_buf-terminal text l.buf q in
    let (u, s) = clear_screen_and_scroll_up-ShowsTerminal (printed text l) (r, o, n, q') in
    (
      subst IsSetUp (sym (redraws_it text l full scrolls e)) u,
      subst (λ l'. ShowsTerminal (shown l').screen (type_text text (terminal l.buf)).1)
          (sym (redraws_it text l full scrolls e))
          (subst (ShowsTerminal (shown (clear_screen_and_scroll_up (printed text l))).screen)
            (ap (λ p. p.1) e) s),
    )
