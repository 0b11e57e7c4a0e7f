-- ===== src/Lcd/Scroll.antt =====
-- What the display shows behind a redraw.
use Prim.Native.Nat.{bit_or}
use riscv_hobby_os.Base.{
  ℕ, zero, suc, ◌+◌, ◌%◌, ◌^◌, ◌<◌, ◌≤◌, ◌≡◌, refl, ◌∙◌, sym, ap, ap₂, subst, List, [], ◌∷◌, arith,
  length, get_or,
}
use riscv_hobby_os.Lcd.{
  Buffer, Lcd, log, delay_millis, clip_row, lcd_command, lcd_write, lcd_set_cursor, lcd_clear,
}
use riscv_hobby_os.Lcd.Print.{line_at, write_all}
use riscv_hobby_os.Lcd.Controller.{Screen, blank, show_char, obey, power_on}
use riscv_hobby_os.Lcd.Bytes.{
  Ready, IsIdle, listen-append, shown, lcd_write-Shows, lcd_command-Shows,
}

abbrev pub offsets : List ℕ
offsets = 0 ∷ 64 ∷ 20 ∷ 84 ∷ []

-- The driver is set up, the display waits for a byte, and its text is `s`.
abbrev pub Displays : Lcd → Buffer → Screen → Type 0
Displays l b s =
    Ready l × l.row_offsets ≡ offsets × l.num_lines ≡ 4 × l.buf ≡ b × (shown l).screen ≡ s

abbrev pub write_text : List ℕ → Screen → Screen
write_text [] s = s
write_text (c ∷ cs) s = write_text cs (show_char (c % 2 ^ 8) s)

abbrev pub move_to : (addr : ℕ) → Screen → Screen
move_to a s = record s { addr = a }

Displays-write :
    (c : ℕ) (l : Lcd) (b : Buffer) (s : Screen)
    → Displays l b s
    → Displays (lcd_write c l) b (show_char (c % 2 ^ 8) s)
unfolding lcd_write
Displays-write c l b s (r, o, n, e, f) =
    let (r', g) = lcd_write-Shows l c r in (r', o, n, e, g ∙ ap (show_char (c % 2 ^ 8)) f)

Displays-command :
    (c : ℕ) (l : Lcd) (b : Buffer) (s : Screen)
    → Displays l b s
    → Displays (lcd_command c l) b (obey (c % 2 ^ 8) s)
unfolding lcd_command
Displays-command c l b s (r, o, n, e, f) =
    let (r', g) = lcd_command-Shows l c r in (r', o, n, e, g ∙ ap (obey (c % 2 ^ 8)) f)

pub Displays-write_all :
    (cs : List ℕ) (l : Lcd) (b : Buffer) (s : Screen)
    → Displays l b s
    → Displays (write_all cs l) b (write_text cs s)
Displays-write_all [] l b s d = d
Displays-write_all (c ∷ cs) l b s d =
    Displays-write_all cs (lcd_write c l) b (show_char (c % 2 ^ 8) s) (Displays-write c l b s d)

-- The command that `lcd_set_cursor` sends for column 0 of a row.
abbrev pub cursor_command : (row : ℕ) → ℕ
cursor_command row = bit_or 128 (0 + get_or offsets (clip_row 4 row) 0)

pub Displays-cursor :
    (row a : ℕ) (l : Lcd) (b : Buffer) (s : Screen)
    → obey (cursor_command row % 2 ^ 8) s ≡ move_to a s
    → Displays l b s
    → Displays (lcd_set_cursor 0 row l) b (move_to a s)
unfolding lcd_set_cursor
Displays-cursor row a l b s h (r, o, n, e, f) =
    subst (λ c. Displays (lcd_command c l) b (move_to a s))
      (sym (ap₂ (λ os n. bit_or 128 (0 + get_or os (clip_row n row) 0)) o n))
      (subst (Displays (lcd_command (cursor_command row) l) b) h
        (Displays-command (cursor_command row) l b s (r, o, n, e, f)))

Displays-delay :
    (m : ℕ) (l : Lcd) (b : Buffer) (s : Screen)
    → Displays l b s
    → Displays (log (delay_millis m ∷ []) l) b s
Displays-delay m l b s ((w, idle), o, n, e, f) =
    let same = sym (listen-append l.acts (delay_millis m ∷ []) power_on) in
    ((w, subst IsIdle same idle), o, n, e, subst (λ c. c.screen ≡ s) same f)

pub Displays-clear :
    (l : Lcd) (b : Buffer) (s : Screen) → Displays l b s → Displays (lcd_clear l) b blank
unfolding lcd_clear
Displays-clear l b s d = Displays-delay 2 (lcd_command 1 l) b blank (Displays-command 1 l b s d)

abbrev pub draw : (row i : ℕ) → Lcd → Lcd
draw row i l = write_all (line_at l.buf i) (lcd_set_cursor 0 row l)

pub Displays-draw :
    (row a i : ℕ) (l : Lcd) (b : Buffer) (s : Screen)
    → ((s : Screen) → obey (cursor_command row % 2 ^ 8) s ≡ move_to a s)
    → Displays l b s
    → Displays (draw row i l) b (write_text (line_at b i) (move_to a s))
Displays-draw row a i l b s h (r, o, n, e, f) =
    subst
      (λ c.
        Displays (write_all (line_at c i) (lcd_set_cursor 0 row l)) b
          (write_text (line_at b i) (move_to a s)))
      (sym e)
      (Displays-write_all (line_at b i) (lcd_set_cursor 0 row l) b (move_to a s)
        (Displays-cursor row a l b s (h s) (r, o, n, e, f)))

-- What stands at an address behind a text: the text's character, or what stood there.
pub write_text-before :
    (cs : List ℕ) (s : Screen) (a : ℕ) → a < s.addr → (write_text cs s).cells a ≡ s.cells a
write_text-before [] s a h = refl
write_text-before (c ∷ cs) s a h =
    write_text-before cs (show_char (c % 2 ^ 8) s) a (omega arith) ∙ ground arith

pub write_text-behind :
    (cs : List ℕ) (s : Screen) (a : ℕ)
    → s.addr + length cs ≤ a
    → (write_text cs s).cells a ≡ s.cells a
write_text-behind [] s a h = refl
write_text-behind (c ∷ cs) s a h =
    write_text-behind cs (show_char (c % 2 ^ 8) s) a (omega arith) ∙ ground arith

pub write_text-cells :
    (cs : List ℕ) (s : Screen) (j : ℕ)
    → j < length cs
    → (write_text cs s).cells (s.addr + j) ≡ get_or cs j 0 % 2 ^ 8
write_text-cells [] s j h = elim h [ ]
write_text-cells (c ∷ cs) s zero h =
    write_text-before cs (show_char (c % 2 ^ 8) s) (s.addr + 0) (omega arith) ∙ ground arith
write_text-cells (c ∷ cs) s (suc j) h =
    ap (write_text cs (show_char (c % 2 ^ 8) s)).cells (omega arith)
    ∙ write_text-cells cs (show_char (c % 2 ^ 8) s) j (omega arith)
