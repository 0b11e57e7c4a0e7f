-- ===== src/Lcd/Tests.antt =====
-- The driver behind `lcd_init`, from variables that are 0.
use riscv_hobby_os.Base.{ℕ, replicate, ◌≡◌, refl, true, false, List, [], ◌∷◌, ltb}
use riscv_hobby_os.Lcd.{Lcd, lcd_init, lcd_begin, lcd_display, lcd_cursor, lcd_clear, lcd_command}
use riscv_hobby_os.Lcd.Print.{newline, printn_to_buf, lcd_printn}
use riscv_hobby_os.Lcd.Controller.{Screen, blank, listen}
use riscv_hobby_os.Lcd.Bytes.{IsIdle, shown}
use riscv_hobby_os.Lcd.Terminal.{IsBuffer, terminal, type_text, printn_to_buf-terminal}
use riscv_hobby_os.Lcd.Redraw.{IsSetUp, ShowsTerminal, lcd_printn-ShowsTerminal}
use riscv_hobby_os.Lcd.Init.{with_text, lcd_init-IsSetUp}

abbrev zeros : Lcd
zeros = record {
  rs_pin = 0;
  enable_pin = 0;
  data_pins = [];
  display_function = 0;
  display_control = 0;
  display_mode = 0;
  num_lines = 0;
  row_offsets = [];
  buf = record { lines = []; curr_line = 0; pos = 0; screen_is_full = false };
  last_cursor_row = 0;
  last_cursor_col = 0;
  acts = [];
}

-- A display that is full of old characters.
abbrev old_text : Screen
old_text = record { cells = λ a. 120; addr = 5 }

lcd_init-IsSetUp_example :
    IsSetUp (lcd_init zeros)
    × (listen (lcd_init zeros).acts (with_text old_text)).screen ≡ blank
    × IsIdle (listen (lcd_init zeros).acts (with_text old_text))
    × (lcd_init zeros).buf.lines ≡ replicate 4 (replicate 20 b' ')
    × (lcd_init zeros).buf.curr_line ≡ 0
    × (lcd_init zeros).buf.pos ≡ 0
    × (lcd_init zeros).buf.screen_is_full ≡ false
lcd_init-IsSetUp_example = lcd_init-IsSetUp zeros old_text refl

abbrev some_lines : List ℕ
some_lines = 97 ∷ newline ∷ 98 ∷ newline ∷ 99 ∷ newline ∷ 100 ∷ newline ∷ 101 ∷ newline ∷ 102 ∷ []

IsSetUp-test : IsSetUp (lcd_init zeros)
IsSetUp-test = (lcd_init-IsSetUp zeros old_text refl).0

full_test : ((printn_to_buf some_lines (lcd_init zeros).buf).1).screen_is_full ≡ true
unfolding printn_to_buf lcd_init lcd_begin lcd_display lcd_cursor lcd_clear lcd_command
full_test = refl

scrolls_test : ltb 0 (type_text some_lines (terminal (lcd_init zeros).buf)).0 ≡ true
unfolding lcd_init lcd_begin lcd_display lcd_cursor lcd_clear lcd_command
scrolls_test = refl

lcd_printn-ShowsTerminal_example :
    IsSetUp (lcd_printn some_lines (lcd_init zeros))
    × ShowsTerminal
        (shown (lcd_printn some_lines (lcd_init zeros))).screen
        (type_text some_lines (terminal (lcd_init zeros).buf)).1
lcd_printn-ShowsTerminal_example =
    lcd_printn-ShowsTerminal some_lines (lcd_init zeros) IsSetUp-test full_test scrolls_test

IsBuffer-test : IsBuffer (lcd_init zeros).buf
IsBuffer-test = let (r, o, n, q) = IsSetUp-test in q

printn_to_buf-terminal_example :
    IsBuffer ((printn_to_buf some_lines (lcd_init zeros).buf).1)
    × (
      (printn_to_buf some_lines (lcd_init zeros).buf).0,
      terminal ((printn_to_buf some_lines (lcd_init zeros).buf).1),
    )
      ≡ type_text some_lines (terminal (lcd_init zeros).buf)
printn_to_buf-terminal_example =
    printn_to_buf-terminal some_lines (lcd_init zeros).buf IsBuffer-test
