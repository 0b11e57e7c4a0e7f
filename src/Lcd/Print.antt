-- ===== src/Lcd/Print.antt =====
-- The LCD's text buffer, and printing.
use riscv_hobby_os.Base.{
  ℕ, zero, suc, ◌+◌, ◌-◌, ◌%◌, ◌^◌, Bool, true, ◌&&◌, ◌||◌, List, [], ◌∷◌, ◌==◌, ltb, if◌then◌else◌,
  get_or, set, take,
}
use riscv_hobby_os.Lcd.{
  Buffer, Lcd, num_rows, num_cols, blank_line, lcd_write, lcd_clear, lcd_set_cursor,
}

abbrev pub write_all : List ℕ → Lcd → Lcd
write_all [] l = l
write_all (c ∷ cs) l = write_all cs (lcd_write c l)

-- A string without its final zero.
pub lcd_print : (str : List ℕ) → Lcd → Lcd
lcd_print = write_all

abbrev pub line_at : Buffer → ℕ → List ℕ
line_at b i = get_or b.lines i []

abbrev pub clear_line_if_full : Buffer → Buffer
clear_line_if_full b =
    if b.screen_is_full then record b { lines = set b.lines b.curr_line blank_line } else b

-- `b->curr_line++; b->pos = 0;`
abbrev pub next_line : Buffer → Buffer
next_line b = record b { curr_line = (b.curr_line + 1) % 2 ^ 8; pos = 0 }

-- `b->lines[b->curr_line][b->pos] = c; b->pos++;`
abbrev pub put_char : (c : ℕ) → Buffer → Buffer
put_char c b = record b {
  lines = set b.lines b.curr_line (set (line_at b b.curr_line) b.pos c);
  pos = (b.pos + 1) % 2 ^ 8;
}

abbrev pub newline : ℕ
newline = 10

abbrev pub type_char : (c : ℕ) → Buffer → Buffer
type_char c b = if c == newline then next_line b else put_char c b

abbrev pub wrap_line : Buffer → Buffer
wrap_line b = if b.pos == num_cols then next_line b else b

abbrev pub wrap_screen : Buffer → Buffer
wrap_screen b =
    if b.curr_line == num_rows then record b { screen_is_full = true; curr_line = 0 } else b

-- Whether `curr_line_advanced` is set.
abbrev pub advances : (c : ℕ) → Buffer → Bool
advances c b = c == newline || (type_char c b).pos == num_cols

-- One round of the loop.
abbrev pub print_char : (c : ℕ) → Buffer → Buffer
print_char c b =
    let next = wrap_screen (wrap_line (type_char c b)) in
    if advances c b then clear_line_if_full next else next

-- The new buffer, and `lines_advanced`.
unfoldable pub printn_to_buf : (text : List ℕ) → Buffer → ℕ × Buffer
printn_to_buf [] b = (0, b)
printn_to_buf (c ∷ text) b =
    let (advanced, b') = printn_to_buf text (print_char c b) in
    ((if advances c b then advanced + 1 else advanced), b')

abbrev pub next_buf_line : ℕ → ℕ
next_buf_line i = if suc i == num_rows then 0 else suc i

-- The loop over the lines above the current one. It takes three rounds, fewer than `fuel`.
unfoldable pub redraw : (fuel lcd_line buf_line : ℕ) → Lcd → ℕ × Lcd
redraw zero lcd_line buf_line l = (lcd_line, l)
redraw (suc n) lcd_line buf_line l =
    if buf_line == l.buf.curr_line
    then (lcd_line, l)
    else redraw n (lcd_line + 1) (next_buf_line buf_line)
        (write_all (line_at l.buf buf_line) (lcd_set_cursor 0 lcd_line l))

-- The current line, up to `pos`: `last_cursor_col` counts what is written.
abbrev pub redraw_current : (lcd_line : ℕ) → Lcd → Lcd
redraw_current lcd_line l =
    let l = lcd_set_cursor 0 lcd_line l in
    let l = write_all (take l.buf.pos (line_at l.buf l.buf.curr_line)) l in
    record l { last_cursor_row = lcd_line; last_cursor_col = l.buf.pos }

unfoldable pub clear_screen_and_scroll_up : Lcd → Lcd
clear_screen_and_scroll_up l =
    let (lcd_line, l') = redraw num_rows 0 (next_buf_line l.buf.curr_line) (lcd_clear l) in
    redraw_current lcd_line l'

-- `lcd.last_cursor_row++; lcd.last_cursor_col = 0; lcd_set_cursor(...)`
abbrev pub cursor_down : Lcd → Lcd
cursor_down l =
    let row = (l.last_cursor_row + 1) % 2 ^ 8 in
    lcd_set_cursor 0 row (record l { last_cursor_row = row; last_cursor_col = 0 })

abbrev pub echo_char : (c : ℕ) → Lcd → Lcd
echo_char c l =
    if c == newline
    then cursor_down l
    else (let col = (l.last_cursor_col + 1) % 2 ^ 8 in
        let written = record (lcd_write c l) { last_cursor_col = col } in
        if col == num_cols then cursor_down written else written)

pub echo : List ℕ → Lcd → Lcd
echo [] l = l
echo (c ∷ text) l = echo text (echo_char c l)

unfoldable pub lcd_printn : (text : List ℕ) → Lcd → Lcd
lcd_printn text l =
    let (lines_advanced, b) = printn_to_buf text l.buf in
    let printed = record l { buf = b } in
    if b.screen_is_full && ltb 0 lines_advanced
    then clear_screen_and_scroll_up printed
    else echo text printed

-- The column is unsigned, so the test on `last_cursor_col < 0` never holds.
pub lcd_backspace : Lcd → Lcd
lcd_backspace l =
    let col = (l.last_cursor_col + 2 ^ 8 - 1) % 2 ^ 8 in
    let moved = lcd_set_cursor col l.last_cursor_row (record l { last_cursor_col = col }) in
    lcd_set_cursor col l.last_cursor_row (lcd_write 32 moved)
