-- ===== src/Lcd.antt =====
-- src/drivers/hd44780/hd44780.c: the LCD's driver down to its pins. What the driver does to the outside is
-- a log of the calls of gpio.c and of the delays, the oldest first. The text buffer and the
-- printing are in `Print`.
pub mod Print
pub mod Controller
pub mod Bytes
pub mod Terminal
pub mod Scroll
pub mod Redraw
pub mod Init
mod Tests
use Prim.Native.Nat.{bit_and, bit_or}
use riscv_hobby_os.Base.{
  ℕ, zero, suc, ◌+◌, ◌-◌, ◌*◌, ◌/◌, ◌%◌, ◌^◌, Bool, true, false, List, [], ◌∷◌, ◌++◌, leb,
  if◌then◌else◌, get_or, replicate,
}

pub data Act : Type 0 where
  drive : (pin value : ℕ) → Act
  enable_out : (pin : ℕ) → Act
  delay_tiny : Act
  delay_millis : (milliseconds : ℕ) → Act

abbrev pub num_rows : ℕ
num_rows = 4

abbrev pub num_cols : ℕ
num_cols = 20

-- lcd_buffer_t: `lines` is `data` cut where the pointers `lines[i]` stand, which never move.
pub record Buffer : Type 0 where
  pub lines : List (List ℕ)
  pub curr_line : ℕ
  pub pos : ℕ
  pub screen_is_full : Bool

-- lcd_t, and the log
pub record Lcd : Type 0 where
  pub rs_pin : ℕ
  pub enable_pin : ℕ
  pub data_pins : List ℕ
  pub display_function : ℕ
  pub display_control : ℕ
  pub display_mode : ℕ
  pub num_lines : ℕ
  pub row_offsets : List ℕ
  pub buf : Buffer
  pub last_cursor_row : ℕ
  pub last_cursor_col : ℕ
  pub acts : List Act

abbrev pub log : List Act → Lcd → Lcd
log acts l = record l { acts = l.acts ++ acts }

abbrev pub drive_data : (pins : List ℕ) → (value : ℕ) → List Act
drive_data [] value = []
drive_data (pin ∷ pins) value = drive pin (value % 2) ∷ drive_data pins (value / 2)

abbrev pub pulse : (enable_pin : ℕ) → List Act
pulse pin = drive pin 0 ∷ delay_tiny ∷ drive pin 1 ∷ delay_tiny ∷ drive pin 0 ∷ delay_millis 1 ∷ []

-- The bit `i` of the value goes to the data pin `i`.
abbrev pub lcd_write_4bits : (value : ℕ) → Lcd → Lcd
lcd_write_4bits value l = log (drive_data l.data_pins value ++ pulse l.enable_pin) l

-- Both nibbles of a byte, the upper one first, with RS as given.
abbrev pub send_byte : (rs value : ℕ) → Lcd → Lcd
send_byte rs value l =
    lcd_write_4bits value (lcd_write_4bits (value / 2 ^ 4) (log (drive l.rs_pin rs ∷ []) l))

pub lcd_command : (value : ℕ) → Lcd → Lcd
lcd_command value l = send_byte 0 (value % 2 ^ 8) l

pub lcd_write : (value : ℕ) → Lcd → Lcd
lcd_write value l = send_byte 1 (value % 2 ^ 8) l

-- LCD_DISPLAYON, LCD_CURSORON and LCD_BLINKON are bits of `display_control`.
abbrev pub set_control : (control : ℕ) → Lcd → Lcd
set_control control l = lcd_command (bit_or 8 control) (record l { display_control = control })

-- `lcd.display_control |= bit`, and `&= ~bit`
abbrev pub switch_on : (bit : ℕ) → Lcd → Lcd
switch_on bit l = set_control (bit_or l.display_control bit) l

abbrev pub switch_off : (bit : ℕ) → Lcd → Lcd
switch_off bit l = set_control (bit_and l.display_control (2 ^ 8 - 1 - bit)) l

pub lcd_display : Lcd → Lcd
lcd_display = switch_on 4

pub lcd_no_display : Lcd → Lcd
lcd_no_display = switch_off 4

pub lcd_cursor : Lcd → Lcd
lcd_cursor = switch_on 2

pub lcd_no_cursor : Lcd → Lcd
lcd_no_cursor = switch_off 2

pub lcd_blink : Lcd → Lcd
lcd_blink = switch_on 1

pub lcd_no_blink : Lcd → Lcd
lcd_no_blink = switch_off 1

pub lcd_clear : Lcd → Lcd
lcd_clear l = log (delay_millis 2 ∷ []) (lcd_command 1 l)

pub lcd_home : Lcd → Lcd
lcd_home l = log (delay_millis 2 ∷ []) (lcd_command 2 l)

-- The two tests on `row`.
abbrev pub clip_row : (num_lines row : ℕ) → ℕ
clip_row num_lines row =
    let row = (if leb num_rows row then num_rows - 1 else row) in
    if leb num_lines row then num_lines - 1 else row

pub lcd_set_cursor : (col row : ℕ) → Lcd → Lcd
lcd_set_cursor col row l =
    lcd_command (bit_or 128 (col + get_or l.row_offsets (clip_row l.num_lines row) 0)) l

abbrev pub lcd_set_row_offsets : (row0 row1 row2 row3 : ℕ) → Lcd → Lcd
lcd_set_row_offsets row0 row1 row2 row3 l = record l {
  row_offsets = row0 % 2 ^ 8 ∷ row1 % 2 ^ 8 ∷ row2 % 2 ^ 8 ∷ row3 % 2 ^ 8 ∷ [];
}

-- Three tries with 3, then 2.
abbrev pub init_4_bit_mode : Lcd → Lcd
init_4_bit_mode l =
    let l = log (delay_millis 5 ∷ []) (lcd_write_4bits 3 l) in
    let l = log (delay_millis 5 ∷ []) (lcd_write_4bits 3 l) in
    let l = log (delay_millis 1 ∷ []) (lcd_write_4bits 3 l) in lcd_write_4bits 2 l

-- Up to `_init_4_bit_mode`.
abbrev pub wake : (cols : ℕ) → Lcd → Lcd
wake cols l =
    let l = record l { display_function = bit_or l.display_function 8; num_lines = 4 } in
    let l = lcd_set_row_offsets 0 64 cols (64 + cols) l in
    log
      (enable_out l.rs_pin
        ∷ enable_out l.enable_pin
        ∷ enable_out (get_or l.data_pins 0 0)
        ∷ enable_out (get_or l.data_pins 1 0)
        ∷ enable_out (get_or l.data_pins 2 0)
        ∷ enable_out (get_or l.data_pins 3 0)
        ∷ delay_millis 500
        ∷ drive l.rs_pin 0
        ∷ drive l.enable_pin 0
        ∷ [])
      l

pub lcd_begin : (cols : ℕ) → Lcd → Lcd
unfolding lcd_display lcd_cursor
lcd_begin cols l =
    let l = init_4_bit_mode (wake cols l) in
    let l = lcd_command (bit_or 32 l.display_function) l in
    let l = lcd_display (record l { display_control = 4 }) in
    let l = lcd_cursor (lcd_clear l) in
    let l = lcd_command (bit_or 4 2) (record l { display_mode = 2 }) in
    log (delay_millis 200 ∷ []) l

abbrev pub blank_line : List ℕ
blank_line = replicate num_cols 32

abbrev pub lcd_init_buffer : Buffer
lcd_init_buffer = record {
  lines = replicate num_rows blank_line;
  curr_line = 0;
  pos = 0;
  screen_is_full = false;
}

pub lcd_init : Lcd → Lcd
unfolding lcd_begin
lcd_init l = lcd_begin num_cols (record l {
  rs_pin = 2;
  enable_pin = 3;
  data_pins = 20 ∷ 21 ∷ 22 ∷ 23 ∷ [];
  display_function = 0;
  buf = lcd_init_buffer;
  last_cursor_row = 0;
  last_cursor_col = 0;
})
