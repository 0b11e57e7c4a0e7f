-- ===== src/Lcd/Init.antt =====
-- What `lcd_init` leaves behind.
use riscv_hobby_os.Base.{ℕ, zero, suc, replicate, false, ◌<◌, ◌≡◌, refl, [], arith, length}
use riscv_hobby_os.Lcd.{
  Lcd, lcd_init, blank_line, lcd_init_buffer, lcd_begin, lcd_display, lcd_cursor, lcd_clear,
  lcd_command,
}
use riscv_hobby_os.Lcd.Print.{line_at}
use riscv_hobby_os.Lcd.Controller.{Screen, Controller, blank, power_on, listen}
use riscv_hobby_os.Lcd.Bytes.{IsIdle}
use riscv_hobby_os.Lcd.Terminal.{IsBuffer}
use riscv_hobby_os.Lcd.Redraw.{IsSetUp}

init-rows : (i : ℕ) → i < 4 → length (line_at lcd_init_buffer i) ≡ 20
init-rows zero h = refl
init-rows (suc zero) h = refl
init-rows (suc (suc zero)) h = refl
init-rows (suc (suc (suc zero))) h = refl
init-rows (suc (suc (suc (suc i)))) h = absurd (omega arith)

init-blank : (i : ℕ) → i < 4 → line_at lcd_init_buffer i ≡ blank_line
init-blank zero h = refl
init-blank (suc zero) h = refl
init-blank (suc (suc zero)) h = refl
init-blank (suc (suc (suc zero))) h = refl
init-blank (suc (suc (suc (suc i)))) h = absurd (omega arith)

init-IsBuffer : IsBuffer lcd_init_buffer
init-IsBuffer = (refl, init-rows, omega arith, omega arith, λ f i h h'. init-blank i h')

-- The display that has just been powered on, but with any text on it.
abbrev pub with_text : Screen → Controller
with_text s = record power_on { screen = s }

-- From a display in the mode of its power-on, whatever text it shows and whatever the driver's variables held,
-- `lcd_init` brings the display to 4-bit transfers and waiting for a byte, with nothing but spaces on it and its cursor
-- at the first place, and the rows' offsets to the display's four rows. The buffer is four lines of twenty spaces, its
-- cursor is at the start, and it does not count as full.
pub lcd_init-IsSetUp :
    (l : Lcd) (s : Screen)
    → l.acts ≡ []
    → IsSetUp (lcd_init l)
      × (listen (lcd_init l).acts (with_text s)).screen ≡ blank
      × IsIdle (listen (lcd_init l).acts (with_text s))
      × (lcd_init l).buf.lines ≡ replicate 4 (replicate 20 b' ')
      × (lcd_init l).buf.curr_line ≡ 0
      × (lcd_init l).buf.pos ≡ 0
      × (lcd_init l).buf.screen_is_full ≡ false
unfolding lcd_init lcd_begin lcd_display lcd_cursor lcd_clear lcd_command
lcd_init-IsSetUp l s e = rw e (
  (((refl, refl, refl), (refl, refl)), refl, refl, init-IsBuffer),
  refl,
  (refl, refl),
  refl,
  refl,
  refl,
  refl,
)
