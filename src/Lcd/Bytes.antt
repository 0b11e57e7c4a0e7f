-- ===== src/Lcd/Bytes.antt =====
-- A byte that the driver sends reaches the display.
use riscv_hobby_os.Base.{
  ℕ, ◌+◌, ◌*◌, ◌/◌, ◌%◌, ◌^◌, ◌<◌, ◌≡◌, refl, ◌∙◌, ap, subst, sym, none, List, [], ◌∷◌, ◌++◌, arith,
}
use riscv_hobby_os.Lcd.{Act, drive, Lcd, drive_data, pulse, send_byte, lcd_write, lcd_command}
use riscv_hobby_os.Lcd.Controller.{
  Screen, Controller, listen, set_level, power_on, latch_on, take_byte, show_char, obey,
  enable_line, rs_line, four_bits,
}

-- The display as it is behind the log.
abbrev pub shown : Lcd → Controller
shown l = listen l.acts power_on

abbrev pub WiredPins : Lcd → Type 0
WiredPins l = l.rs_pin ≡ 2 × l.enable_pin ≡ 3 × l.data_pins ≡ 20 ∷ 21 ∷ 22 ∷ 23 ∷ []

-- The display waits for the upper nibble of a byte.
abbrev pub IsIdle : Controller → Type 0
IsIdle c = c.levels enable_line ≡ 0 × c.bus ≡ four_bits none

abbrev four : (value : ℕ) → List Act
four value = drive_data (20 ∷ 21 ∷ 22 ∷ 23 ∷ []) value ++ pulse 3

abbrev byte_acts : (rs value : ℕ) → List Act
byte_acts rs value = drive 2 rs ∷ four (value / 16) ++ four value

pub listen-append :
    (xs ys : List Act) (c : Controller) → listen (xs ++ ys) c ≡ listen ys (listen xs c)
listen-append [] ys c = refl
listen-append (x ∷ xs) ys c = listen-append xs ys _

bits : (v : ℕ) → v % 2 + 2 * (v / 2 % 2) + 4 * (v / 2 / 2 % 2) + 8 * (v / 2 / 2 / 2 % 2) ≡ v % 16
bits v = omega arith

-- One nibble is latched.
abbrev Latched : (rs value : ℕ) → (c c' : Controller) → Type 0
Latched rs value c c' =
    c'.levels enable_line ≡ 0
    × c'.levels rs_line ≡ rs
    × (c'.bus, c'.screen) ≡ latch_on c.bus rs (value % 16) c.screen

four-Latched :
    (c : Controller) (value : ℕ)
    → c.levels 3 ≡ 0
    → Latched (c.levels 2) value c (listen (four value) c)
four-Latched c value e =
    (refl, rw e refl, rw e (ap (λ n. latch_on c.bus (c.levels 2) n c.screen) (bits value)))

two_nibbles :
    (c c' c'' : Controller) (rs upper lower : ℕ)
    → c.bus ≡ four_bits none
    → Latched rs upper c c'
    → Latched rs lower c' c''
    → IsIdle c'' × c''.screen ≡ take_byte rs (upper % 16 * 16 + lower % 16) c.screen
two_nibbles c c' c'' rs upper lower b (e, r, l) (e', r', l') =
    let first = l ∙ ap (λ bus. latch_on bus rs (upper % 16) c.screen) b in
    let both = l' ∙ ap (λ p. latch_on p.0 rs (lower % 16) p.1) first in
    ((e', ap (λ p. p.0) both), ap (λ p. p.1) both)

-- Both nibbles, with RS driven first.
hears_byte :
    (c : Controller) (rs value : ℕ)
    → IsIdle c
    → value < 2 ^ 8
    → IsIdle (listen (byte_acts rs value) c)
      × (listen (byte_acts rs value) c).screen ≡ take_byte rs value c.screen
hears_byte c rs value (e, b) h =
    let c1 = set_level 2 rs c in
    let c2 = listen (four (value / 16)) c1 in
    let c3 = listen (four value) c2 in
    let (e2, r2, l2) = four-Latched c1 (value / 16) e in
    let second = subst (λ rs. Latched rs value c2 c3) r2 (four-Latched c2 value e2) in
    let (idle, screen) = two_nibbles c1 c2 c3 rs (value / 16) value b (e2, r2, l2) second in
    (idle, screen ∙ ap (λ v. take_byte rs v c.screen) (whole value h))
  where
    whole : (v : ℕ) → v < 2 ^ 8 → v / 16 % 16 * 16 + v % 16 ≡ v
    whole v h = omega arith

heard :
    (l : Lcd) (rs value : ℕ)
    → WiredPins l
    → shown (send_byte rs value l) ≡ listen (byte_acts rs value) (shown l)
heard l rs value (r, e, d) = rw r (
    rw e (
      rw d (
        listen-append (l.acts ++ drive 2 rs ∷ [] ++ four (value / 16)) (four value) power_on
        ∙ ap (listen (four value)) (
            listen-append (l.acts ++ drive 2 rs ∷ []) (four (value / 16)) power_on
            ∙ ap (listen (four (value / 16))) (listen-append l.acts (drive 2 rs ∷ []) power_on)))))

-- The driver and the display are connected, and the display waits for a byte.
abbrev pub Ready : Lcd → Type 0
Ready l = WiredPins l × IsIdle (shown l)

-- What a driver's function does to the text on the display.
abbrev pub Shows : (l l' : Lcd) → (Screen → Screen) → Type 0
Shows l l' f = Ready l' × (shown l').screen ≡ f (shown l).screen

send_byte-Shows :
    (l : Lcd) (rs value : ℕ)
    → Ready l
    → Shows l (send_byte rs (value % 2 ^ 8) l) (take_byte rs (value % 2 ^ 8))
send_byte-Shows l rs value (wired, idle) =
    let (idle', screen) = hears_byte (shown l) rs (value % 2 ^ 8) idle (omega arith) in
    let same = sym (heard l rs (value % 2 ^ 8) wired) in
    ((wired, subst IsIdle same idle'), ap (λ c. c.screen) (sym same) ∙ screen)

-- On a display that waits for a byte, `lcd_write` puts one character behind the last, and the
-- display waits for a byte again.
pub lcd_write-Shows : (l : Lcd) (c : ℕ) → Ready l → Shows l (lcd_write c l) (show_char (c % 2 ^ 8))
unfolding lcd_write
lcd_write-Shows l c h = send_byte-Shows l 1 c h

-- `lcd_command` gives the display one command.
pub lcd_command-Shows : (l : Lcd) (c : ℕ) → Ready l → Shows l (lcd_command c l) (obey (c % 2 ^ 8))
unfolding lcd_command
lcd_command-Shows l c h = send_byte-Shows l 0 c h
