-- ===== src/Lcd/Controller.antt =====
-- The display at the other end of the pins: what an HD44780 shows after the acts of the log. It is a
-- description of the device, not of the driver.
use riscv_hobby_os.Base.{
  ℕ, ◌+◌, ◌-◌, ◌*◌, Bool, false, Option, none, some, List, [], ◌∷◌, ◌==◌, leb, if◌then◌else◌,
}
use riscv_hobby_os.Lcd.{Act, drive, enable_out, delay_tiny, delay_millis}

-- The characters by their address, and the address of the next one.
pub record Screen : Type 0 where
  pub cells : ℕ → ℕ
  pub addr : ℕ

abbrev pub blank : Screen
blank = record { cells = λ a. 32; addr = 0 }

abbrev pub show_char : ℕ → Screen → Screen
show_char c s = record { cells = λ a. if a == s.addr then c else s.cells a; addr = s.addr + 1 }

-- Addressing, clearing and going home; the other commands leave the screen's text as it is.
abbrev pub obey : (command : ℕ) → Screen → Screen
obey command s =
    if leb 128 command
    then record s { addr = command - 128 }
    else if command == 1
    then blank
    else if command == 2
    then record s { addr = 0 }
    else s

abbrev pub take_byte : (rs byte : ℕ) → Screen → Screen
take_byte rs byte s = if rs == 0 then obey byte s else show_char byte s

-- How many data lines are used, and in 4-bit mode the upper nibble that waits for the lower one.
pub data Bus : Type 0 where
  eight_bits : Bus
  four_bits : (upper : Option ℕ) → Bus

pub record Controller : Type 0 where
  pub levels : ℕ → ℕ
  pub bus : Bus
  pub screen : Screen

-- The pins of RS and of the enable line, and the four data lines' from the lowest bit up.
abbrev pub rs_line : ℕ
rs_line = 2

abbrev pub enable_line : ℕ
enable_line = 3

abbrev pub nibble : (ℕ → ℕ) → ℕ
nibble levels = levels 20 + 2 * levels 21 + 4 * levels 22 + 8 * levels 23

-- In 8-bit mode the lower four lines are not connected: 2 is the command for 4-bit mode.
abbrev pub latch_on : (bus : Bus) → (rs nibble : ℕ) → Screen → Bus × Screen
latch_on eight_bits rs n s = ((if n == 2 then four_bits none else eight_bits), s)
latch_on (four_bits none) rs n s = (four_bits (some n), s)
latch_on (four_bits (some upper)) rs n s = (four_bits none, take_byte rs (upper * 16 + n) s)

abbrev pub latch : Controller → Controller
latch c =
    let (bus, screen) = latch_on c.bus (c.levels rs_line) (nibble c.levels) c.screen in
    record c { bus = bus; screen = screen }

abbrev pub set_level : (pin value : ℕ) → Controller → Controller
set_level pin value c = record c { levels = λ p. if p == pin then value else c.levels p }

-- The lines are read where the enable line falls.
abbrev pub falls : (pin value : ℕ) → Controller → Bool
falls pin value c =
    if pin == enable_line then (if value == 0 then c.levels pin == 1 else false) else false

abbrev pub sense : Act → Controller → Controller
sense (drive pin value) c = set_level pin value (if falls pin value c then latch c else c)
sense (enable_out pin) c = c
sense delay_tiny c = c
sense (delay_millis n) c = c

abbrev pub listen : List Act → Controller → Controller
listen [] c = c
listen (a ∷ acts) c = listen acts (sense a c)

abbrev pub power_on : Controller
power_on = record { levels = λ p. 0; bus = eight_bits; screen = blank }
