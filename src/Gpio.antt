-- ===== src/Gpio.antt =====
-- src/gpio.c: the pins' registers and the system call on a pin. The registers are memory that the code
-- only reads and writes. A shift by a pin's number takes its low five bits, as the machine does; C
-- leaves a shift by 32 or more open.
pub mod Reserved
use Prim.Native.Nat.{bit_and, bit_or, bit_xor}
use riscv_hobby_os.Base.{ℕ, ◌+◌, ◌-◌, ◌%◌, ◌^◌, Bool, not, ◌||◌, ◌==◌, if◌then◌else◌, ℤ, pos, minus}

pub record Gpio : Type 0 where
  pub out_en : ℕ
  pub out_val : ℕ
  pub iof_en : ℕ

abbrev pub pin_0 : ℕ
pin_0 = 16

abbrev pub pin_1 : ℕ
pin_1 = 17

abbrev pub pin_12 : ℕ
pin_12 = 4

abbrev pub pin_16 : ℕ
pin_16 = 10

-- `1 << pin`
abbrev pub pin_bit : ℕ → ℕ
pin_bit pin = 2 ^ (pin % 32)

abbrev pub set_bit : (pin reg : ℕ) → ℕ
set_bit pin reg = bit_or reg (pin_bit pin)

-- `reg & ~(1 << pin)`
abbrev pub clear_bit : (pin reg : ℕ) → ℕ
clear_bit pin reg = bit_and reg (2 ^ 32 - 1 - pin_bit pin)

pub gpio_enable_pin_out : (pin : ℕ) → Gpio → Gpio
gpio_enable_pin_out pin g = record g {
  out_en = set_bit pin g.out_en;
  iof_en = clear_bit pin g.iof_en;
}

pub gpio_disable_pin_out : (pin : ℕ) → Gpio → Gpio
gpio_disable_pin_out pin g = record g {
  out_en = clear_bit pin g.out_en;
  iof_en = set_bit pin g.iof_en;
}

pub gpio_set_pin : (pin value : ℕ) → Gpio → Gpio
gpio_set_pin pin value g = record g {
  out_val = if value == 0 then clear_bit pin g.out_val else set_bit pin g.out_val;
}

pub gpio_toggle_pin : (pin : ℕ) → Gpio → Gpio
gpio_toggle_pin pin g = record g { out_val = bit_xor g.out_val (pin_bit pin) }

-- The case -1 of `enable_disable`.
abbrev pub gpio_value : (pin value : ℕ) → Gpio → ℤ × Gpio
gpio_value pin value g =
    if value == 0 || value == 1
    then (pos 0, gpio_set_pin pin value g)
    else if value == 2
    then (pos 0, gpio_toggle_pin pin g)
    else (minus 4, g)

abbrev pub gpio_switch : (pin enable_disable value : ℕ) → Gpio → ℤ × Gpio
gpio_switch pin enable_disable value g =
    if enable_disable == 0
    then (pos 0, gpio_disable_pin_out pin g)
    else if enable_disable == 1
    then (pos 0, gpio_enable_pin_out pin g)
    else if enable_disable == 2 ^ 32 - 1
    then gpio_value pin value g
    else (minus 5, g)

pub gpio_do_syscall : (pin_num enable_disable value : ℕ) → Gpio → ℤ × Gpio
gpio_do_syscall pin_num enable_disable value g =
    if pin_num == pin_0 || pin_num == pin_1
    then (minus 1, g)
    else if pin_num == pin_12
    then (minus 2, g)
    else if pin_num == pin_16
    then (minus 3, g)
    else gpio_switch pin_num enable_disable value g
