-- ===== src/Gpio/Reserved.antt =====
-- The calls of `gpio_do_syscall` that fail.
use riscv_hobby_os.Base.{ℕ, ◌≡◌, true, arith, is_negative, ◌==◌, ◌||◌}
use riscv_hobby_os.Gpio.{Gpio, pin_0, pin_1, pin_12, pin_16, gpio_do_syscall}

-- A call that returns an error has changed no register.
failed-unchanged :
    (pin_num enable_disable value : ℕ) (g : Gpio)
    → is_negative (gpio_do_syscall pin_num enable_disable value g).0 ≡ true
    → (gpio_do_syscall pin_num enable_disable value g).1 ≡ g
unfolding gpio_do_syscall
failed-unchanged pin_num enable_disable value g h = ground (arith, h)

-- On the pins that are taken or do not work every call fails.
reserved-failed :
    (pin_num enable_disable value : ℕ) (g : Gpio)
    → (pin_num == pin_0 || (pin_num == pin_1 || (pin_num == pin_12 || pin_num == pin_16))) ≡ true
    → is_negative (gpio_do_syscall pin_num enable_disable value g).0 ≡ true
unfolding gpio_do_syscall
reserved-failed pin_num enable_disable value g h = ground (arith, h)
