-- ===== src/Errno.antt =====
-- include/errno.h: the error numbers that the modelled code returns.
use riscv_hobby_os.Base.{ℕ}

abbrev pub enoent : ℕ
enoent = 2

abbrev pub esrch : ℕ
esrch = 3

abbrev pub ebadf : ℕ
ebadf = 9

abbrev pub enomem : ℕ
enomem = 12

abbrev pub efault : ℕ
efault = 14

abbrev pub ebusy : ℕ
ebusy = 16

abbrev pub einval : ℕ
einval = 22

abbrev pub enfile : ℕ
enfile = 23

abbrev pub emfile : ℕ
emfile = 24

abbrev pub epipe : ℕ
epipe = 32

abbrev pub enosys : ℕ
enosys = 38

abbrev pub ebadfd : ℕ
ebadfd = 77

abbrev pub enobufs : ℕ
enobufs = 105
