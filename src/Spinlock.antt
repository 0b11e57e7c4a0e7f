-- ===== src/Spinlock.antt =====
-- src/spinlock.c: the lock word. One hart runs the kernel (`kinit` parks the others) with its
-- interrupts off, so an `acquire` that finds the lock held spins for ever: it is a fault.
use riscv_hobby_os.Base.{ℕ, M, done, fault, deadlock, ◌==◌, if◌then◌else◌}

-- `__sync_lock_test_and_set(lock, 1)`: the old word, and the new one.
abbrev pub test_and_set : ℕ → ℕ × ℕ
test_and_set lock = (lock, 1)

-- The loop's test reads what the exchange returned; a lock that is held stays held.
abbrev pub acquire : M ℕ (Unit {0})
acquire lock =
    let (old, new) = test_and_set lock in if old == 0 then done tt new else fault deadlock

abbrev pub release : M ℕ (Unit {0})
release lock = done tt 0
