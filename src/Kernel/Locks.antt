-- ===== src/Kernel/Locks.antt =====
-- Taking a lock that is free, and giving it back.
use riscv_hobby_os.Base.{ℕ, ◌≡◌, ap, done, Run, arith, fault}
use riscv_hobby_os.Spinlock
use riscv_hobby_os.Kernel.{
  Kernel, proc_at, set_proc, with_proc, with_table, with_ftable, with_pipes, acquire, with_pipe,
  pipe_at, set_pipe,
}

pub acquire-free : (l : ℕ) → l ≡ 0 → Spinlock.acquire l ≡ done tt 1
acquire-free l h = ground arith

abbrev put_table : Kernel → Run ℕ (Unit {0}) → Run Kernel (Unit {0})
put_table k (done a l) = done a (record k { table_lock = l })
put_table k (fault f) = fault f

abbrev pub put_proc : ℕ → Kernel → Run ℕ (Unit {0}) → Run Kernel (Unit {0})
put_proc i k (done a l) = done a (set_proc i (record (proc_at k i) { lock = l }) k)
put_proc i k (fault f) = fault f

pub lock_table :
    (k : Kernel) → k.table_lock ≡ 0 → with_table acquire k ≡ done tt (record k { table_lock = 1 })
lock_table k h = ap (put_table k) (acquire-free k.table_lock h)

pub lock_proc :
    (i : ℕ) (k : Kernel)
    → (proc_at k i).lock ≡ 0
    → with_proc i acquire k ≡ done tt (set_proc i (record (proc_at k i) { lock = 1 }) k)
lock_proc i k h = ap (put_proc i k) (acquire-free (proc_at k i).lock h)

abbrev put_ftable : Kernel → Run ℕ (Unit {0}) → Run Kernel (Unit {0})
put_ftable k (done a l) = done a (record k { ftable_lock = l })
put_ftable k (fault f) = fault f

pub lock_ftable :
    (k : Kernel)
    → k.ftable_lock ≡ 0
    → with_ftable acquire k ≡ done tt (record k { ftable_lock = 1 })
lock_ftable k h = ap (put_ftable k) (acquire-free k.ftable_lock h)

abbrev put_pipes : Kernel → Run ℕ (Unit {0}) → Run Kernel (Unit {0})
put_pipes k (done a l) = done a (record k { pipes_lock = l })
put_pipes k (fault f) = fault f

pub lock_pipes :
    (k : Kernel) → k.pipes_lock ≡ 0 → with_pipes acquire k ≡ done tt (record k { pipes_lock = 1 })
lock_pipes k h = ap (put_pipes k) (acquire-free k.pipes_lock h)

abbrev put_pipe : ℕ → Kernel → Run ℕ (Unit {0}) → Run Kernel (Unit {0})
put_pipe i k (done a l) = done a (set_pipe i (record (pipe_at k i) { lock = l }) k)
put_pipe i k (fault f) = fault f

pub lock_pipe :
    (i : ℕ) (k : Kernel)
    → (pipe_at k i).lock ≡ 0
    → with_pipe i acquire k ≡ done tt (set_pipe i (record (pipe_at k i) { lock = 1 }) k)
lock_pipe i k h = ap (put_pipe i k) (acquire-free (pipe_at k i).lock h)
