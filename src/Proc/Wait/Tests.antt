-- ===== src/Proc/Wait/Tests.antt =====
-- Sleeping and waiting at a concrete kernel: process 0 runs, and has slept until 90 before.
use riscv_hobby_os.Base.{
  ℕ, zero, suc, ◌+◌, ◌*◌, ◌/◌, ◌≤◌, ◌≡◌, ◌≢◌, ◌↔◌, refl, true, none, some, [], ◌∷◌, done, arith,
}
use riscv_hobby_os.Kernel.{running, sleeping, Kernel, no_proc, proc_at}
use riscv_hobby_os.Kernel.Examples.{some_kernel}
use riscv_hobby_os.Proc.Sched.{switches}
use riscv_hobby_os.Proc.Sched.Laws.{runnable}
use riscv_hobby_os.Proc.Wait.{proc_wait, proc_sleep}
use riscv_hobby_os.Proc.Wait.Sleep.{proc_sleep-runnable, proc_wait-stale}

abbrev family : Kernel
family = record some_kernel {
  procs =
      record no_proc { state = running; pid = 4; wakeup_time = 90 }
      ∷ record no_proc { state = sleeping; pid = 5; parent = some 0 }
      ∷ [];
}

none_locked : (i : ℕ) → (proc_at family i).lock ≡ 0
none_locked zero = refl
none_locked (suc zero) = refl
none_locked (suc (suc i)) = refl

proc_sleep-runnable_example :
    (k' : Kernel) × (proc_sleep 10000 100 7 family ≡ done switches k')
    × ((later : ℕ) → (runnable later (proc_at k' 0) ≡ true) ↔ (100 + 10000 / 1000 * 7 ≤ later))
    × ((j : ℕ) → 0 ≢ j → proc_at k' j ≡ proc_at family j)
proc_sleep-runnable_example =
    proc_sleep-runnable 10000 100 7 0 family refl (omega arith) (omega arith) (omega arith)

proc_wait-stale_example :
    (k' : Kernel) × (proc_wait none family ≡ done switches k')
    × (runnable 100 (proc_at k' 0) ≡ true)
proc_wait-stale_example =
    proc_wait-stale 100 0 family refl (omega arith) (λ j _. none_locked j) refl (omega arith)
      (omega arith)
