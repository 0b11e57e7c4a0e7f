-- ===== src/Proc/Sched/Tests.antt =====
-- The scheduler at a concrete kernel: process 1 sleeps until 90.
use riscv_hobby_os.Base.{
  Run, fault, ◌∙◌, sym, ap, subst, List, length-set, get_or, set, ℕ, zero, suc, ◌<◌, ◌≢◌, ◌≡◌, ◌*◌,
  ◌+◌, refl, false, [], ◌∷◌, done, arith,
}
use riscv_hobby_os.Kernel.{Process, ready, sleeping, proc_at, Kernel, no_proc}
use riscv_hobby_os.Kernel.Examples.{some_kernel}
use riscv_hobby_os.Proc.Wake.{should_wake_up}
use riscv_hobby_os.Proc.Wake.Laws.{SleepersUnlocked}
use riscv_hobby_os.Proc.Sched.{returns, switches, schedule_slot, schedule_slot_back}
use riscv_hobby_os.Proc.Sched.Laws.{running_state, schedule_slot-dispatches}
use riscv_hobby_os.Proc.Sched.Loop.{
  start, State, Others, next_loop, Reach, starts, passes, parked, passed, ran,
}
use riscv_hobby_os.Proc.Sched.Visit.{both}
use riscv_hobby_os.Proc.Sched.Parks.{scheduler-parks}
use riscv_hobby_os.Proc.Sched.Fair.{Keeps, Free, RunsWithin, scheduler-runs_ready}

abbrev sleepy_kernel : Kernel
sleepy_kernel = record some_kernel {
  procs = no_proc ∷ record no_proc { state = sleeping; pid = 5; wakeup_time = 90 } ∷ [];
}

sleepy_test : SleepersUnlocked sleepy_kernel.procs
sleepy_test = ground arith

schedule_slot-dispatches_example :
    schedule_slot 100 1 sleepy_kernel ≡ done switches (running_state 1 sleepy_kernel)
schedule_slot-dispatches_example =
    schedule_slot-dispatches 100 1 sleepy_kernel (omega arith) refl refl (omega arith) sleepy_test

abbrev nobody : Others
nobody k k' = k' ≡ k

-- The loop over the two slots of `sleepy_kernel`, none of which can run at 50.
abbrev parking : State
parking = record { kernel = sleepy_kernel; loop = next_loop 2 false (next_loop 2 false start) }

sleepy_visit0 : schedule_slot 50 0 sleepy_kernel ≡ done (returns tt) sleepy_kernel
unfolding schedule_slot
sleepy_visit0 = refl

sleepy_visit1 : schedule_slot 50 1 sleepy_kernel ≡ done (returns tt) sleepy_kernel
unfolding schedule_slot should_wake_up
sleepy_visit1 = refl

parking_test : Reach 2 nobody 50 parking
parking_test =
    passes (passes (starts 50 sleepy_kernel) 50 sleepy_kernel (omega arith) refl sleepy_visit0) 50
      sleepy_kernel (omega arith) refl sleepy_visit1

scheduler-parks_example :
    let p = proc_at sleepy_kernel 1 in
    (p.state ≢ ready) × (p.state ≡ sleeping → p.wakeup_time ≢ 0 → 50 < p.wakeup_time)
scheduler-parks_example = scheduler-parks 2 50 nobody parking 1 parking_test refl (omega arith)

abbrev ready_kernel : Kernel
ready_kernel = record some_kernel { procs = no_proc ∷ record no_proc { state = ready } ∷ [] }

ready_unlocked : (i : ℕ) → (proc_at ready_kernel i).lock ≡ 0
ready_unlocked zero = refl
ready_unlocked (suc zero) = refl
ready_unlocked (suc (suc i)) = refl

ready_Free : Free 2 ready_kernel
ready_Free = (refl, omega arith, omega arith, ready_unlocked)

-- Others that leave every lock free and the process in slot 1 READY.
abbrev polite : Others
polite k k' = Free 2 k' × ((proc_at k' 1).state ≡ ready)

abbrev left : Run Kernel (Unit {0}) → Kernel
left (done a k) = k
left (fault f) = ready_kernel

-- The scheduler gives the slot's lock back, and that is all it changes of the table.
set-unlocked :
    (ps : List Process) (i j : ℕ)
    → ((j : ℕ) → (get_or ps j no_proc).lock ≡ 0)
    → get_or (set ps i (record (get_or ps i no_proc) { lock = 0 })) j no_proc ≡ get_or ps j no_proc
set-unlocked [] i j u = refl
set-unlocked (p ∷ ps) zero zero u = ap (λ l. record p { lock = l }) (sym (u 0))
set-unlocked (p ∷ ps) zero (suc j) u = refl
set-unlocked (p ∷ ps) (suc i) zero u = refl
set-unlocked (p ∷ ps) (suc i) (suc j) u = set-unlocked ps i j (λ j. u (suc j))

back_test : (i : ℕ) (k k' : Kernel) → polite k k → schedule_slot_back i k ≡ done tt k' → polite k k'
unfolding schedule_slot_back
back_test i k k' ((t, n, l, u), w) e = subst (polite k) (ap left e) (
  (
    t,
    n,
    omega (arith, l, length-set k.procs i (record (proc_at k i) { lock = 0 })),
    λ j. ap (λ p. p.lock) (set-unlocked k.procs i j u) ∙ u j,
  ),
  ap (λ p. p.state) (set-unlocked k.procs i 1 u) ∙ w,
)

polite-Keeps : Keeps 2 polite 1
polite-Keeps s t (parked k p e) g r = e
polite-Keeps s t (passed now k p v) g r = absurd (both g refl)
polite-Keeps s t (ran now k k' k'' p v e b) g r = back_test s.loop.i k' k'' e b

scheduler-runs_ready_example :
    RunsWithin 2 polite 1 (2 * 2 + 1) (record { kernel = ready_kernel; loop = start })
scheduler-runs_ready_example =
    scheduler-runs_ready 2 1 polite (record { kernel = ready_kernel; loop = start }) (omega arith)
      polite-Keeps (omega arith) ready_Free refl
