-- ===== src/Proc/Wait/Sleep.antt =====
-- When a process that sleeps or waits runs again.
use riscv_hobby_os.Base.{
  ℕ, ◌+◌, ◌*◌, ◌/◌, ◌^◌, ◌<◌, ◌≤◌, ◌≡◌, ◌≢◌, ◌↔◌, refl, ◌∙◌, sym, ap, points_to, true, none, some,
  M, done, arith, pure, get, ◌>>◌, ◌>>=◌, >>-done, >>=-done, length, get_or-set_ne, ℤ, minus,
}
use riscv_hobby_os.Kernel.{
  sleeping, Process, Kernel, no_proc, proc_at, set_proc, change_proc, myproc,
}
use riscv_hobby_os.Proc.Wake.{should_wake_up}
use riscv_hobby_os.Proc.Table.{check_exited_children}
use riscv_hobby_os.Proc.Table.Slots.{get_or-set, set-get_or, first_slot}
use riscv_hobby_os.Proc.Table.Search.{zombie_child, reaped, check_exited_children-reaped}
use riscv_hobby_os.Proc.Sched.{Step, switches, copy_trap_frame}
use riscv_hobby_os.Proc.Sched.Laws.{runnable, change_again}
use riscv_hobby_os.Proc.Wait.{psleep, proc_wait, wait_on, wait_child, proc_sleep, wakeup_at}

-- A process that sleeps, its registers saved from the trap frame.
abbrev pub asleep : Kernel → Process → Process
asleep k p = record p { state = sleeping; trap = copy_trap_frame p.trap k.trap_frame }

runnable-asleep :
    (now : ℕ) (k : Kernel) (p : Process)
    → (runnable now (asleep k p) ≡ true) ↔ ((p.wakeup_time ≢ 0) × (p.wakeup_time ≤ now))
unfolding should_wake_up
runnable-asleep now k p = ground arith

module _ (i : ℕ) (k : Kernel) (l : i < length k.procs) where
  sleeps : (p : Process) → psleep i (set_proc i p k) ≡ done switches (set_proc i (asleep k p) k)
  unfolding psleep
  sleeps p =
      >>-done (change_proc i (λ q. record q { state = sleeping })) save (set_proc i p k)
        (change_again i k l (λ q. record q { state = sleeping }) p)
        (>>-done (change_proc i (λ q. record q { trap = copy_trap_frame q.trap k.trap_frame }))
          (pure switches) (set_proc i (record p { state = sleeping }) k)
          (change_again i k l (λ q. record q { trap = copy_trap_frame q.trap k.trap_frame })
            (record p { state = sleeping }))
          refl)
    where
      save : M Kernel (Step ℤ)
      save = do
        k' ← get
        change_proc i (λ q. record q { trap = copy_trap_frame q.trap k'.trap_frame })
        pure switches

-- A process that calls `sleep` gives up the cpu, and no other process changes. While nothing wakes
-- it, the scheduler finds it runnable exactly from the time on that it asked for, provided that
-- the clock has started and that this time fits the 64-bit timer.
pub proc_sleep-runnable :
    (one_second now milliseconds i : ℕ) (k : Kernel)
    → k.cur ≡ some i
    → i < length k.procs
    → 0 < now
    → now + one_second / 1000 * milliseconds < 2 ^ 64
    → (k' : Kernel) × (proc_sleep one_second now milliseconds k ≡ done switches k')
      × ((later : ℕ)
          → (runnable later (proc_at k' i) ≡ true)
            ↔ (now + one_second / 1000 * milliseconds ≤ later))
      × ((j : ℕ) → i ≢ j → proc_at k' j ≡ proc_at k j)
unfolding proc_sleep
proc_sleep-runnable one_second now milliseconds i k c l h b = (
  set_proc i (asleep k p) k,
  >>=-done myproc _ k {a = i} {s' = k} (rw c refl) (sleeps i k l p),
  (λ later. wakes later),
  λ j n. get_or-set_ne k.procs (asleep k p) no_proc n,
)
  where
    p : Process
    p = record (proc_at k i) { wakeup_time = wakeup_at one_second now milliseconds }

    in_time : wakeup_at one_second now milliseconds ≡ now + one_second / 1000 * milliseconds
    in_time = omega (arith, b)

    at : proc_at (set_proc i (asleep k p) k) i ≡ asleep k p
    at = get_or-set k.procs i (asleep k p) no_proc l

    wakes :
        (later : ℕ)
        → (runnable later (proc_at (set_proc i (asleep k p) k) i) ≡ true)
          ↔ (now + one_second / 1000 * milliseconds ≤ later)
    wakes later =
        let (to, from) = runnable-asleep later k p in
        (
          (λ e. let (z, t) = to (ap (runnable later) (sym at) ∙ e) in omega (arith, t, in_time)),
          λ t.
              ap (runnable later) at
              ∙ from ((λ z. omega (arith, z, in_time, h)), omega (arith, t, in_time)),
        )

-- A process whose last `sleep` has ended, and which then waits for a child when none has exited,
-- sleeps with that old time still set: the scheduler finds it runnable at once, although nothing
-- has woken it.
pub proc_wait-stale :
    (now i : ℕ) (k : Kernel)
    → k.cur ≡ some i
    → i < length k.procs
    → ((j : ℕ) → points_to (proc_at k j).parent i ≡ true → (proc_at k j).lock ≡ 0)
    → first_slot (length k.procs) 0 (zombie_child k i) ≡ none
    → (proc_at k i).wakeup_time ≢ 0
    → (proc_at k i).wakeup_time ≤ now
    → (k' : Kernel) × (proc_wait none k ≡ done switches k') × (runnable now (proc_at k' i) ≡ true)
unfolding proc_wait
proc_wait-stale now i k c l u z w t = (
  set_proc i (asleep k (proc_at k i)) k,
  >>=-done myproc (λ proc. wait_on proc none) k {a = i} {s' = k} (rw c refl)
      (>>=-done (check_exited_children i) (wait_child i) k {a = minus 1} {s' = k}
        (check_exited_children-reaped i k u ∙ ap (reaped k) z) (waits)),
  ap (runnable now) (get_or-set k.procs i (asleep k (proc_at k i)) no_proc l)
      ∙ (let (to, from) = runnable-asleep now k (proc_at k i) in from (w, t)),
)
  where
    waits : psleep i k ≡ done switches (set_proc i (asleep k (proc_at k i)) k)
    waits =
        ap (λ ps. psleep i (record k { procs = ps })) (sym (set-get_or k.procs i no_proc))
        ∙ sleeps i k l (proc_at k i)
