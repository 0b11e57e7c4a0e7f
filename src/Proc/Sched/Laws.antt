-- ===== src/Proc/Sched/Laws.antt =====
-- What the scheduler's visit of a slot does.
use riscv_hobby_os.Base.{
  ℕ, zero, suc, ◌+◌, ◌%◌, ◌^◌, ◌++◌, take, drop, ltb, leb, ap₂, ◌<◌, ◌≡◌, ◌≢◌, refl, ◌∙◌, ap, Bool,
  true, false, ◌&&◌, ◌||◌, some, List, [], ◌∷◌, M, done, arith, pure, ◌>>◌, >>-done, inl, inr,
  Bool-cases, if◌then◌else◌, length, length-set, get_or, set, map,
}
use riscv_hobby_os.Kernel.{
  ProcState, available, ready, running, sleeping, zombie, proc_obj, Process, Kernel, no_proc,
  proc_at, set_proc, with_proc, acquire, release, change_proc,
}
use riscv_hobby_os.Kernel.Locks.{lock_proc}
use riscv_hobby_os.Proc.Wake.{is_sleeping, should_wake_up, proc_mark_for_wakeup}
use riscv_hobby_os.Proc.Wake.Laws.{SleepersUnlocked}
use riscv_hobby_os.Proc.Wake.All.{freed, some_on, proc_mark_for_wakeup-map}
use riscv_hobby_os.Proc.Table.Slots.{locked, unlock_slot, set-set, get_or-set}
use riscv_hobby_os.Proc.Sched.{
  Step, returns, switches, copy_trap_frame, is_ready, after_sleep, dispatched, enter, make_current,
  dispatch, schedule_slot,
}

-- A process with its lock taken, and ready if its sleep is over.
abbrev pub claimed : (now : ℕ) → Process → Process
claimed now p = after_sleep now (record p { lock = 1 })

abbrev pub runnable : (now : ℕ) → Process → Bool
runnable now p = is_ready (claimed now p).state

-- The state in which slot `i` runs, its lock held: whoever waits for it has been woken.
abbrev pub dispatched_state : (now i : ℕ) → Kernel → Kernel
dispatched_state now i k =
    let p : Process = dispatched (claimed now (proc_at k i)) in
    record k {
      procs = map (freed i p) (set k.procs i p);
      cur = some i;
      unsleep_scheduler = k.unsleep_scheduler || some_on i (set k.procs i p);
      trap_frame = copy_trap_frame k.trap_frame (proc_at k i).trap;
    }

get_or-map :
    (f : Process → Process) (ps : List Process) (i : ℕ)
    → i < length ps
    → get_or (map f ps) i no_proc ≡ f (get_or ps i no_proc)
get_or-map f [] i h = elim h [ ]
get_or-map f (p ∷ ps) zero h = refl
get_or-map f (p ∷ ps) (suc i) h = get_or-map f ps i (omega arith)

SleepersUnlocked-set :
    (ps : List Process) (i : ℕ) (p : Process)
    → SleepersUnlocked ps
    → is_sleeping p.state ≡ false
    → SleepersUnlocked (set ps i p)
SleepersUnlocked-set [] i p s e = tt
SleepersUnlocked-set (q ∷ ps) zero p (u, s) e = ((λ f. ground (arith, e, f)), s)
SleepersUnlocked-set (q ∷ ps) (suc i) p (u, s) e = (u, SleepersUnlocked-set ps i p s e)

claimed-trap : (now : ℕ) (p : Process) → (claimed now p).trap ≡ p.trap
claimed-trap now p =
    elim (Bool-cases (is_sleeping p.state && should_wake_up now (record p { lock = 1 }))) [
      | inl e ↦ rw e refl
      | inr e ↦ rw e refl
    ]

-- A process that cannot run is not changed by the test of its sleep.
pub claimed-asleep :
    (now : ℕ) (p : Process) → runnable now p ≡ false → claimed now p ≡ record p { lock = 1 }
claimed-asleep now p h =
    elim (Bool-cases (is_sleeping p.state && should_wake_up now (record p { lock = 1 }))) [
      | inl e ↦ absurd (ground (arith, h, e))
      | inr e ↦ rw e refl
    ]

module _ (i : ℕ) (k : Kernel) (l : i < length k.procs) where
  pub change_again :
      (f : Process → Process) (a : Process)
      → change_proc i f (set_proc i a k) ≡ done tt (set_proc i (f a) k)
  change_again f a =
      ap (λ p. done tt (set_proc i (f p) (set_proc i a k))) (get_or-set k.procs i a no_proc l)
      ∙ ap (λ ps. done tt (record k { procs = ps })) (set-set k.procs i a (f a))

  module _ (now : ℕ) where
    abbrev chosen : Process
    chosen = dispatched (claimed now (proc_at k i))

    -- Before the call of `proc_mark_for_wakeup`, and behind it.
    abbrev started : Kernel
    started = record (set_proc i chosen k) { cur = some i }

    abbrev marked : Kernel
    marked = record started {
      procs = map (freed i chosen) started.procs;
      unsleep_scheduler = k.unsleep_scheduler || some_on i started.procs;
    }

    at_started : proc_at started i ≡ chosen
    at_started = get_or-set k.procs i chosen no_proc l

    at_marked : (proc_at marked i).trap ≡ (proc_at k i).trap
    at_marked =
        ap (λ p. p.trap)
          (get_or-map (freed i chosen) started.procs i inside
            ∙ ap (freed i chosen) (get_or-set k.procs i chosen no_proc l))
        ∙ claimed-trap now (proc_at k i)
      where
        inside : i < length started.procs
        inside = omega (arith, length-set k.procs i chosen)

    marks :
        k.table_lock ≡ 0
        → k.num_procs ≢ 0
        → SleepersUnlocked k.procs
        → proc_mark_for_wakeup (proc_obj i) started ≡ done tt marked
    marks t n s =
        proc_mark_for_wakeup-map started i t n (SleepersUnlocked-set k.procs i chosen s refl)
        ∙ ap
            (λ p. done tt (record started {
              procs = map (freed i p) started.procs;
              unsleep_scheduler = k.unsleep_scheduler || some_on i started.procs;
            }))
            at_started

    dispatches :
        k.table_lock ≡ 0
        → k.num_procs ≢ 0
        → SleepersUnlocked k.procs
        → dispatch i (set_proc i (claimed now (proc_at k i)) k)
          ≡ done switches (dispatched_state now i k)
    dispatches t n s =
        >>-done (change_proc i dispatched) (make_current i)
          (set_proc i (claimed now (proc_at k i)) k) {r = done switches (dispatched_state now i k)}
          (change_again dispatched (claimed now (proc_at k i)))
          (>>-done (proc_mark_for_wakeup (proc_obj i)) (enter i) started
            {r = done switches (dispatched_state now i k)} (marks t n s)
            (ap (λ f. done switches (record marked { trap_frame = copy_trap_frame k.trap_frame f }))
              at_marked))

-- The visit, in terms of the code's own tests and updates.
pub visit :
    (now i : ℕ) (k : Kernel)
    → i < length k.procs
    → (proc_at k i).lock ≡ 0
    → k.table_lock ≡ 0
    → k.num_procs ≢ 0
    → SleepersUnlocked k.procs
    → schedule_slot now i k ≡ (
        if runnable now (proc_at k i)
        then done switches (dispatched_state now i k)
        else done (returns tt) k)
unfolding schedule_slot
visit now i k l u t n s = >>-done (with_proc i acquire) _ k (lock_proc i k u) (
    >>-done (change_proc i (after_sleep now)) tested (locked i k)
      (change_again i k l (after_sleep now) (record (proc_at k i) { lock = 1 }))
      (ap (λ p. branch (is_ready p.state) (set_proc i (claimed now (proc_at k i)) k))
          (get_or-set k.procs i (claimed now (proc_at k i)) no_proc l)
        ∙ by_state))
  where
    branch : Bool → M Kernel (Step (Unit {0}))
    branch b = if b then dispatch i else with_proc i release >> pure (returns tt)

    tested : M Kernel (Step (Unit {0}))
    tested k' = branch (is_ready (proc_at k' i).state) k'

    by_state : branch (runnable now (proc_at k i)) (set_proc i (claimed now (proc_at k i)) k) ≡ (
        if runnable now (proc_at k i)
        then done switches (dispatched_state now i k)
        else done (returns tt) k)
    by_state = elim (Bool-cases (runnable now (proc_at k i))) [
      | inl e ↦ rw e (dispatches i k l now t n s)
      | inr e ↦ rw e (
          ap (λ p. (with_proc i release >> pure (returns tt)) (set_proc i p k))
            (claimed-asleep now (proc_at k i) e)
          ∙ >>-done (with_proc i release) (pure (returns tt)) (locked i k) (unlock_slot i k l u)
              refl)
    ]

-- Can a process in this state and with this wake-up time run?
abbrev pub runs_at : (now : ℕ) → ProcState → (wakeup_time : ℕ) → Bool
runs_at now ready w = true
runs_at now sleeping w = ltb 0 w && leb w now
runs_at now available w = false
runs_at now running w = false
runs_at now zombie w = false

pub runnable-runs_at : (now : ℕ) (p : Process) → runnable now p ≡ runs_at now p.state p.wakeup_time
unfolding should_wake_up
runnable-runs_at now p = by_state p.state refl
  where
    by_state : (s : ProcState) → p.state ≡ s → runnable now p ≡ runs_at now s p.wakeup_time
    by_state ready e = ground (arith, e)
    by_state sleeping e = ground (arith, e)
    by_state available e = ground (arith, e)
    by_state running e = ground (arith, e)
    by_state zombie e = ground (arith, e)

-- The process in slot `i` when it runs.
abbrev pub started_process : Process → Process
started_process p = record p { lock = 1; state = running; nscheds = (p.nscheds + 1) % 2 ^ 64 }

-- The state in which slot `i` runs.
abbrev pub running_state : (i : ℕ) → Kernel → Kernel
running_state i k =
    let p = started_process (proc_at k i) in
    record k {
      procs = map (freed i p) (set k.procs i p);
      cur = some i;
      unsleep_scheduler = k.unsleep_scheduler || some_on i (set k.procs i p);
      trap_frame = take 32 (proc_at k i).trap ++ drop 32 k.trap_frame;
    }

dispatched-started : (now : ℕ) (p : Process) → dispatched (claimed now p) ≡ started_process p
dispatched-started now p =
    elim (Bool-cases (is_sleeping p.state && should_wake_up now (record p { lock = 1 }))) [
      | inl e ↦ rw e refl
      | inr e ↦ rw e refl
    ]

dispatched_state-running_state :
    (now i : ℕ) (k : Kernel) → dispatched_state now i k ≡ running_state i k
unfolding copy_trap_frame
dispatched_state-running_state now i k =
    ap
      (λ p. record k {
        procs = map (freed i p) (set k.procs i p);
        cur = some i;
        unsleep_scheduler = k.unsleep_scheduler || some_on i (set k.procs i p);
        trap_frame = take 32 (proc_at k i).trap ++ drop 32 k.trap_frame;
      })
      (dispatched-started now (proc_at k i))

-- With the table, the slot and every sleeper unlocked and some process counted, the scheduler's visit of a slot runs
-- the process if it is READY, or SLEEPING with a wake-up time that is set and not later than now. That one is RUNNING
-- with its lock held and one more scheduling counted, its 31 registers and `pc` are in the trap frame, and exactly the
-- sleepers that wait for it have been woken. On any other slot nothing changes.
pub schedule_slot-dispatches :
    (now i : ℕ) (k : Kernel)
    → i < length k.procs
    → (proc_at k i).lock ≡ 0
    → k.table_lock ≡ 0
    → k.num_procs ≢ 0
    → SleepersUnlocked k.procs
    → schedule_slot now i k ≡ (
        if runs_at now (proc_at k i).state (proc_at k i).wakeup_time
        then done switches (running_state i k)
        else done (returns tt) k)
schedule_slot-dispatches now i k l u t n s =
    visit now i k l u t n s
    ∙ ap₂ (λ b k'. if b then done switches k' else done (returns tt) k)
        (runnable-runs_at now (proc_at k i)) (dispatched_state-running_state now i k)
