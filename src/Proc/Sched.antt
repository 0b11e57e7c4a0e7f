-- ===== src/Proc/Sched.antt =====
-- The scheduler's visit of a slot, and `sched`. A function that reaches `swtch` ends there with
-- `switches`, and what it does when it is switched back in is a function of its own. `now` is what
-- `time_get_now` returns. The loop over the slots is in `Loop`.
pub mod Laws
pub mod Loop
pub mod Visit
pub mod Parks
pub mod Fair
mod Tests
use riscv_hobby_os.Base.{
  ℕ, ◌+◌, ◌%◌, ◌^◌, Bool, true, false, ◌&&◌, Option, none, some, List, ◌++◌, M, pure, get, modify,
  ◌>>=◌, ◌>>◌, if◌then◌else◌, take, drop,
}
use riscv_hobby_os.Kernel.{
  ProcState, available, ready, running, sleeping, zombie, proc_obj, Process, Kernel, proc_at,
  with_proc, acquire, release, change_proc, current_proc,
}
use riscv_hobby_os.Proc.Wake.{is_sleeping, should_wake_up, proc_mark_for_wakeup}

pub data Step (A : Type 0) : Type 0 where
  returns : A → Step A
  switches : Step A

-- The loop's 32 words: the 31 registers, and `pc` behind them.
unfoldable pub copy_trap_frame : (dst src : List ℕ) → List ℕ
copy_trap_frame dst src = take 32 src ++ drop 32 dst

abbrev pub is_ready : ProcState → Bool
is_ready available = false
is_ready ready = true
is_ready running = false
is_ready sleeping = false
is_ready zombie = false

-- `if (p->state == PROC_STATE_SLEEPING && should_wake_up(p)) p->state = PROC_STATE_READY;`
abbrev pub after_sleep : (now : ℕ) → Process → Process
after_sleep now p =
    if is_sleeping p.state && should_wake_up now p then record p { state = ready } else p

abbrev pub dispatched : Process → Process
dispatched p = record p { state = running; nscheds = (p.nscheds + 1) % 2 ^ 64 }

-- `copy_trap_frame(&trap_frame, &p->trap); swtch(...)`
abbrev pub enter : ℕ → M Kernel (Step (Unit {0}))
enter i = do
  modify (λ k. record k { trap_frame = copy_trap_frame k.trap_frame (proc_at k i).trap })
  pure switches

abbrev pub make_current : ℕ → M Kernel (Step (Unit {0}))
make_current i = do
  modify (λ k. record k { cur = some i })
  proc_mark_for_wakeup (proc_obj i)
  enter i

-- The body of `if (p->state == PROC_STATE_READY)` up to `swtch`, with the slot locked.
abbrev pub dispatch : ℕ → M Kernel (Step (Unit {0}))
dispatch i = do change_proc i dispatched; make_current i

-- One round of the scheduler's loop, up to `swtch`.
pub schedule_slot : (now i : ℕ) → M Kernel (Step (Unit {0}))
schedule_slot now i = do
  with_proc i acquire
  change_proc i (after_sleep now)
  k ← get
  if is_ready (proc_at k i).state then dispatch i else with_proc i release >> pure (returns tt)

-- What the round does when the process has given the cpu back.
pub schedule_slot_back : ℕ → M Kernel (Unit {0})
schedule_slot_back i = do modify (λ k. record k { cur = none }); with_proc i release

-- With no process the scheduler runs, and `sched` never returns: `none`.
pub sched : M Kernel (Option (Step (Unit {0})))
sched k = elim (current_proc k) [
  | none ↦ pure none k
  | some i ↦ (change_proc i (λ p. record p { state = ready }) >> pure (some switches)) k
]
