-- ===== src/Proc/Sched/Loop.antt =====
-- The scheduler's loop: which slot it visits next, when it parks the hart, and its steps as a relation
-- in which whatever else runs in between is a parameter.
use riscv_hobby_os.Base.{ℕ, suc, ◌≤◌, ◌≡◌, Bool, true, false, ◌&&◌, ◌==◌, leb, if◌then◌else◌, done}
use riscv_hobby_os.Kernel.{Kernel}
use riscv_hobby_os.Proc.Sched.{returns, switches, schedule_slot, schedule_slot_back}

-- The variables of `scheduler`; `behind_wakeup` is one more than `i_after_wakeup`, so that it starts
-- at 0.
pub record Loop : Type 0 where
  pub i : ℕ
  pub behind_wakeup : ℕ
  pub new_loop : Bool

abbrev pub start : Loop
start = record { i = 0; behind_wakeup = 0; new_loop = false }

-- `new_loop && i_after_wakeup < i`: `sleep_scheduler` is called.
abbrev pub parks : Loop → Bool
parks l = l.new_loop && leb l.behind_wakeup l.i

-- `i_after_wakeup = i; new_loop = 0;` where a process has run.
abbrev pub behind_run : (ran : Bool) → Loop → Loop
behind_run ran l = if ran then record l { behind_wakeup = suc l.i; new_loop = false } else l

-- `i++` of the inner loop, and `new_loop = 1` at its end.
abbrev pub advance : (max_procs : ℕ) → Loop → Loop
advance max_procs l =
    if suc l.i == max_procs then record l { i = 0; new_loop = true } else record l { i = suc l.i }

abbrev pub next_loop : (max_procs : ℕ) → (ran : Bool) → Loop → Loop
next_loop max_procs ran l = advance max_procs (behind_run ran l)

-- `unsleep_scheduler = 0`, before the hart is parked
abbrev pub park : Kernel → Kernel
park k = record k { unsleep_scheduler = false }

pub record State : Type 0 where
  pub kernel : Kernel
  pub loop : Loop

-- What the hart does on behalf of the processes and of the devices.
abbrev pub Others : Type 1
Others = Kernel → Kernel → Type 0

-- A parked hart never comes back into the loop: the next timer tick calls `sched`, which starts the
-- scheduler anew. In a visit interrupts are off.
pub data Turn (max_procs : ℕ) (Env : Others) (s : State) : State → Type 0 where
  parked :
      (k : Kernel)
      → parks s.loop ≡ true
      → Env (park s.kernel) k
      → Turn max_procs Env s (record { kernel = k; loop = start })
  passed :
      (now : ℕ) (k : Kernel)
      → parks s.loop ≡ false
      → schedule_slot now s.loop.i s.kernel ≡ done (returns tt) k
      → Turn max_procs Env s (record { kernel = k; loop = next_loop max_procs false s.loop })
  ran :
      (now : ℕ) (k k' k'' : Kernel)
      → parks s.loop ≡ false
      → schedule_slot now s.loop.i s.kernel ≡ done switches k
      → Env k k'
      → schedule_slot_back s.loop.i k' ≡ done tt k''
      → Turn max_procs Env s (record { kernel = k''; loop = next_loop max_procs true s.loop })

-- The turn is not one that passes a slot by.
abbrev pub gives_way : {max_procs : ℕ} {Env : Others} {s t : State} → Turn max_procs Env s t → Bool
gives_way (parked k p e) = true
gives_way (passed now k p v) = false
gives_way (ran now k k' k'' p v e b) = true

-- The states of the loop. Every visit since the loop began, or since it last parked or ran something, was made at the
-- time `since` or later.
pub data Reach (max_procs : ℕ) (Env : Others) : (since : ℕ) → State → Type 0 where
  starts :
      (since : ℕ) (k : Kernel) → Reach max_procs Env since (record { kernel = k; loop = start })
  passes :
      {since : ℕ} {s : State}
      → Reach max_procs Env since s
      → (now : ℕ) (k : Kernel) → since ≤ now
      → parks s.loop ≡ false
      → schedule_slot now s.loop.i s.kernel ≡ done (returns tt) k
      → Reach max_procs Env since (record { kernel = k; loop = next_loop max_procs false s.loop })
  resumes :
      {since : ℕ} {s t : State}
      → Reach max_procs Env since s
      → (turn : Turn max_procs Env s t) → gives_way turn ≡ true
      → (since' : ℕ) → Reach max_procs Env since' t
