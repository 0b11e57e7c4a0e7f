-- ===== src/Proc/Sched/Fair.antt =====
-- No process that is ready waits for ever.
use native.Mathlib.Decide.{ℕ_discrete}
use riscv_hobby_os.Base.{
  ◌≢◌, ◌∙◌, ap, sym, ◌⊎◌, inl, inr, Bool-cases, List, [], ◌∷◌, some, done, length, get_or, ℕ, zero,
  suc, ◌+◌, ◌-◌, ◌*◌, ◌<◌, ◌≤◌, ◌≡◌, refl, subst, Bool, true, false, ◌&&◌, ◌==◌, leb, arith,
  if◌then◌else◌,
}
use riscv_hobby_os.Kernel.{Process, Kernel, no_proc, ready, proc_at}
use riscv_hobby_os.Proc.Sched.Laws.{runnable, runs_at, running_state, schedule_slot-dispatches}
use riscv_hobby_os.Proc.Wake.Laws.{SleepersUnlocked}
use riscv_hobby_os.Proc.Sched.{Step, returns, switches, schedule_slot}
use riscv_hobby_os.Proc.Sched.Loop.{
  Loop, start, parks, next_loop, State, Others, Turn, parked, passed, ran, gives_way,
}
use riscv_hobby_os.Proc.Sched.Visit.{both, schedule_slot-Passed}

-- The turn runs slot `j`.
abbrev pub runs :
    {max_procs : ℕ} {Env : Others} {s t : State} → (j : ℕ) → Turn max_procs Env s t → Bool
runs j (parked k p e) = false
runs j (passed now k p v) = false
runs {s = s} j (ran now k k' k'' p v e b) = s.loop.i == j

-- How many turns the loop is away from slot `j`, at most.
abbrev away : (max_procs j : ℕ) → Loop → ℕ
away max_procs j l =
    if leb l.i j
    then (if l.new_loop && leb l.behind_wakeup j then j - l.i + max_procs + 1 else j - l.i)
    else max_procs - l.i + j + max_procs + 2

away-parked :
    (max_procs j : ℕ) (l : Loop)
    → j < max_procs
    → l.i < max_procs
    → parks l ≡ true
    → away max_procs j start < away max_procs j l
away-parked max_procs j l h i p = ground arith

away-passed :
    (max_procs j : ℕ) (l : Loop)
    → j < max_procs
    → l.i < max_procs
    → parks l ≡ false
    → (l.i ≡ j → ⊥)
    → away max_procs j (next_loop max_procs false l) < away max_procs j l
away-passed max_procs j l h i p n = ground arith

away-ran :
    (max_procs j : ℕ) (l : Loop)
    → j < max_procs
    → l.i < max_procs
    → (l.i == j) ≡ false
    → away max_procs j (next_loop max_procs true l) < away max_procs j l
away-ran max_procs j l h i n = ground arith

inside-next :
    (max_procs : ℕ) (l : Loop) (b : Bool)
    → l.i < max_procs
    → (next_loop max_procs b l).i < max_procs
inside-next max_procs l b h = ground arith

ready-runnable : (now : ℕ) (p : Process) → p.state ≡ ready → runnable now p ≡ true
ready-runnable now p e = rw e refl

nearer :
    (max_procs j : ℕ) (Env : Others) (s t : State) (turn : Turn max_procs Env s t)
    → j < max_procs
    → s.loop.i < max_procs
    → (proc_at s.kernel j).state ≡ ready
    → runs j turn ≡ false
    → away max_procs j t.loop < away max_procs j s.loop
nearer max_procs j Env s t (parked k p e) h i w n = away-parked max_procs j s.loop h i p
nearer max_procs j Env s t (ran now k k' k'' p v e b) h i w n = away-ran max_procs j s.loop h i n
nearer max_procs j Env s t (passed now k p v) h i w n =
    let (same, asleep) = schedule_slot-Passed now s.loop.i s.kernel k v in
    away-passed max_procs j s.loop h i p (λ e.
      both (ready-runnable now (proc_at s.kernel j) w)
        (subst (λ m. runnable now (proc_at s.kernel m) ≡ false) e asleep))

inside-Turn :
    {max_procs : ℕ} {Env : Others} {s t : State}
    → Turn max_procs Env s t
    → s.loop.i < max_procs
    → t.loop.i < max_procs
inside-Turn (parked k p e) h = omega arith
inside-Turn {max_procs} {s = s} (passed now k p v) h = inside-next max_procs s.loop false h
inside-Turn {max_procs} {s = s} (ran now k k' k'' p v e b) h = inside-next max_procs s.loop true h

-- Every lock of the table and its slots is free, some process is counted, and the loop's slots are in the table.
abbrev pub Free : (max_procs : ℕ) → Kernel → Type 0
Free max_procs k =
    k.table_lock ≡ 0
    × k.num_procs ≢ 0
    × max_procs ≤ length k.procs
    × ((i : ℕ) → (proc_at k i).lock ≡ 0)

-- The loop visits slot `j` next, and whenever that is, the visit switches to its process.
abbrev pub RunsNow : (j : ℕ) → State → Type 0
RunsNow j s =
    parks s.loop ≡ false
    × s.loop.i ≡ j
    × ((now : ℕ) → (k : Kernel) × (schedule_slot now j s.kernel ≡ done switches k) × k.cur ≡ some j)

-- Slot `j` runs within `n` turns: it runs now, or a visit ends, whenever it is made, and the slot runs within `n - 1`
-- turns behind every turn that there is.
abbrev pub RunsWithin : (max_procs : ℕ) → (Env : Others) → (j n : ℕ) → State → Type 0
RunsWithin max_procs Env j zero s = RunsNow j s
RunsWithin max_procs Env j (suc n) s =
    RunsNow j s
    ⊎ (((now : ℕ)
          → (o : Step (Unit {0})) × (k : Kernel) × (schedule_slot now s.loop.i s.kernel ≡ done o k))
        × ((t : State) → Turn max_procs Env s t → RunsWithin max_procs Env j n t))

-- Whatever else runs in between gives the locks back and leaves the process of slot `j` READY.
abbrev pub Keeps : (max_procs : ℕ) → (Env : Others) → (j : ℕ) → Type 0
Keeps max_procs Env j =
    (s t : State) (turn : Turn max_procs Env s t)
    → gives_way turn ≡ true
    → runs j turn ≡ false
    → Free max_procs t.kernel × ((proc_at t.kernel j).state ≡ ready)

SleepersUnlocked-all :
    (ps : List Process) → ((i : ℕ) → (get_or ps i no_proc).lock ≡ 0) → SleepersUnlocked ps
SleepersUnlocked-all [] h = tt
SleepersUnlocked-all (p ∷ ps) h = ((λ e. h 0), SleepersUnlocked-all ps (λ i. h (suc i)))

module _ (max_procs j : ℕ) (Env : Others) where
  visits :
      (now : ℕ) (s : State)
      → Free max_procs s.kernel
      → s.loop.i < max_procs
      → schedule_slot now s.loop.i s.kernel ≡ (
          if runs_at now (proc_at s.kernel s.loop.i).state (proc_at s.kernel s.loop.i).wakeup_time
          then done switches (running_state s.loop.i s.kernel)
          else done (returns tt) s.kernel)
  visits now s (t, n, l, u) i =
      schedule_slot-dispatches now s.loop.i s.kernel (omega arith) (u s.loop.i) t n
        (SleepersUnlocked-all s.kernel.procs u)

  arrived :
      (s : State)
      → Free max_procs s.kernel
      → s.loop.i < max_procs
      → (proc_at s.kernel j).state ≡ ready
      → parks s.loop ≡ false
      → s.loop.i ≡ j
      → RunsNow j s
  arrived s f i w p e = (
    p,
    e,
    λ now. (
      running_state j s.kernel,
      subst
            (λ m. schedule_slot now m s.kernel ≡ (
              if runs_at now (proc_at s.kernel m).state (proc_at s.kernel m).wakeup_time
              then done switches (running_state m s.kernel)
              else done (returns tt) s.kernel))
            e (visits now s f i)
          ∙ ap
              (λ st.
                if runs_at now st (proc_at s.kernel j).wakeup_time
                then done switches (running_state j s.kernel)
                else done (returns tt) s.kernel)
              w,
      refl,
    ),
  )

  parked-runs :
      (s t : State) (turn : Turn max_procs Env s t) → parks s.loop ≡ true → runs j turn ≡ false
  parked-runs s t (parked k p e) h = refl
  parked-runs s t (passed now k p v) h = refl
  parked-runs s t (ran now k k' k'' p v e b) h = absurd (both h p)

  other-runs :
      (s t : State) (turn : Turn max_procs Env s t) → (s.loop.i ≡ j → ⊥) → runs j turn ≡ false
  other-runs s t (parked k p e) n = refl
  other-runs s t (passed now k p v) n = refl
  other-runs s t (ran now k k' k'' p v e b) n = ground (arith, n)

  at_zero : (l : Loop) → l.i < max_procs → away max_procs j l ≡ 0 → (parks l ≡ false) × (l.i ≡ j)
  at_zero l h e = ground (arith, h, e)

  ends :
      (now : ℕ) (s : State)
      → Free max_procs s.kernel
      → s.loop.i < max_procs
      → (o : Step (Unit {0})) × (k : Kernel) × (schedule_slot now s.loop.i s.kernel ≡ done o k)
  ends now s f i =
      let p = proc_at s.kernel s.loop.i in
      elim (Bool-cases (runs_at now p.state p.wakeup_time)) [
        | inl e ↦ (switches, running_state s.loop.i s.kernel, visits now s f i ∙ rw e refl)
        | inr e ↦ (returns tt, s.kernel, visits now s f i ∙ rw e refl)
      ]

  module _ (h : j < max_procs) (keeps : Keeps max_procs Env j) where
    kept :
        (s t : State) (turn : Turn max_procs Env s t)
        → Free max_procs s.kernel
        → (proc_at s.kernel j).state ≡ ready
        → runs j turn ≡ false
        → Free max_procs t.kernel × ((proc_at t.kernel j).state ≡ ready)
    kept s t (parked k p e) f w r = keeps s t (parked k p e) refl r
    kept s t (ran now k k' k'' p v e b) f w r = keeps s t (ran now k k' k'' p v e b) refl r
    kept s t (passed now k p v) f w r =
        subst (λ k'. Free max_procs k' × ((proc_at k' j).state ≡ ready))
          (sym ((schedule_slot-Passed now s.loop.i s.kernel k v).0)) (f, w)

    within :
        (n : ℕ) (s : State)
        → Free max_procs s.kernel
        → (proc_at s.kernel j).state ≡ ready
        → s.loop.i < max_procs
        → away max_procs j s.loop ≤ n
        → RunsWithin max_procs Env j n s
    within zero s f w i m = let (p, e) = at_zero s.loop i (omega arith) in arrived s f i w p e
    within (suc n) s f w i m = elim (Bool-cases (parks s.loop)) [
      | inl p ↦ inr (
        (λ now. ends now s f i),
        λ t turn.
            let r = parked-runs s t turn p in
            let (f', w') = kept s t turn f w r in
            within n t f' w' (inside-Turn turn i)
              (omega (arith, m, nearer max_procs j Env s t turn h i w r)),
      )
      | inr p ↦ elim (ℕ_discrete s.loop.i j) [
        | yes e ↦ inl (arrived s f i w p e)
        | no d ↦ inr (
          (λ now. ends now s f i),
          λ t turn.
              let r = other-runs s t turn d in
              let (f', w') = kept s t turn f w r in
              within n t f' w' (inside-Turn turn i)
                (omega (arith, m, nearer max_procs j Env s t turn h i w r)),
        )
      ]
    ]

-- If whatever else runs on the hart, whenever it gives way, leaves the locks free and the process of a slot READY, then
-- from a state with all locks free and that process READY, wherever in the table the loop is, the slot is visited and
-- switched to within `2 * max_procs + 1` turns. Until then no visit faults or waits for a lock for ever.
pub scheduler-runs_ready :
    (max_procs j : ℕ) (Env : Others) (s : State)
    → j < max_procs
    → Keeps max_procs Env j
    → s.loop.i < max_procs
    → Free max_procs s.kernel
    → (proc_at s.kernel j).state ≡ ready
    → RunsWithin max_procs Env j (2 * max_procs + 1) s
scheduler-runs_ready max_procs j Env s h keeps i f w =
    within max_procs j Env h keeps (2 * max_procs + 1) s f w i (ground arith)
