-- ===== src/Proc/Sched/Parks.antt =====
-- When the scheduler parks the hart.
use native.Mathlib.Decide.{ℕ_discrete}
use riscv_hobby_os.Base.{
  ℕ, ◌<◌, ◌≤◌, ◌≡◌, ◌≢◌, refl, ◌∙◌, done, subst, sym, Bool, true, false, ◌&&◌, ◌||◌, leb, ltb,
  arith, if◌then◌else◌,
}
use riscv_hobby_os.Kernel.{ProcState, available, ready, running, sleeping, zombie, Kernel, proc_at}
use riscv_hobby_os.Proc.Sched.{returns, schedule_slot}
use riscv_hobby_os.Proc.Sched.Laws.{runs_at, runnable-runs_at}
use riscv_hobby_os.Proc.Sched.Loop.{
  Loop, start, parks, next_loop, State, Others, Turn, parked, passed, ran, gives_way, Reach, starts,
  passes, resumes,
}
use riscv_hobby_os.Proc.Sched.Visit.{both, schedule_slot-Passed}

-- The slots that the loop has visited since a process has run.
abbrev seen : Loop → ℕ → Bool
seen l j =
    if l.new_loop then leb l.behind_wakeup j || ltb j l.i else leb l.behind_wakeup j && ltb j l.i

-- The slot could not run at the time `since`.
abbrev IdleAt : (since : ℕ) → Kernel → ℕ → Type 0
IdleAt since k j = runs_at since (proc_at k j).state (proc_at k j).wakeup_time ≡ false

abbrev SeenIdle : (max_procs since : ℕ) → State → Type 0
SeenIdle max_procs since s =
    (j : ℕ) → j < max_procs → seen s.loop j ≡ true → IdleAt since s.kernel j

-- What cannot run could not run before.
runs_at-before :
    (since now : ℕ) (s : ProcState) (w : ℕ)
    → since ≤ now
    → runs_at now s w ≡ false
    → runs_at since s w ≡ false
runs_at-before since now ready w h e = e
runs_at-before since now sleeping w h e = ground (arith, h, e)
runs_at-before since now available w h e = refl
runs_at-before since now running w h e = refl
runs_at-before since now zombie w h e = refl

seen-start : (j : ℕ) → seen start j ≡ false
seen-start j = ground arith

seen-ran :
    (max_procs j : ℕ) (l : Loop) → j < max_procs → seen (next_loop max_procs true l) j ≡ false
seen-ran max_procs j l h = ground arith

seen-passed :
    (max_procs j : ℕ) (l : Loop)
    → j < max_procs
    → (j ≡ l.i → ⊥)
    → seen (next_loop max_procs false l) j ≡ true
    → seen l j ≡ true
seen-passed max_procs j l h n e = ground arith

seen-parks : (j : ℕ) (l : Loop) → parks l ≡ true → seen l j ≡ true
seen-parks j l p = ground arith

SeenIdle-passes :
    (max_procs since now : ℕ) (s : State) (k : Kernel)
    → SeenIdle max_procs since s
    → since ≤ now
    → schedule_slot now s.loop.i s.kernel ≡ done (returns tt) k
    → SeenIdle max_procs since (record { kernel = k; loop = next_loop max_procs false s.loop })
SeenIdle-passes max_procs since now s k q w v j h f =
    let (same, asleep) = schedule_slot-Passed now s.loop.i s.kernel k v in
    let p = proc_at s.kernel s.loop.i in
    subst (λ k'. IdleAt since k' j) (sym same)
      (elim (ℕ_discrete j s.loop.i) [
        | yes e ↦ subst (IdleAt since s.kernel) (sym e) (
            runs_at-before since now p.state p.wakeup_time w
              (sym (runnable-runs_at now p) ∙ asleep))
        | no n ↦ q j h (seen-passed max_procs j s.loop h n f)
      ])

SeenIdle-resumes :
    (max_procs since : ℕ) (Env : Others) (s t : State) (turn : Turn max_procs Env s t)
    → gives_way turn ≡ true
    → SeenIdle max_procs since t
SeenIdle-resumes max_procs since Env s t (parked k p e) g j h f = absurd (both f (seen-start j))
SeenIdle-resumes max_procs since Env s t (passed now k p v) g j h f = absurd (both g refl)
SeenIdle-resumes max_procs since Env s t (ran now k k' k'' p v e b) g j h f =
    absurd (both f (seen-ran max_procs j s.loop h))

SeenIdle-Reach :
    (max_procs : ℕ) (Env : Others) (since : ℕ) (s : State)
    → Reach max_procs Env since s
    → SeenIdle max_procs since s
SeenIdle-Reach max_procs Env since s (starts _ k) = λ j h f. absurd (both f (seen-start j))
SeenIdle-Reach max_procs Env since t (passes {s = s} r now k w p v) =
    SeenIdle-passes max_procs since now s k (SeenIdle-Reach max_procs Env since s r) w v
SeenIdle-Reach max_procs Env since t (resumes {s = s} r turn g _) =
    SeenIdle-resumes max_procs since Env s t turn g

idle_state :
    (since : ℕ) (s : ProcState) (w : ℕ)
    → runs_at since s w ≡ false
    → (s ≢ ready) × (s ≡ sleeping → w ≢ 0 → since < w)
idle_state since ready w e = absurd (ground (arith, e))
idle_state since sleeping w e = ((λ f. ground (arith, f)), λ f n. ground (arith, n, e))
idle_state since available w e = ((λ f. ground (arith, f)), λ f n. absurd (ground (arith, f)))
idle_state since running w e = ((λ f. ground (arith, f)), λ f n. absurd (ground (arith, f)))
idle_state since zombie w e = ((λ f. ground (arith, f)), λ f n. absurd (ground (arith, f)))

-- Whatever else runs on the hart, when the scheduler comes to parking it, no slot of the table is READY. And where every
-- visit since the loop began, or since something last ran, was made at a time `since` or later, no sleeper's wake-up
-- time, if it has one, was reached at `since`.
pub scheduler-parks :
    (max_procs since : ℕ) (Env : Others) (s : State) (j : ℕ)
    → Reach max_procs Env since s
    → parks s.loop ≡ true
    → j < max_procs
    → let p = proc_at s.kernel j in
      (p.state ≢ ready) × (p.state ≡ sleeping → p.wakeup_time ≢ 0 → since < p.wakeup_time)
scheduler-parks max_procs since Env s j r p h =
    idle_state since (proc_at s.kernel j).state (proc_at s.kernel j).wakeup_time
      (SeenIdle-Reach max_procs Env since s r j h (seen-parks j s.loop p))
