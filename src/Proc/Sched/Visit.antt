-- ===== src/Proc/Sched/Visit.antt =====
-- What a visit that runs nothing says of the slot.
use native.Mathlib.Decide.{ℕ_discrete}
use riscv_hobby_os.Base.{
  ℕ, zero, suc, ◌<◌, ◌≤◌, ◌≡◌, ◌≢◌, refl, ◌∙◌, sym, ap, Bool, true, false, some, List, [], ◌∷◌, Run,
  M, done, fault, deadlock, arith, pure, ◌>>◌, >>-done, inl, inr, Bool-cases, if◌then◌else◌, length,
  get_or, set, and_then, ltb,
}
use riscv_hobby_os.Kernel.{
  Process, Kernel, no_proc, proc_at, set_proc, with_proc, acquire, release, change_proc, proc_obj,
}
use riscv_hobby_os.Spinlock
use riscv_hobby_os.Kernel.Locks.{lock_proc, put_proc}
use riscv_hobby_os.Proc.Wake.{proc_mark_for_wakeup}
use riscv_hobby_os.Proc.Table.Slots.{locked, unlock_slot, get_or-set}
use riscv_hobby_os.Proc.Sched.{
  Step, returns, switches, is_ready, after_sleep, dispatched, enter, dispatch, schedule_slot,
}
use riscv_hobby_os.Proc.Sched.Laws.{claimed, runnable, claimed-asleep, change_again}

set-outside : {A : Type 0} → (xs : List A) (i : ℕ) (a : A) → length xs ≤ i → set xs i a ≡ xs
set-outside [] i a h = refl
set-outside (x ∷ xs) zero a h = absurd (omega arith)
set-outside (x ∷ xs) (suc i) a h = ap (λ r. x ∷ r) (set-outside xs i a (omega arith))

get_or-outside : {A : Type 0} → (xs : List A) (i : ℕ) (d : A) → length xs ≤ i → get_or xs i d ≡ d
get_or-outside [] i d h = refl
get_or-outside (x ∷ xs) zero d h = absurd (omega arith)
get_or-outside (x ∷ xs) (suc i) d h = get_or-outside xs i d (omega arith)

abbrev left_in : Kernel → Run Kernel (Step (Unit {0})) → Kernel
left_in d (done a k) = k
left_in d (fault f) = d

pub both : {b : Bool} → b ≡ true → b ≡ false → ⊥
both e f = ground (arith, e, f)

abbrev stays : Run Kernel (Step (Unit {0})) → Bool
stays (done (returns a) k) = true
stays (done switches k) = false
stays (fault f) = false

-- Dispatching never comes back into the loop by itself.
enter-stays : (i : ℕ) (r : Run Kernel (Unit {0})) → stays (and_then r (λ _. enter i)) ≡ false
enter-stays i (done a k) = refl
enter-stays i (fault f) = refl

-- The test of the state, with the slot locked.
abbrev branch : (i : ℕ) → Bool → M Kernel (Step (Unit {0}))
branch i b = if b then dispatch i else with_proc i release >> pure (returns tt)

abbrev tested : (i : ℕ) → M Kernel (Step (Unit {0}))
tested i k = branch i (is_ready (proc_at k i).state) k

acquire-held : (l : ℕ) → l ≢ 0 → Spinlock.acquire l ≡ fault deadlock
acquire-held l h = ground arith

-- A visit of a slot whose lock is held spins for ever.
pub held :
    (now i : ℕ) (k : Kernel) → (proc_at k i).lock ≢ 0 → schedule_slot now i k ≡ fault deadlock
unfolding schedule_slot
held now i k h = ap (λ r. and_then (put_proc i k r) (λ _. rest)) (acquire-held (proc_at k i).lock h)
  where
    rest : M Kernel (Step (Unit {0}))
    rest = change_proc i (after_sleep now) >> tested i

-- What the visit comes to once the lock is taken.
visit-tested :
    (now i : ℕ) (k : Kernel)
    → i < length k.procs
    → (proc_at k i).lock ≡ 0
    → schedule_slot now i k
      ≡ branch i (runnable now (proc_at k i)) (set_proc i (claimed now (proc_at k i)) k)
unfolding schedule_slot
visit-tested now i k l u = >>-done (with_proc i acquire) _ k (lock_proc i k u) (
    >>-done (change_proc i (after_sleep now)) (tested i) (locked i k)
      (change_again i k l (after_sleep now) (record (proc_at k i) { lock = 1 }))
      (ap (λ p. branch i (is_ready p.state) (set_proc i (claimed now (proc_at k i)) k))
        (get_or-set k.procs i (claimed now (proc_at k i)) no_proc l)))

dispatch-stays : (i : ℕ) (k : Kernel) → stays (dispatch i k) ≡ false
dispatch-stays i k = enter-stays i (proc_mark_for_wakeup (proc_obj i) marking)
  where
    marking : Kernel
    marking = record (set_proc i (dispatched (proc_at k i)) k) { cur = some i }

-- A visit that comes back into the loop has changed nothing, and its slot could not run.
abbrev pub Passed : (now i : ℕ) → Kernel → Kernel → Type 0
Passed now i k k' = (k' ≡ k) × runnable now (proc_at k i) ≡ false

module _ (now i : ℕ) (k : Kernel) where
  -- The end of a visit that runs nothing.
  left :
      i < length k.procs
      → (proc_at k i).lock ≡ 0
      → runnable now (proc_at k i) ≡ false
      → schedule_slot now i k ≡ done (returns tt) k
  left l u r =
      visit-tested now i k l u
      ∙ ap (λ b. branch i b (set_proc i (claimed now (proc_at k i)) k)) r
      ∙ ap (λ p. branch i false (set_proc i p k)) (claimed-asleep now (proc_at k i) r)
      ∙ >>-done (with_proc i release) (pure (returns tt)) (locked i k) (unlock_slot i k l u) refl

  never_left :
      i < length k.procs
      → (proc_at k i).lock ≡ 0
      → runnable now (proc_at k i) ≡ true
      → stays (schedule_slot now i k) ≡ false
  never_left l u r =
      ap stays (
        visit-tested now i k l u
        ∙ ap (λ b. branch i b (set_proc i (claimed now (proc_at k i)) k)) r)
      ∙ dispatch-stays i (set_proc i (claimed now (proc_at k i)) k)

  -- There is no such slot: what is taken, changed and given back is no entry of the table.
  module _ (h : length k.procs ≤ i) where
    missing : proc_at k i ≡ no_proc
    missing = get_or-outside k.procs i no_proc h

    same : (p : Process) → done tt (set_proc i p k) ≡ done tt k
    same p = ap (λ ps. done tt (record k { procs = ps })) (set-outside k.procs i p h)

    outside : schedule_slot now i k ≡ done (returns tt) k
    unfolding schedule_slot
    outside =
        >>-done (with_proc i acquire) _ k
          (lock_proc i k (ap (λ p. p.lock) missing) ∙ same (record (proc_at k i) { lock = 1 }))
          (>>-done (change_proc i (after_sleep now)) (tested i) k
            (same (after_sleep now (proc_at k i)))
            (ap (λ p. branch i (is_ready p.state) k) missing
              ∙ >>-done (with_proc i release) (pure (returns tt)) k
                  (same (record (proc_at k i) { lock = 0 })) refl))

  module _ (k' : Kernel) (e : schedule_slot now i k ≡ done (returns tt) k') where
    unchanged : schedule_slot now i k ≡ done (returns tt) k → k' ≡ k
    unchanged e' = ap (left_in k) (sym e ∙ e')

    inside : i < length k.procs → Passed now i k k'
    inside l = elim (ℕ_discrete (proc_at k i).lock 0) [
      | yes u ↦ elim (Bool-cases (runnable now (proc_at k i))) [
        | inl r ↦ absurd (both (ap stays e) (never_left l u r))
        | inr r ↦ (unchanged (left l u r), r)
      ]
      | no h ↦ absurd (both (ap stays e) (ap stays (held now i k h)))
    ]

    pub schedule_slot-Passed : Passed now i k k'
    schedule_slot-Passed = elim (Bool-cases (ltb i (length k.procs))) [
      | inl h ↦ inside (ground (arith, h))
      | inr h ↦ (
        unchanged (outside (ground (arith, h))),
        ap (runnable now) (get_or-outside k.procs i no_proc (ground (arith, h))),
      )
    ]
