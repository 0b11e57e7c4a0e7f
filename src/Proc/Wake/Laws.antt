-- ===== src/Proc/Wake/Laws.antt =====
-- What a wake-up does to the whole process table.
use riscv_hobby_os.Base.{
  ℕ, zero, suc, ◌≡◌, refl, ◌∙◌, sym, ap, M, Run, >>-done, ◌>>◌, Bool, true, false, ◌||◌, List, [],
  ◌∷◌, ◌++◌, done, if◌then◌else◌, length, get_or, set-append, arith, Bool-cases, inl, inr,
}
use riscv_hobby_os.Kernel.{
  proc_obj, CondType, cond_chan, cond_nscheds, cond_other, Process, Kernel, no_proc, proc_at,
  set_proc, with_proc, acquire, release,
}
use riscv_hobby_os.Kernel.Locks.{lock_proc}
use riscv_hobby_os.Proc.Wake.{
  is_sleeping, waits_on, woken, is_reached, update_by_cond, update_proc_by_chan, wake_visit,
}

-- What is left of a sleeper whose channel is the process `other`: it is ready if it waits for
-- nothing else, or for a number of schedulings that is reached.
abbrev pub by_cond : CondType → (other p : Process) → Process
by_cond cond_chan other p = woken p
by_cond cond_nscheds other p = if is_reached p.cond other then woken p else p
by_cond cond_other other p = p

-- What a wake-up on the process `other`, in slot `o`, does to one entry.
abbrev pub wake_one : (o : ℕ) (other p : Process) → Process
wake_one o other p = if waits_on (proc_obj o) p then by_cond p.cond.type other p else p

-- Whoever sleeps holds no lock: `scheduler` has released it.
abbrev pub SleepersUnlocked : List Process → Type 0
SleepersUnlocked [] = Unit {0}
SleepersUnlocked (p ∷ ps) = (is_sleeping p.state ≡ true → p.lock ≡ 0) × SleepersUnlocked ps

pub ap_field :
    (field : Process → ℕ) (front rest : List Process) (p q : Process)
    → field q ≡ field p
    → (o : ℕ)
    → field (get_or (front ++ q ∷ rest) o no_proc) ≡ field (get_or (front ++ p ∷ rest) o no_proc)
ap_field field [] rest p q e zero = e
ap_field field [] rest p q e (suc o) = refl
ap_field field (x ∷ front) rest p q e zero = refl
ap_field field (x ∷ front) rest p q e (suc o) = ap_field field front rest p q e o

module _ (o : ℕ) where
  -- The loop's state with these entries.
  abbrev pub with_procs : Kernel → List Process → Bool → Kernel
  with_procs k ps u = record k { procs = ps; unsleep_scheduler = u }

  get_or-append :
      (front rest : List Process) (p : Process)
      → get_or (front ++ p ∷ rest) (length front) no_proc ≡ p
  get_or-append [] rest p = refl
  get_or-append (x ∷ front) rest p = get_or-append front rest p

  -- The reader of a condition sees the same process whatever happens to another field of it.
  same_pid :
      (front rest : List Process) (p q : Process)
      → q.pid ≡ p.pid
      → (get_or (front ++ q ∷ rest) o no_proc).pid ≡ (get_or (front ++ p ∷ rest) o no_proc).pid
  same_pid front rest p q e = ap_field (λ r. r.pid) front rest p q e o

  same_nscheds :
      (front rest : List Process) (p q : Process)
      → q.nscheds ≡ p.nscheds
      → (get_or (front ++ q ∷ rest) o no_proc).nscheds
        ≡ (get_or (front ++ p ∷ rest) o no_proc).nscheds
  same_nscheds front rest p q e = ap_field (λ r. r.nscheds) front rest p q e o

  module _ (k : Kernel) (front rest : List Process) where
    abbrev pub at_front : Process → Bool → Kernel
    at_front p u = with_procs k (front ++ p ∷ rest) u

    abbrev pub other : Process → Process
    other p = get_or (front ++ p ∷ rest) o no_proc

    seen : (p : Process) → get_or (front ++ p ∷ rest) (length front) no_proc ≡ p
    seen p = get_or-append front rest p

    stored : (p q : Process) (u : Bool) → set_proc (length front) q (at_front p u) ≡ at_front q u
    stored p q u = ap (λ ps. with_procs k ps u) (set-append front rest q p)

    locked :
        (p : Process) (u : Bool)
        → p.lock ≡ 0
        → with_proc (length front) acquire (at_front p u)
          ≡ done tt (at_front (record p { lock = 1 }) u)
    locked p u free =
        lock_proc (length front) (at_front p u) (ap (λ r. r.lock) (seen p) ∙ free)
        ∙ ap (λ r. done tt (set_proc (length front) (record r { lock = 1 }) (at_front p u)))
            (seen p)
        ∙ ap (done tt) (stored p (record p { lock = 1 }) u)

    unlocked :
        (p : Process) (u : Bool)
        → with_proc (length front) release (at_front p u)
          ≡ done tt (at_front (record p { lock = 0 }) u)
    unlocked p u =
        ap (λ r. done tt (set_proc (length front) (record r { lock = 0 }) (at_front p u))) (seen p)
        ∙ ap (done tt) (stored p (record p { lock = 0 }) u)

    updated_by :
        (t : CondType) (p : Process) (u : Bool)
        → update_by_cond t (proc_obj o) (length front) (at_front p u)
          ≡ done tt (at_front (by_cond t (other p) p) u)
    updated_by cond_chan p u =
        ap (λ r. done tt (set_proc (length front) (woken r) (at_front p u))) (seen p)
        ∙ ap (done tt) (stored p (woken p) u)
    updated_by cond_nscheds p u = elim (Bool-cases (is_reached p.cond (other p))) [
      | inl r ↦ rw (seen p) (rw r (ap (done tt) (stored p (woken p) u)))
      | inr r ↦ rw (seen p) (rw r refl)
    ]
    updated_by cond_other p u = refl

    updated :
        (p : Process) (u : Bool)
        → update_proc_by_chan (length front) (proc_obj o) (at_front p u)
          ≡ done tt (at_front (by_cond p.cond.type (other p) p) true)
    unfolding update_proc_by_chan
    updated p u =
        ap (λ r. update_by_cond r.cond.type (proc_obj o) (length front) (at_front p true)) (seen p)
        ∙ updated_by p.cond.type p true

    -- The lock that was taken and given back leaves no trace.
    relock :
        (t : CondType) (p : Process)
        → p.lock ≡ 0
        → record (by_cond t (other (record p { lock = 1 })) (record p { lock = 1 })) { lock = 0 }
          ≡ by_cond t (other p) p
    relock cond_chan p free = ap (λ l. record (woken p) { lock = l }) (sym free)
    relock cond_nscheds p free =
        rw
          (
            same_pid front rest p (record p { lock = 1 }) refl,
            same_nscheds front rest p (record p { lock = 1 }) refl,
          )
          (elim (Bool-cases (is_reached p.cond (other p))) [
            | inl r ↦ rw r (ap (λ l. record (woken p) { lock = l }) (sym free))
            | inr r ↦ rw r (ap (λ l. record p { lock = l }) (sym free))
          ])
    relock cond_other p free = ap (λ l. record p { lock = l }) (sym free)

    pub visited :
        (p : Process) (u : Bool)
        → (is_sleeping p.state ≡ true → p.lock ≡ 0)
        → wake_visit (proc_obj o) (length front) (at_front p u)
          ≡ done tt (at_front (wake_one o (other p) p) (u || waits_on (proc_obj o) p))
    unfolding wake_visit
    visited p u h = elim (Bool-cases (waits_on (proc_obj o) p)) [
      | inl w ↦
          taken true (ap (waits_on (proc_obj o)) (seen p) ∙ w) (wakes (h (ground arith)))
          ∙ after true w
      | inr w ↦
          taken false (ap (waits_on (proc_obj o)) (seen p) ∙ w)
            (ap (λ v. done tt (at_front p v)) (sym (or_false u)))
          ∙ after false w
    ]
      where
        or_false : (b : Bool) → (b || false) ≡ b
        or_false true = refl
        or_false false = refl

        or_true : (b : Bool) → (b || true) ≡ true
        or_true true = refl
        or_true false = refl

        body : M Kernel (Unit {0})
        body =
            with_proc (length front) acquire
            >> (update_proc_by_chan (length front) (proc_obj o) >> with_proc (length front) release)

        result : Bool → Run Kernel (Unit {0})
        result b = done tt (at_front (if b then by_cond p.cond.type (other p) p else p) (u || b))

        taken :
            (b : Bool)
            → waits_on (proc_obj o) (proc_at (at_front p u) (length front)) ≡ b
            → (if b then body (at_front p u) else done tt (at_front p u)) ≡ result b
            → wake_visit (proc_obj o) (length front) (at_front p u) ≡ result b
        taken b t e = ap (λ c. if c then body (at_front p u) else done tt (at_front p u)) t ∙ e

        after :
            (b : Bool)
            → waits_on (proc_obj o) p ≡ b
            → result b ≡ done tt (at_front (wake_one o (other p) p) (u || waits_on (proc_obj o) p))
        after b w = ap result (sym w)

        wakes : p.lock ≡ 0 → body (at_front p u) ≡ result true
        wakes free =
            let p' : Process = record p { lock = 1 } in
            let p'' : Process = by_cond p.cond.type (other p') p' in
            >>-done (with_proc (length front) acquire) _ (at_front p u) (locked p u free) (
              >>-done (update_proc_by_chan (length front) (proc_obj o)) _ (at_front p' u)
                (updated p' u)
                (unlocked p'' true
                  ∙ ap (λ r. done tt (at_front r true)) (relock p.cond.type p free)
                  ∙ ap (λ v. done tt (at_front (by_cond p.cond.type (other p) p) v))
                      (sym (or_true u))))
