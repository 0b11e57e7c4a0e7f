-- ===== src/Proc/Table/Slots.antt =====
-- Taking the lock of a slot and giving it back, and a scan of the slots.
use riscv_hobby_os.Base.{
  ℕ, zero, suc, ◌+◌, ◌<◌, ◌≡◌, refl, ◌∙◌, sym, ap, Bool, true, false, Option, none, some, List, [],
  ◌∷◌, inl, inr, Bool-cases, Run, M, done, fault, pure, and_then, >>=-done, if◌then◌else◌, length,
  get_or, set, arith,
}
use riscv_hobby_os.Kernel.{Process, Kernel, no_proc, proc_at, set_proc, with_proc, release}
use riscv_hobby_os.Proc.Table.{scan}

module _ {ℓ} {A : Type ℓ} where
  pub set-set : (xs : List A) (i : ℕ) (a b : A) → set (set xs i a) i b ≡ set xs i b
  set-set [] i a b = refl
  set-set (x ∷ xs) zero a b = refl
  set-set (x ∷ xs) (suc i) a b = ap (λ r. x ∷ r) (set-set xs i a b)

  pub set-get_or : (xs : List A) (i : ℕ) (d : A) → set xs i (get_or xs i d) ≡ xs
  set-get_or [] i d = refl
  set-get_or (x ∷ xs) zero d = refl
  set-get_or (x ∷ xs) (suc i) d = ap (λ r. x ∷ r) (set-get_or xs i d)

  pub get_or-set : (xs : List A) (i : ℕ) (a d : A) → i < length xs → get_or (set xs i a) i d ≡ a
  get_or-set [] i a d h = elim h [ ]
  get_or-set (x ∷ xs) zero a d h = refl
  get_or-set (x ∷ xs) (suc i) a d h = get_or-set xs i a d (omega arith)

-- The state in which the lock of slot `i` is taken.
abbrev pub locked : ℕ → Kernel → Kernel
locked i k = set_proc i (record (proc_at k i) { lock = 1 }) k

pub proc_at-locked :
    (i : ℕ) (k : Kernel)
    → i < length k.procs
    → proc_at (locked i k) i ≡ record (proc_at k i) { lock = 1 }
proc_at-locked i k h = get_or-set k.procs i _ no_proc h

abbrev unlocked_again : (p : Process) → p.lock ≡ 0 → record p { lock = 0 } ≡ p
unlocked_again p e = ap (λ l. record p { lock = l }) (sym e)

pub unlock_slot :
    (i : ℕ) (k : Kernel)
    → i < length k.procs
    → (proc_at k i).lock ≡ 0
    → with_proc i release (locked i k) ≡ done tt k
unlock_slot i k h e =
    ap (λ ps. done tt (record k { procs = ps }))
      (ap (λ p. set (locked i k).procs i (record p { lock = 0 })) (proc_at-locked i k h)
        ∙ ap (set (locked i k).procs i) (unlocked_again (proc_at k i) e)
        ∙ set-set k.procs i _ (proc_at k i)
        ∙ set-get_or k.procs i no_proc)

-- The lowest slot from `i` on that passes a test.
abbrev pub first_slot : (rounds i : ℕ) → (ℕ → Bool) → Option ℕ
first_slot zero i hit = none
first_slot (suc n) i hit = if hit i then some i else first_slot n (i + 1) hit

abbrev pub return_some : {A : Type 0} → Run Kernel A → Run Kernel (Option A)
return_some (done a k) = done (some a) k
return_some (fault f) = fault f

-- Where the scan stops: its body does nothing on the slots before that one.
abbrev pub stop_at : {A : Type 0} → (ℕ → Run Kernel A) → Kernel → Option ℕ → Run Kernel (Option A)
stop_at stop k none = done none k
stop_at stop k (some j) = return_some (stop j)

module _ {A : Type 0} (body : ℕ → M Kernel (Option A)) (k : Kernel) where
  pub scan-first_slot :
      (hit : ℕ → Bool) (stop : ℕ → Run Kernel A) (rounds i bound : ℕ)
      → i + rounds ≡ bound
      → ((j : ℕ) → j < bound → hit j ≡ false → body j k ≡ done none k)
      → ((j : ℕ) → j < bound → hit j ≡ true → body j k ≡ return_some (stop j))
      → scan rounds i body k ≡ stop_at stop k (first_slot rounds i hit)
  scan-first_slot hit stop zero i bound e miss found = refl
  scan-first_slot hit stop (suc n) i bound e miss found = elim (Bool-cases (hit i)) [
    | inl h ↦ rw h (>>=-stop (found i (omega arith) h))
    | inr h ↦ rw h (
        >>=-done (body i) _ k (miss i (omega arith) h)
          (scan-first_slot hit stop n (i + 1) bound (omega arith) miss found))
  ]
    where
      go_on : Option A → M Kernel (Option A)
      go_on o = elim o [ none ↦ scan n (i + 1) body | some a ↦ pure (some a) ]

      stops : (r : Run Kernel A) → and_then (return_some r) go_on ≡ return_some r
      stops (done a k') = refl
      stops (fault f) = refl

      >>=-stop : body i k ≡ return_some (stop i) → and_then (body i k) go_on ≡ return_some (stop i)
      >>=-stop e' = ap (λ r. and_then r go_on) e' ∙ stops (stop i)
