-- ===== src/Proc/Table/Alloc.antt =====
-- What `alloc_process` finds.
use riscv_hobby_os.Base.{
  ℕ, ◌<◌, ◌≡◌, refl, ◌∙◌, sym, ap, Bool, true, false, not, ◌&&◌, Option, none, some, Run, M, done,
  inl, inr, Bool-cases, pure, and_then, ◌>>◌, >>-done, if◌then◌else◌, length, arith, points_to,
}
use riscv_hobby_os.Kernel.{Kernel, proc_at, with_proc, with_table, acquire, release}
use riscv_hobby_os.Kernel.Locks.{lock_proc, lock_table}
use riscv_hobby_os.Proc.Table.{is_available, no_slot, try_slot, alloc_process}
use riscv_hobby_os.Proc.Table.Slots.{
  locked, proc_at-locked, unlock_slot, first_slot, return_some, stop_at, scan-first_slot,
}

-- A slot that can be taken: available, and not the running process's.
abbrev pub free_slot : Kernel → ℕ → Bool
free_slot k i = not (points_to k.cur i) && is_available (proc_at k i)

-- The slot comes with its lock held.
abbrev pub allocated : Kernel → Option ℕ → Run Kernel (Option ℕ)
allocated k none = done none k
allocated k (some i) = done (some i) (locked i k)

module _ (k : Kernel) (t : k.table_lock ≡ 0)
    (u : (i : ℕ) → points_to k.cur i ≡ false → (proc_at k i).lock ≡ 0) where
  -- The state in the loop
  abbrev held : Kernel
  held = record k { table_lock = 1 }

  abbrev choose : ℕ → Bool → M Kernel (Option ℕ)
  choose j b = if b then with_table release >> pure (some j) else with_proc j release >> pure none

  missed : (j : ℕ) → j < length k.procs → free_slot k j ≡ false → try_slot j held ≡ done none held
  missed j l h = elim (Bool-cases (points_to k.cur j)) [
    | inl e ↦ rw e refl
    | inr e ↦ rw e (
        >>-done (with_proc j acquire) _ held {r = done none held} (lock_proc j held (u j e)) (
          ap (λ b. choose j b (locked j held)) (ap is_available (proc_at-locked j held l) ∙ taken e)
          ∙ >>-done (with_proc j release) (pure none) (locked j held) (unlock_slot j held l (u j e))
              refl))
  ]
    where
      taken : points_to k.cur j ≡ false → is_available (proc_at k j) ≡ false
      taken e = ap (λ b. not b && is_available (proc_at k j)) (sym e) ∙ h

  found :
      (j : ℕ)
      → j < length k.procs
      → free_slot k j ≡ true
      → try_slot j held ≡ return_some (done j (locked j k))
  found j l h = rw other (
      >>-done (with_proc j acquire) _ held {r = done (some j) (locked j k)}
        (lock_proc j held (u j other))
        (ap (λ b. choose j b (locked j held)) (ap is_available (proc_at-locked j held l) ∙ empty)
          ∙ ap (λ v. done (some j) (record (locked j k) { table_lock = v })) (sym t)))
    where
      other : points_to k.cur j ≡ false
      other = ground (arith, h)

      empty : is_available (proc_at k j) ≡ true
      empty = ap (λ b. not b && is_available (proc_at k j)) (sym other) ∙ h

  ends :
      (o : Option ℕ) → and_then (stop_at (λ j. done j (locked j k)) held o) no_slot ≡ allocated k o
  ends none = ap (λ v. done none (record k { table_lock = v })) (sym t)
  ends (some j) = refl

-- With the table and every process but the running one unlocked, `alloc_process` returns the first
-- available slot that is not the running process's, with that slot's lock held and every other
-- lock and entry as before, the table's lock included. Without one it returns none and nothing has
-- changed.
pub alloc_process-allocated :
    (k : Kernel)
    → k.table_lock ≡ 0
    → ((i : ℕ) → points_to k.cur i ≡ false → (proc_at k i).lock ≡ 0)
    → alloc_process k ≡ allocated k (first_slot (length k.procs) 0 (free_slot k))
unfolding alloc_process
alloc_process-allocated k t u = >>-done (with_table acquire) _ k (lock_table k t) (
    ap (λ r. and_then r no_slot)
      (scan-first_slot try_slot (held k t u) (free_slot k) (λ j. done j (locked j k))
        (length k.procs) 0 (length k.procs) (omega arith) (missed k t u) (found k t u))
    ∙ ends k t u (first_slot (length k.procs) 0 (free_slot k)))
