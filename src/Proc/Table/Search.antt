-- ===== src/Proc/Table/Search.antt =====
-- What `alloc_process` and `check_exited_children` find, and what they leave as it was.
use riscv_hobby_os.Base.{
  ℕ, ◌<◌, ◌≡◌, refl, ◌∙◌, sym, ap, Bool, true, false, ◌&&◌, Option, none, some, List, Run, M, done,
  fault, inl, inr, Bool-cases, pure, and_then, ◌>>◌, ◌>>=◌, >>-done, if◌then◌else◌, length,
  length-set, get_or, set, arith, points_to, ℤ, minus, of_u32,
}
use riscv_hobby_os.Page.{PagedMem, release_page}
use riscv_hobby_os.Kernel.{
  available, Process, Kernel, no_proc, proc_at, set_proc, with_proc, acquire, release, on_mem,
  change_proc,
}
use riscv_hobby_os.Kernel.Locks.{lock_proc}
use riscv_hobby_os.Proc.Table.{
  vacated, is_zombie, reap, no_child, check_child, check_exited_children,
}
use riscv_hobby_os.Proc.Table.Slots.{
  locked, proc_at-locked, unlock_slot, first_slot, return_some, stop_at, scan-first_slot, set-set,
  get_or-set,
}

-- A zombie whose parent is that process.
abbrev pub zombie_child : Kernel → ℕ → ℕ → Bool
zombie_child k parent i = points_to (proc_at k i).parent parent && is_zombie (proc_at k i)

-- What becomes of the first zombie child: its kernel stack's page is released, then its slot is
-- available, and its pid is the result.
abbrev pub reaped : Kernel → Option ℕ → Run Kernel ℤ
reaped k none = done (minus 1) k
reaped k (some i) = and_then (on_mem (release_page (proc_at k i).kstack_page) (locked i k)) (λ _ k'.
    done (of_u32 (proc_at k i).pid)
      (set_proc i (record (proc_at k i) { state = available; lock = 0 }) k'))

module _ (parent : ℕ) (k : Kernel) where
  abbrev ChildrenUnlocked : Type 0
  ChildrenUnlocked = (i : ℕ) → points_to (proc_at k i).parent parent ≡ true → (proc_at k i).lock ≡ 0

  missed :
      ChildrenUnlocked
      → (j : ℕ) → j < length k.procs
      → zombie_child k parent j ≡ false
      → check_child parent j k ≡ done none k
  missed u j l h = elim (Bool-cases (points_to (proc_at k j).parent parent)) [
    | inr e ↦ rw e refl
    | inl e ↦ rw e (
        >>-done (with_proc j acquire) _ k {r = done none k} (lock_proc j k (u j e)) (
          ap
            (λ b.
              (if b then reap j >>= (λ pid. pure (some pid)) else with_proc j release >> pure none)
                (locked j k))
            (ap is_zombie (proc_at-locked j k l) ∙ alive e)
          ∙ >>-done (with_proc j release) (pure none) (locked j k) (unlock_slot j k l (u j e))
              refl))
  ]
    where
      alive : points_to (proc_at k j).parent parent ≡ true → is_zombie (proc_at k j) ≡ false
      alive e = ap (λ b. b && is_zombie (proc_at k j)) (sym e) ∙ h

  module _ (j : ℕ) (l : j < length k.procs) where
    abbrev vacant : Process → Process
    vacant p = record p { state = available; lock = 0 }

    -- The slot's two last writes, and what they come to.
    vacated-procs :
        (p : Process)
        → (let ps = set (locked j k).procs j (vacated p) in
            set ps j (record (get_or ps j no_proc) { lock = 0 }))
          ≡ set (locked j k).procs j (vacant p)
    vacated-procs p = ap write_back read_back ∙ set-set (locked j k).procs j (vacated p) (vacant p)
      where
        inside : j < length (locked j k).procs
        inside = omega (arith, length-set k.procs j (record (proc_at k j) { lock = 1 }))

        write_back : Process → List Process
        write_back q = set (set (locked j k).procs j (vacated p)) j (record q { lock = 0 })

        read_back : get_or (set (locked j k).procs j (vacated p)) j no_proc ≡ vacated p
        read_back = get_or-set (locked j k).procs j (vacated p) no_proc inside

    abbrev put_mem : Run PagedMem (Unit {0}) → Run Kernel (Unit {0})
    put_mem (done a m) = done a (record (locked j k) { mem = m })
    put_mem (fault f) = fault f

    abbrev ending : ℕ → M Kernel ℤ
    ending pid =
        change_proc j (λ p. record p { state = available })
        >> (with_proc j release >> pure (of_u32 pid))

    by_run :
        (pid : ℕ) (r : Run PagedMem (Unit {0}))
        → and_then (put_mem r) (λ _. ending pid)
          ≡ and_then (put_mem r) (λ _ k'. done (of_u32 pid) (set_proc j (vacant (proc_at k j)) k'))
    by_run pid (fault f) = refl
    by_run pid (done a m) =
        ap (λ ps. done (of_u32 pid) (record (locked j k) { procs = ps; mem = m }))
          (vacated-procs (proc_at (locked j k) j)
            ∙ ap (λ q. set (locked j k).procs j (vacant q)) (proc_at-locked j k l))

    reap-locked : reap j (locked j k) ≡ reaped k (some j)
    reap-locked =
        ap (λ q. (on_mem (release_page q.kstack_page) >> ending q.pid) (locked j k))
          (proc_at-locked j k l)
        ∙ by_run (proc_at k j).pid (release_page (proc_at k j).kstack_page k.mem)

  found :
      ChildrenUnlocked
      → (j : ℕ) → j < length k.procs
      → zombie_child k parent j ≡ true
      → check_child parent j k ≡ return_some (reaped k (some j))
  found u j l h = rw child (
      >>-done (with_proc j acquire) _ k {r = return_some (reaped k (some j))}
        (lock_proc j k (u j child))
        (ap
            (λ b.
              (if b then reap j >>= (λ pid. pure (some pid)) else with_proc j release >> pure none)
                (locked j k))
            (ap is_zombie (proc_at-locked j k l) ∙ dead)
          ∙ ap (λ r. and_then r (λ pid. pure (some pid))) (reap-locked j l)
          ∙ as_some (reaped k (some j))))
    where
      child : points_to (proc_at k j).parent parent ≡ true
      child = ground (arith, h)

      dead : is_zombie (proc_at k j) ≡ true
      dead = ap (λ b. b && is_zombie (proc_at k j)) (sym child) ∙ h

      as_some : (r : Run Kernel ℤ) → and_then r (λ pid. pure (some pid)) ≡ return_some r
      as_some (done pid k') = refl
      as_some (fault f) = refl

  ends : (o : Option ℕ) → and_then (stop_at (λ j. reaped k (some j)) k o) no_child ≡ reaped k o
  ends none = refl
  ends (some j) = as_run (reaped k (some j))
    where
      as_run : (r : Run Kernel ℤ) → and_then (return_some r) no_child ≡ r
      as_run (done pid k') = refl
      as_run (fault f) = refl

-- Where none of the process's children is locked, the search for exited children reaps the first
-- slot that holds a zombie child, or returns -1 and changes nothing if there is none. To reap it,
-- its kernel stack's page is released, as `release_page` does that; then the slot is available and
-- unlocked, no other slot has changed, and its pid is the result.
pub check_exited_children-reaped :
    (parent : ℕ) (k : Kernel)
    → ((i : ℕ) → points_to (proc_at k i).parent parent ≡ true → (proc_at k i).lock ≡ 0)
    → check_exited_children parent k
      ≡ reaped k (first_slot (length k.procs) 0 (zombie_child k parent))
unfolding check_exited_children
check_exited_children-reaped parent k u =
    ap (λ r. and_then r no_child)
      (scan-first_slot (check_child parent) k (zombie_child k parent) (λ j. reaped k (some j))
        (length k.procs) 0 (length k.procs) (omega arith) (missed parent k u) (found parent k u))
    ∙ ends parent k (first_slot (length k.procs) 0 (zombie_child k parent))
