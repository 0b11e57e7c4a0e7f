-- ===== src/Proc/Wake/All.antt =====
-- The loop of `proc_mark_for_wakeup` is a map over the process table.
use mathlib.Core.Bool.{or_assoc, or-false}
use mathlib.Core.List.{append_assoc}
use riscv_hobby_os.Base.{
  ℕ, ◌&&◌, leb, ◌≡◌, ◌≢◌, refl, ◌∙◌, sym, ap, ap₂, Bool, false, ◌||◌, List, [], ◌∷◌, ◌++◌, map,
  done, M, ◌>>◌, >>-done, ◌==◌, if◌then◌else◌, length, get_or, length-append, arith,
}
use riscv_hobby_os.Kernel.{
  ProcState, available, ready, running, sleeping, zombie, Obj, null, uart0, pipe_obj, proc_obj,
  bifs_obj, same_obj, CondType, cond_chan, cond_nscheds, cond_other, Process, Kernel, no_proc,
  proc_at, with_table, acquire, release,
}
use riscv_hobby_os.Kernel.Locks.{lock_table}
use riscv_hobby_os.Proc.Wake.{is_sleeping, waits_on, for_slots, wake_visit, proc_mark_for_wakeup}
use riscv_hobby_os.Proc.Wake.Laws.{
  by_cond, wake_one, SleepersUnlocked, with_procs, ap_field, visited,
}

-- Does some process wait on the object?
abbrev pub any_waits : Obj → List Process → Bool
any_waits chan [] = false
any_waits chan (p ∷ ps) = waits_on chan p || any_waits chan ps

module _ (o : ℕ) where
  wake_one_pid : (other p : Process) → (wake_one o other p).pid ≡ p.pid
  wake_one_pid other p = ground arith

  wake_one_nscheds : (other p : Process) → (wake_one o other p).nscheds ≡ p.nscheds
  wake_one_nscheds other p = ground arith

  -- Of the process that is waited for, only two numbers are read.
  by_cond_same :
      (t : CondType) (x y p : Process)
      → x.pid ≡ y.pid
      → x.nscheds ≡ y.nscheds
      → by_cond t x p ≡ by_cond t y p
  by_cond_same cond_chan x y p e f = refl
  by_cond_same cond_nscheds x y p e f = rw (e, f)
  by_cond_same cond_other x y p e f = refl

  wake_one_same :
      (x y p : Process) → x.pid ≡ y.pid → x.nscheds ≡ y.nscheds → wake_one o x p ≡ wake_one o y p
  wake_one_same x y p e f =
      ap (λ q. if waits_on (proc_obj o) p then q else p) (by_cond_same p.cond.type x y p e f)

  loop-map :
      (k : Kernel) (other : Process) (u : Bool) (front rest : List Process)
      → SleepersUnlocked rest
      → (get_or (front ++ rest) o no_proc).pid ≡ other.pid
      → (get_or (front ++ rest) o no_proc).nscheds ≡ other.nscheds
      → for_slots
          (length rest)
          (length front)
          (wake_visit (proc_obj o))
          (with_procs o k (front ++ rest) u)
        ≡ done tt (
            with_procs o k
              (front ++ map (wake_one o other) rest)
              (u || any_waits (proc_obj o) rest))
  loop-map k other u front [] s e f =
      ap (λ v. done tt (with_procs o k (front ++ []) v)) (sym (or-false u))
  loop-map k other u front (p ∷ rest) s e f =
      >>-done (wake_visit (proc_obj o) (length front)) _ (with_procs o k (front ++ p ∷ rest) u)
        (visited o k front rest p u s.0
          ∙ ap (λ r. done tt (with_procs o k (front ++ r ∷ rest) u')) same)
        (ap₂ (λ i ps. for_slots (length rest) i (wake_visit (proc_obj o)) (with_procs o k ps u'))
            (sym (length-append front (q ∷ []))) (sym (append_assoc front (q ∷ []) rest))
          ∙ loop-map k other u' (front ++ q ∷ []) rest s.1
              (ap (λ ps. (get_or ps o no_proc).pid) (append_assoc front (q ∷ []) rest)
                ∙ ap_field (λ r. r.pid) front rest p q (wake_one_pid other p) o
                ∙ e)
              (ap (λ ps. (get_or ps o no_proc).nscheds) (append_assoc front (q ∷ []) rest)
                ∙ ap_field (λ r. r.nscheds) front rest p q (wake_one_nscheds other p) o
                ∙ f)
          ∙ ap₂ (λ ps v. done tt (with_procs o k ps v))
              (append_assoc front (q ∷ []) (map (wake_one o other) rest))
              (or_assoc u (waits_on (proc_obj o) p) (any_waits (proc_obj o) rest)))
    where
      q : Process
      q = wake_one o other p

      u' : Bool
      u' = u || waits_on (proc_obj o) p

      same : wake_one o (get_or (front ++ p ∷ rest) o no_proc) p ≡ q
      same = wake_one_same _ other p e f

-- The loop in terms of the code's own tests.
marks_all :
    (k : Kernel) (o : ℕ)
    → k.table_lock ≡ 0
    → k.num_procs ≢ 0
    → SleepersUnlocked k.procs
    → proc_mark_for_wakeup (proc_obj o) k
      ≡ done tt (record k {
        procs = map (wake_one o (proc_at k o)) k.procs;
        unsleep_scheduler = k.unsleep_scheduler || any_waits (proc_obj o) k.procs;
      })
unfolding proc_mark_for_wakeup
marks_all k o t n s = >>-done (with_table acquire) _ k (lock_table k t) (
    ap (λ b. (if b then with_table release else slots) k') busy
    ∙ >>-done (for_slots (length k.procs) 0 (wake_visit (proc_obj o))) _ k'
        (loop-map o k' (proc_at k o) k.unsleep_scheduler [] k.procs s refl refl)
        (ap (λ l. done tt (record result { table_lock = l })) (sym t)))
  where
    k' : Kernel
    k' = record k { table_lock = 1 }

    slots : M Kernel (Unit {0})
    slots = for_slots (length k.procs) 0 (wake_visit (proc_obj o)) >> with_table release

    busy : (k.num_procs == 0) ≡ false
    busy = ground (arith, n)

    result : Kernel
    result = record k {
      procs = map (wake_one o (proc_at k o)) k.procs;
      unsleep_scheduler = k.unsleep_scheduler || any_waits (proc_obj o) k.procs;
    }

-- Does a process in this state and on this channel wait for slot `o`?
abbrev pub on_slot : (o : ℕ) → ProcState → Obj → Bool
on_slot o sleeping (proc_obj i) = i == o
on_slot o sleeping _ = false
on_slot o available _ = false
on_slot o ready _ = false
on_slot o running _ = false
on_slot o zombie _ = false

-- What a wait comes to when `other` is scheduled: READY and off its channel, or as it was.
abbrev pub released : CondType → (other p : Process) → Process
released cond_chan other p = record p { state = ready; chan = null }
released cond_nscheds other p =
    if p.cond.target_pid == other.pid && leb p.cond.want_nscheds other.nscheds
    then record p { state = ready; chan = null }
    else p
released cond_other other p = p

abbrev pub freed : (o : ℕ) → (other p : Process) → Process
freed o other p = if on_slot o p.state p.chan then released p.cond.type other p else p

abbrev pub some_on : (o : ℕ) → List Process → Bool
some_on o [] = false
some_on o (p ∷ ps) = on_slot o p.state p.chan || some_on o ps

on_slot_lem :
    (o : ℕ) (s : ProcState) (c : Obj) → (is_sleeping s && same_obj c (proc_obj o)) ≡ on_slot o s c
on_slot_lem o sleeping null = refl
on_slot_lem o sleeping uart0 = refl
on_slot_lem o sleeping (pipe_obj i) = refl
on_slot_lem o sleeping (proc_obj i) = refl
on_slot_lem o sleeping (bifs_obj i) = refl
on_slot_lem o available c = refl
on_slot_lem o ready c = refl
on_slot_lem o running c = refl
on_slot_lem o zombie c = refl

by_cond-released : (t : CondType) (other p : Process) → by_cond t other p ≡ released t other p
by_cond-released cond_chan other p = refl
by_cond-released cond_nscheds other p = refl
by_cond-released cond_other other p = refl

map-freed :
    (o : ℕ) (other : Process) (ps : List Process)
    → map (wake_one o other) ps ≡ map (freed o other) ps
map-freed o other [] = refl
map-freed o other (p ∷ ps) =
    ap₂ (λ q qs. q ∷ qs)
      (ap₂ (λ b q. if b then q else p) (on_slot_lem o p.state p.chan)
        (by_cond-released p.cond.type other p))
      (map-freed o other ps)

some_on_lem : (o : ℕ) (ps : List Process) → any_waits (proc_obj o) ps ≡ some_on o ps
some_on_lem o [] = refl
some_on_lem o (p ∷ ps) = ap₂ (λ b c. b || c) (on_slot_lem o p.state p.chan) (some_on_lem o ps)

-- With the table unlocked, some process counted and no sleeper's lock held, the call on a process's own channel
-- returns with every lock released. The sleepers on that process that wait for nothing else, or for a number of
-- schedulings that it has reached, are READY and off the channel, and no other entry changes. An idle hart is told if
-- there was a sleeper.
pub proc_mark_for_wakeup-map :
    (k : Kernel) (o : ℕ)
    → k.table_lock ≡ 0
    → k.num_procs ≢ 0
    → SleepersUnlocked k.procs
    → proc_mark_for_wakeup (proc_obj o) k
      ≡ done tt (record k {
        procs = map (freed o (proc_at k o)) k.procs;
        unsleep_scheduler = k.unsleep_scheduler || some_on o k.procs;
      })
proc_mark_for_wakeup-map k o t n s =
    marks_all k o t n s
    ∙ ap₂ (λ ps u. done tt (record k { procs = ps; unsleep_scheduler = k.unsleep_scheduler || u }))
        (map-freed o (proc_at k o) k.procs) (some_on_lem o k.procs)
