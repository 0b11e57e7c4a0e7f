-- ===== src/Proc/Wake.antt =====
-- Waking processes: `should_wake_up`, `update_proc_by_chan` and `proc_mark_for_wakeup`.
pub mod Laws
pub mod All
mod Tests
use riscv_hobby_os.Base.{
  ℕ, zero, suc, ◌+◌, Bool, true, false, not, ◌&&◌, Option, none, some, List, M, done, fault,
  bad_cast, pure, modify, get, ◌>>=◌, ◌>>◌, and_then, ◌==◌, leb, if◌then◌else◌, length,
}
use riscv_hobby_os.Kernel.{
  ProcState, available, ready, running, sleeping, zombie, Obj, null, uart0, pipe_obj, proc_obj,
  bifs_obj, same_obj, CondType, cond_chan, cond_nscheds, cond_other, WakeCond, Process, Kernel,
  proc_at, set_proc, with_table, with_proc, acquire, release,
}

abbrev pub is_sleeping : ProcState → Bool
is_sleeping sleeping = true
is_sleeping _ = false

-- `proc->wakeup_time != 0 && proc->wakeup_time <= now`
unfoldable pub should_wake_up : (now : ℕ) → Process → Bool
should_wake_up now p = not (p.wakeup_time == 0) && leb p.wakeup_time now

abbrev pub woken : Process → Process
woken p = record p { state = ready; chan = null }

-- `for (int i = 0; i < MAX_PROCS; i++) body(i);`, from slot `i` on
abbrev pub for_slots : (rounds i : ℕ) → (ℕ → M Kernel (Unit {0})) → M Kernel (Unit {0})
for_slots zero i body = pure tt
for_slots (suc n) i body = body i >> for_slots n (i + 1) body

-- `cond->target_pid == other->pid && cond->want_nscheds <= other->nscheds`
abbrev pub is_reached : WakeCond → Process → Bool
is_reached c other = c.target_pid == other.pid && leb c.want_nscheds other.nscheds

-- A wait for a number of schedulings takes `chan` for a process, whatever it points to.
abbrev pub update_by_cond : CondType → Obj → ℕ → M Kernel (Unit {0})
update_by_cond cond_chan chan i k = done tt (set_proc i (woken (proc_at k i)) k)
update_by_cond cond_nscheds (proc_obj o) i k =
    if is_reached (proc_at k i).cond (proc_at k o)
    then done tt (set_proc i (woken (proc_at k i)) k)
    else done tt k
update_by_cond cond_nscheds _ i k = fault bad_cast
update_by_cond cond_other chan i k = done tt k

pub update_proc_by_chan : ℕ → Obj → M Kernel (Unit {0})
update_proc_by_chan i chan k =
    update_by_cond (proc_at k i).cond.type chan i (record k { unsleep_scheduler = true })

-- `p->state == PROC_STATE_SLEEPING && p->chan == chan`
abbrev pub waits_on : Obj → Process → Bool
waits_on chan p = is_sleeping p.state && same_obj p.chan chan

pub wake_visit : Obj → ℕ → M Kernel (Unit {0})
unfolding update_proc_by_chan
wake_visit chan i k =
    if waits_on chan (proc_at k i)
    then (do with_proc i acquire; update_proc_by_chan i chan; with_proc i release) k
    else done tt k

unfoldable pub proc_mark_for_wakeup : Obj → M Kernel (Unit {0})
unfolding wake_visit
proc_mark_for_wakeup chan = do
  with_table acquire
  k ← get
  if k.num_procs == 0
      then with_table release
      else do for_slots (length k.procs) 0 (wake_visit chan); with_table release
