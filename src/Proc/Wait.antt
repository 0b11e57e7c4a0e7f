-- ===== src/Proc/Wait.antt =====
-- Sleeping and exiting: `psleep`, `proc_wait`, `proc_wait_by_cond`, `proc_yield`, `proc_sleep`,
-- `proc_detach` and `proc_exit`, up to `swtch`, and what they do behind it.
pub mod Sleep
mod Tests
use riscv_hobby_os.Base.{
  ℕ, ◌+◌, ◌*◌, ◌/◌, ◌-◌, ◌%◌, ◌^◌, Bool, true, false, Option, none, some, List, M, pure, get,
  modify, ◌>>=◌, ◌>>◌, ◌==◌, if◌then◌else◌, is_negative, length, set, ℤ, pos, minus,
}
use riscv_hobby_os.Errno.{enosys, esrch}
use riscv_hobby_os.Page.{release_page}
use riscv_hobby_os.Bifs.{BifsDir, BifsFile, Bifs, dir_at, bifs_file_at}
use riscv_hobby_os.Kernel.{
  ProcState, available, ready, running, sleeping, zombie, Obj, proc_obj, CondType, cond_chan,
  cond_nscheds, cond_other, WakeCond, Process, Kernel, proc_at, with_table, with_proc, on_mem,
  acquire, release, change_proc, set_errno, myproc, deref,
}
use riscv_hobby_os.Fs.{fs_free_file}
use riscv_hobby_os.Proc.Wake.{is_sleeping, for_slots}
use riscv_hobby_os.Proc.Table.{find_proc_by_pid, check_exited_children}
use riscv_hobby_os.Proc.Fds.{fd_file}
use riscv_hobby_os.Proc.Sched.{Step, returns, switches, copy_trap_frame}

unfoldable pub psleep : ℕ → M Kernel (Step ℤ)
psleep proc = do
  change_proc proc (λ p. record p { state = sleeping })
  k ← get
  change_proc proc (λ p. record p { trap = copy_trap_frame p.trap k.trap_frame })
  pure switches

-- Behind `swtch`: the value that `psleep` returns.
pub psleep_back : ℕ → M Kernel ℤ
psleep_back proc = check_exited_children proc

abbrev pub wait_for : (proc : ℕ) → WakeCond → Option ℕ → M Kernel (Step ℤ)
wait_for proc cond none = set_errno proc esrch >> pure (returns (minus 1))
wait_for proc cond (some target) = do
  k ← get
  change_proc proc (λ p. record p {
    cond = record cond { want_nscheds = (cond.want_nscheds + (proc_at k target).nscheds) % 2 ^ 64 };
    chan = proc_obj target;
  })
  psleep proc

abbrev pub wait_by_type : (proc : ℕ) → WakeCond → CondType → M Kernel (Step ℤ)
wait_by_type proc cond cond_nscheds = do
  k ← get
  wait_for proc cond (find_proc_by_pid k cond.target_pid)
wait_by_type proc cond cond_chan = set_errno proc enosys >> pure (returns (minus 1))
wait_by_type proc cond cond_other = set_errno proc enosys >> pure (returns (minus 1))

pub proc_wait_by_cond : (proc : ℕ) → WakeCond → M Kernel (Step ℤ)
proc_wait_by_cond proc cond = wait_by_type proc cond cond.type

-- Behind the first search for exited children.
abbrev pub wait_child : (proc : ℕ) → ℤ → M Kernel (Step ℤ)
wait_child proc chpid = if is_negative chpid then psleep proc else pure (returns chpid)

abbrev pub wait_on : (proc : ℕ) → Option WakeCond → M Kernel (Step ℤ)
wait_on proc (some cond) = proc_wait_by_cond proc cond
wait_on proc none = check_exited_children proc >>= wait_child proc

pub proc_wait : Option WakeCond → M Kernel (Step ℤ)
proc_wait cond = do proc ← myproc; wait_on proc cond

unfoldable pub proc_yield : Obj → M Kernel (Step ℤ)
proc_yield chan = do proc ← myproc; change_proc proc (λ p. record p { chan = chan }); psleep proc

-- Behind `swtch`: the value of `psleep` is dropped.
pub proc_yield_back : ℕ → M Kernel (Unit {0})
proc_yield_back proc = do
  chpid ← psleep_back proc
  modify (λ k. record k { trap_frame = copy_trap_frame k.trap_frame (proc_at k proc).trap })

-- `now + (ONE_SECOND/1000)*milliseconds`, in 64 bits
abbrev pub wakeup_at : (one_second now milliseconds : ℕ) → ℕ
wakeup_at one_second now milliseconds = (now + one_second / 1000 * milliseconds) % 2 ^ 64

pub proc_sleep : (one_second now milliseconds : ℕ) → M Kernel (Step ℤ)
proc_sleep one_second now milliseconds = do
  proc ← myproc
  change_proc proc (λ p. record p { wakeup_time = wakeup_at one_second now milliseconds })
  psleep proc

-- `if (parent->state == PROC_STATE_SLEEPING) parent->state = PROC_STATE_READY;`
abbrev pub roused : Process → Process
roused p = if is_sleeping p.state then record p { state = ready } else p

abbrev pub detach_from : (proc : ℕ) → Option ℕ → M Kernel ℕ
detach_from proc none = pure 0
detach_from proc (some parent) = do
  with_proc proc acquire
  change_proc proc (λ p. record p { parent = none })
  with_proc proc release
  with_proc parent acquire
  change_proc parent roused
  with_proc parent release
  pure 0

pub proc_detach : M Kernel ℕ
proc_detach = do proc ← myproc; k ← get; detach_from proc (proc_at k proc).parent

abbrev pub free_if_open : Option ℕ → M Kernel (Unit {0})
free_if_open none = pure tt
free_if_open (some f) = fs_free_file f

abbrev pub exit_fd : (proc fd : ℕ) → M Kernel (Unit {0})
exit_fd proc fd = fd_file proc fd >>= free_if_open

-- `proc->procfs_dir->flags = 0` and `proc->procfs_name_file->flags = 0`
abbrev pub clear_dir : ℕ → M Kernel (Unit {0})
clear_dir i = modify (λ k. record k {
  bifs = record (k.bifs) { dirs = set k.bifs.dirs i (record (dir_at k.bifs i) { flags = 0 }) };
})

abbrev pub clear_file : ℕ → M Kernel (Unit {0})
clear_file i = modify (λ k. record k {
  bifs = record (k.bifs) {
    files = set k.bifs.files i (record (bifs_file_at k.bifs i) { flags = 0 });
  };
})

-- The parent is taken to be there; its state is set whatever it was.
abbrev pub wake_parent : ℕ → M Kernel (Unit {0})
wake_parent parent = do
  with_proc parent acquire
  change_proc parent (λ p. record p { state = ready })
  modify (λ k. record k { trap_frame = copy_trap_frame k.trap_frame (proc_at k parent).trap })
  with_proc parent release

-- `num_procs` is the bit pattern of an `int`.
pub proc_exit : M Kernel (Step ℕ)
proc_exit = do
  proc ← myproc
  k ← get
  on_mem (release_page (proc_at k proc).stack_page)
  change_proc proc (λ p. record p { state = zombie })
  parent ← deref (proc_at k proc).parent
  wake_parent parent
  for_slots (length (proc_at k proc).files) 0 (exit_fd proc)
  dir ← deref (proc_at k proc).procfs_dir
  clear_dir dir
  file ← deref (proc_at k proc).procfs_name_file
  clear_file file
  with_table acquire
  modify (λ k'. record k' { num_procs = (k'.num_procs + 2 ^ 32 - 1) % 2 ^ 32 })
  with_table release
  pure switches
