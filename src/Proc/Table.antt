-- ===== src/Proc/Table.antt =====
-- The process table: `alloc_pid`, `alloc_process`, `find_proc_by_pid`, `check_exited_children` and
-- `proc_plist`. A loop over the slots that returns from its body is a `scan`.
pub mod Slots
pub mod Search
pub mod Alloc
mod Tests
use riscv_hobby_os.Base.{
  ℕ, zero, suc, ◌+◌, ◌%◌, ◌^◌, Bool, true, false, not, Option, none, some, List, [], ◌∷◌, M, done,
  pure, modify, get, ◌>>=◌, ◌>>◌, and_then, ◌==◌, points_to, if◌then◌else◌, length, find_index, map,
  ℤ, minus, of_u32, ltb,
}
use riscv_hobby_os.Errno.{einval}
use riscv_hobby_os.Page.{release_page}
use riscv_hobby_os.Kernel.{
  ProcState, available, ready, running, sleeping, zombie, Process, Kernel, proc_at, with_table,
  with_proc, on_mem, acquire, release, change_proc, set_errno, myproc,
}

abbrev pub scan : {A : Type 0} → (rounds i : ℕ) → (ℕ → M Kernel (Option A)) → M Kernel (Option A)
scan zero i body = pure none
scan (suc n) i body =
    body i >>= (λ o. elim o [ none ↦ scan n (i + 1) body | some a ↦ pure (some a) ])

abbrev pub is_available : Process → Bool
is_available p = elim p.state [
  | available ↦ true
  | ready ↦ false
  | running ↦ false
  | sleeping ↦ false
  | zombie ↦ false
]

abbrev pub is_zombie : Process → Bool
is_zombie p = elim p.state [
  | available ↦ false
  | ready ↦ false
  | running ↦ false
  | sleeping ↦ false
  | zombie ↦ true
]

abbrev pub vacated : Process → Process
vacated p = record p { state = available }

pub init_process_table : Kernel → Kernel
init_process_table k = record k { pid_counter = 0; procs = map vacated k.procs }

-- `pid_counter` is a `uint32_t`.
unfoldable pub alloc_pid : M Kernel ℕ
alloc_pid = do
  with_table acquire
  k ← get
  modify (λ k'. record k' { pid_counter = (k'.pid_counter + 1) % 2 ^ 32 })
  with_table release
  pure k.pid_counter

-- One round of `alloc_process`.
abbrev pub try_slot : ℕ → M Kernel (Option ℕ)
try_slot i k =
    if points_to k.cur i
    then done none k
    else (do
      with_proc i acquire
      k' ← get
      if is_available (proc_at k' i)
          then with_table release >> pure (some i)
          else with_proc i release >> pure none)
        k

-- Behind the loop, where it did not return.
abbrev pub no_slot : Option ℕ → M Kernel (Option ℕ)
no_slot none = with_table release >> pure none
no_slot (some i) = pure (some i)

-- The slot, with its lock held, or `none`.
pub alloc_process : M Kernel (Option ℕ)
alloc_process = do with_table acquire; k ← get; o ← scan (length k.procs) 0 try_slot; no_slot o

pub find_proc_by_pid : Kernel → ℕ → Option ℕ
find_proc_by_pid k pid = find_index (λ p. p.pid == pid) k.procs

-- What is done with a zombie child whose lock is held.
abbrev pub reap : ℕ → M Kernel ℤ
reap i = do
  k ← get
  on_mem (release_page (proc_at k i).kstack_page)
  change_proc i (λ p. record p { state = available })
  with_proc i release
  pure (of_u32 (proc_at k i).pid)

-- One round of `check_exited_children`.
abbrev pub check_child : ℕ → ℕ → M Kernel (Option ℤ)
check_child parent i k =
    if points_to (proc_at k i).parent parent
    then (do
      with_proc i acquire
      k' ← get
      if is_zombie (proc_at k' i)
          then reap i >>= (λ pid. pure (some pid))
          else with_proc i release >> pure none)
        k
    else done none k

abbrev pub no_child : Option ℤ → M Kernel ℤ
no_child none = pure (minus 1)
no_child (some pid) = pure pid

-- The child's pid, or -1.
pub check_exited_children : ℕ → M Kernel ℤ
check_exited_children parent = do
  k ← get
  o ← scan (length k.procs) 0 (check_child parent)
  no_child o

-- The words that the loop of `proc_plist` writes to `pids`.
abbrev pub list_pids : List Process → List ℕ
list_pids [] = []
list_pids (p ∷ rest) = if is_available p then list_pids rest else p.pid ∷ list_pids rest

-- The pids and their number, or `none` for the return of -1. `pids` is not null where `mapped`.
pub proc_plist : (mapped : Bool) → (size : ℕ) → M Kernel (Option (List ℕ))
proc_plist mapped size = do
  self ← myproc
  k ← get
  if not mapped
      then set_errno self einval >> pure none
      else if ltb size (length k.procs)
      then set_errno self einval >> pure none
      else do with_table acquire; k' ← get; with_table release; pure (some (list_pids k'.procs))
