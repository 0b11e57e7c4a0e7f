-- ===== src/Proc/Calls.antt =====
-- src/proc.c: the small system calls `proc_pgalloc`, `proc_pgfree`, `proc_getpid`, `proc_sysinfo` and
-- `proc_pinfo`. What a call writes to the user's structure is its result.
use riscv_hobby_os.Base.{
  ℕ, Option, none, some, List, M, pure, fails, null_deref, get, ◌>>=◌, ◌>>◌, ◌==◌, if◌then◌else◌,
}
use riscv_hobby_os.Str.{strncpy}
use riscv_hobby_os.Page.{
  PagedMem, page_usermem, num_pages, allocate_page, release_page, count_free_pages,
}
use riscv_hobby_os.Page as Page
use riscv_hobby_os.Kernel.{
  ProcState, Kernel, proc_at, on_mem, with_table, with_proc, acquire, release, myproc,
}
use riscv_hobby_os.Proc.Table.{find_proc_by_pid}

-- The page's address, or 0.
pub proc_pgalloc : (site : ℕ) → M Kernel ℕ
proc_pgalloc site = do
  proc ← myproc
  k ← get
  on_mem (allocate_page site (proc_at k proc).pid page_usermem)

-- Whoever owns the page.
pub proc_pgfree : (page : ℕ) → M Kernel ℕ
proc_pgfree page = do proc ← myproc; on_mem (release_page page); pure 0

pub proc_getpid : M Kernel ℕ
proc_getpid = do proc ← myproc; k ← get; pure (proc_at k proc).pid

pub record SysInfo : Type 0 where
  pub procs : ℕ
  pub totalram : ℕ
  pub freeram : ℕ
  pub unclaimed_start : ℕ
  pub unclaimed_end : ℕ

pub proc_sysinfo : M Kernel SysInfo
proc_sysinfo = do
  proc ← myproc
  with_table acquire
  k ← get
  with_table release
  on_mem Page.acquire
  k' ← get
  on_mem Page.release
  pure (record {
    procs = k.num_procs;
    totalram = num_pages k'.mem;
    freeram = count_free_pages k'.mem;
    unclaimed_start = k'.mem.unclaimed_start;
    unclaimed_end = k'.mem.unclaimed_end;
  })

-- pinfo_t
pub record PInfo : Type 0 where
  pub pid : ℕ
  pub name : List ℕ
  pub state : ProcState
  pub nscheds : ℕ

-- `strncpy(pinfo->name, proc->name, 16)`; a process that was forked has no name before `exec`.
abbrev pub copy_name : (dest : List ℕ) → Option (List ℕ) → M Kernel (List ℕ)
copy_name dest none = fails null_deref
copy_name dest (some name) = pure (strncpy dest name 16)

abbrev pub read_info : (dest : List ℕ) (i : ℕ) → M Kernel PInfo
read_info dest i = do
  k ← get
  name ← copy_name dest (proc_at k i).name
  pure (record {
    pid = (proc_at k i).pid;
    name = name;
    state = (proc_at k i).state;
    nscheds = (proc_at k i).nscheds;
  })

-- The caller's own lock is not taken.
abbrev pub info_of : (dest : List ℕ) (pid self : ℕ) → Option ℕ → M Kernel (Option PInfo)
info_of dest pid self none = pure none
info_of dest pid self (some i) = do
  k ← get
  if pid == (proc_at k self).pid then pure tt else with_proc i acquire
  info ← read_info dest i
  if pid == (proc_at k self).pid then pure tt else with_proc i release
  pure (some info)

-- `dest` is the name in the user's structure; `none` leaves the structure as it is.
pub proc_pinfo : (dest : List ℕ) (pid : ℕ) → M Kernel (Option PInfo)
proc_pinfo dest pid = do
  self ← myproc
  with_table acquire
  k ← get
  info ← info_of dest pid self (find_proc_by_pid k pid)
  with_table release
  pure info
