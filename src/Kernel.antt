-- ===== src/Kernel.antt =====
-- The kernel's state: the tables of proc.c, fs.c, pipe.c and bakedinfs.c, and what the one hart that
-- runs them holds. A pointer into a table is the index of its entry, and a null pointer is `none`.
-- The configuration is one without an MMU: `va2pa` is the identity (vm-stub.c), as on the 32-bit
-- and the small machines; `Vm` has the page tables of the others.
pub mod Locks
pub mod Examples
use riscv_hobby_os.Base.{
  ℕ, ◌+◌, ◌-◌, ◌^◌, Bool, true, false, Option, none, some, List, [], M, done, fault, Fault,
  null_deref, panicked, and_then, zoom, modify, pure, fails, get, ◌>>=◌, ◌>>◌, get_or, set, ◌==◌,
  if◌then◌else◌, replicate,
}
use riscv_hobby_os.Spinlock
use riscv_hobby_os.Page.{PagedMem}
use riscv_hobby_os.Bifs.{Bifs}
use riscv_hobby_os.Pipe.{PipeFlags, Ring}

-- PROC_STATE_*
pub data ProcState : Type 0 where
  available ready running sleeping zombie : ProcState

-- What a `void *` of the kernel points to: an entry of the pipes' or the processes' table, the
-- UART, or a file of bakedinfs.
pub data Obj : Type 0 where
  null uart0 : Obj
  pipe_obj proc_obj bifs_obj : ℕ → Obj

abbrev pub same_obj : Obj → Obj → Bool
same_obj null null = true
same_obj null _ = false
same_obj uart0 uart0 = true
same_obj uart0 _ = false
same_obj (pipe_obj i) (pipe_obj j) = i == j
same_obj (pipe_obj i) _ = false
same_obj (proc_obj i) (proc_obj j) = i == j
same_obj (proc_obj i) _ = false
same_obj (bifs_obj i) (bifs_obj j) = i == j
same_obj (bifs_obj i) _ = false

-- PWAKE_COND_CHAN and PWAKE_COND_NSCHEDS; any other value a user passes.
pub data CondType : Type 0 where
  cond_chan cond_nscheds cond_other : CondType

pub record WakeCond : Type 0 where
  pub type : CondType
  pub target_pid : ℕ
  pub want_nscheds : ℕ

-- `trap` is the registers' 31 words and the pc behind them. `perrno` and
-- `magic` are numbers of words of `ram`. `ctx` is the 14 registers that `swtch` saves.
pub record Process : Type 0 where
  pub lock : ℕ
  pub pid : ℕ
  pub name : Option (List ℕ)
  pub parent : Option ℕ
  pub trap : List ℕ
  pub stack_page : ℕ
  pub kstack_page : ℕ
  pub perrno : ℕ
  pub magic : ℕ
  pub state : ProcState
  pub wakeup_time : ℕ
  pub chan : Obj
  pub cond : WakeCond
  pub files : List (Option ℕ)
  pub procfs_dir : Option ℕ
  pub procfs_name_file : Option ℕ
  pub nscheds : ℕ
  pub ctx : List ℕ

-- Which function a `read` or `write` pointer of a file holds.
pub data Handler : Type 0 where
  no_handler uart_io bifs_io pipe_io : Handler

-- The bits of `flags` that the code tests: FFLAGS_READABLE, FFLAGS_WRITABLE, FFLAGS_PIPE.
pub record File : Type 0 where
  pub refcount : ℕ
  pub readable : Bool
  pub writable : Bool
  pub is_pipe : Bool
  pub position : ℕ
  pub fs_file : Obj
  pub read : Handler
  pub write : Handler
  pub tmpfile_mem : ℕ

pub record Pipe : Type 0 where
  pub lock : ℕ
  pub flags : PipeFlags
  pub buf : ℕ
  pub ring : Ring
  pub rf : Option ℕ
  pub wf : Option ℕ

-- `ram` is the memory behind the pages, by the number of a word; only the words that the kernel reads
-- and writes itself matter. `files` is `ftable.files` and, behind its entries, `stdin`, `stdout` and `stderr`.
pub record Kernel : Type 0 where
  pub mem : PagedMem
  pub ram : ℕ → ℕ
  pub table_lock : ℕ
  pub procs : List Process
  pub num_procs : ℕ
  pub pid_counter : ℕ
  pub cur : Option ℕ
  pub trap_frame : List ℕ
  pub unsleep_scheduler : Bool
  pub ftable_lock : ℕ
  pub files : List File
  pub pipes_lock : ℕ
  pub pipes : List Pipe
  pub bifs : Bifs

abbrev pub no_cond : WakeCond
no_cond = record { type = cond_chan; target_pid = 2 ^ 32 - 1; want_nscheds = 0 }

-- A slot of the process table as it is when the kernel starts.
abbrev pub no_proc : Process
no_proc = record {
  lock = 0;
  pid = 0;
  name = none;
  parent = none;
  trap = [];
  stack_page = 0;
  kstack_page = 0;
  perrno = 0;
  magic = 0;
  state = available;
  wakeup_time = 0;
  chan = null;
  cond = record { type = cond_chan; target_pid = 0; want_nscheds = 0 };
  files = [];
  procfs_dir = none;
  procfs_name_file = none;
  nscheds = 0;
  ctx = [];
}

abbrev pub no_file : File
no_file = record {
  refcount = 0;
  readable = false;
  writable = false;
  is_pipe = false;
  position = 0;
  fs_file = null;
  read = no_handler;
  write = no_handler;
  tmpfile_mem = 0;
}

abbrev pub no_pipe : Pipe
no_pipe = record {
  lock = 0;
  flags = record { allocated = false; write_closed = false };
  buf = 0;
  ring = record { page = []; full = false; wpos = 0; rpos = 0 };
  rf = none;
  wf = none;
}

abbrev pub proc_at : Kernel → ℕ → Process
proc_at k i = get_or k.procs i no_proc

abbrev pub set_proc : ℕ → Process → Kernel → Kernel
set_proc i p k = record k { procs = set k.procs i p }

abbrev pub file_at : Kernel → ℕ → File
file_at k i = get_or k.files i no_file

abbrev pub set_file : ℕ → File → Kernel → Kernel
set_file i f k = record k { files = set k.files i f }

abbrev pub pipe_at : Kernel → ℕ → Pipe
pipe_at k i = get_or k.pipes i no_pipe

abbrev pub set_pipe : ℕ → Pipe → Kernel → Kernel
set_pipe i p k = record k { pipes = set k.pipes i p }

abbrev pub on_mem : {A : Type 0} → M PagedMem A → M Kernel A
on_mem = zoom (λ k. k.mem) (λ m k. record k { mem = m })

-- `acquire` and `release` of `proc_table.lock`, of a process's lock and of the others.
abbrev pub with_table : M ℕ (Unit {0}) → M Kernel (Unit {0})
with_table = zoom (λ k. k.table_lock) (λ l k. record k { table_lock = l })

abbrev pub with_proc : ℕ → M ℕ (Unit {0}) → M Kernel (Unit {0})
with_proc i =
    zoom (λ k. (proc_at k i).lock)
      (λ l k. record k { procs = set k.procs i (record (proc_at k i) { lock = l }) })

abbrev pub with_ftable : M ℕ (Unit {0}) → M Kernel (Unit {0})
with_ftable = zoom (λ k. k.ftable_lock) (λ l k. record k { ftable_lock = l })

abbrev pub with_pipes : M ℕ (Unit {0}) → M Kernel (Unit {0})
with_pipes = zoom (λ k. k.pipes_lock) (λ l k. record k { pipes_lock = l })

abbrev pub with_pipe : ℕ → M ℕ (Unit {0}) → M Kernel (Unit {0})
with_pipe i =
    zoom (λ k. (pipe_at k i).lock)
      (λ l k. record k { pipes = set k.pipes i (record (pipe_at k i) { lock = l }) })

abbrev pub acquire : M ℕ (Unit {0})
acquire = Spinlock.acquire

abbrev pub release : M ℕ (Unit {0})
release = Spinlock.release

abbrev pub change_proc : ℕ → (Process → Process) → M Kernel (Unit {0})
change_proc i f = modify (λ k. set_proc i (f (proc_at k i)) k)

abbrev pub change_file : ℕ → (File → File) → M Kernel (Unit {0})
change_file i f = modify (λ k. set_file i (f (file_at k i)) k)

abbrev pub change_pipe : ℕ → (Pipe → Pipe) → M Kernel (Unit {0})
change_pipe i f = modify (λ k. set_pipe i (f (pipe_at k i)) k)

-- `ram[w] = value`
abbrev pub write_word : (w value : ℕ) → Kernel → Kernel
write_word w value k = record k { ram = λ a. if a == w then value else k.ram a }

-- `*proc->perrno = code`
abbrev pub set_errno : ℕ → ℕ → M Kernel (Unit {0})
set_errno i code = modify (λ k. write_word (proc_at k i).perrno code k)

-- `thiscpu()->proc`, of the one hart
abbrev pub current_proc : Kernel → Option ℕ
current_proc k = k.cur

-- With no process the kernel panics.
abbrev pub myproc : M Kernel ℕ
myproc k = elim (current_proc k) [ none ↦ fault panicked | some i ↦ done i k ]

-- A pointer that the code follows without a test.
abbrev pub deref : Option ℕ → M Kernel ℕ
deref none = fails null_deref
deref (some i) = pure i

-- REG_A0 in a trap frame
abbrev pub reg_a0 : ℕ
reg_a0 = 9
