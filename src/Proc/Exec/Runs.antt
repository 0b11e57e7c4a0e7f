-- ===== src/Proc/Exec/Runs.antt =====
-- An `exec` that succeeds.
use riscv_hobby_os.Base.{
  ℕ, ◌++◌, take, drop, ◌+◌, ◌-◌, ◌/◌, get_or, true, ◌<◌, ◌≡◌, ◌≢◌, Bool, false, Option, none, some,
  List, M, done, ◌>>◌, ℤ, pos, length, get_elem?, set, pure, modify,
}
use riscv_hobby_os.Page.{Page, PagedMem, release_page, count_free_pages, is_free, no_pid}
use riscv_hobby_os.Page.Layout.{IsValid}
use riscv_hobby_os.Bifs.{bifs_file_at}
use riscv_hobby_os.Kernel.{Process, Kernel, proc_at, with_proc, release, on_mem, change_proc}
use riscv_hobby_os.Proc.Sched.{copy_trap_frame}
use riscv_hobby_os.Proc.Procfs.{name_text}
use riscv_hobby_os.Proc.Fork.{Machine}
use riscv_hobby_os.Proc.Exec.Argv.{SpArgv, copy_argv}
use riscv_hobby_os.Proc.Exec.{Program, Exec, restacked, show_name}

-- The kernel's state behind `exec`, with process `q` in its slot.
abbrev pub replaced :
    (proc f : ℕ) → (name : Option (List ℕ)) → (q : Process) → (mem : PagedMem) → Kernel → Kernel
replaced proc f name q mem k = record k {
  mem = mem;
  procs = set k.procs proc q;
  trap_frame = copy_trap_frame k.trap_frame q.trap;
  bifs = record (k.bifs) {
    files = set k.bifs.files f (record (bifs_file_at k.bifs f) { contents = name_text name });
  };
}

module _ (proc : ℕ) (k : Kernel) (l : proc < length k.procs) (program : Program) (sp argc : ℕ)
    (at : SpArgv) where
  abbrev unlocks : M Kernel ℤ
  unlocks = with_proc proc release >> pure (pos argc)

  abbrev shows : Option ℕ → M Kernel ℤ
  shows file = show_name program.name file >> unlocks

  abbrev enters : Option ℕ → M Kernel ℤ
  enters file =
      modify (λ k. record k { trap_frame = copy_trap_frame k.trap_frame (proc_at k proc).trap })
      >> shows file

  -- What follows the reading of the process.
  abbrev with_process : Process → M Kernel ℤ
  with_process p =
      on_mem (release_page p.stack_page)
      >> (change_proc proc (restacked sp argc at) >> enters p.procfs_name_file)

  abbrev shown : (mem : PagedMem) → (q : Process) → (f : ℕ) → Kernel
  shown mem q f = record k {
    mem = mem;
    trap_frame = copy_trap_frame k.trap_frame q.trap;
    bifs = record (k.bifs) {
      files =
          set k.bifs.files f (record (bifs_file_at k.bifs f) { contents = name_text program.name });
    };
  }

-- The state of the kernel behind `exec`: the registers and `pc` of process `q` are in the trap frame.
abbrev pub exec_state :
    (proc f : ℕ) → (name : Option (List ℕ)) → (q : Process) → (mem : PagedMem) → Kernel → Kernel
exec_state proc f name q mem k = record k {
  mem = mem;
  procs = set k.procs proc q;
  trap_frame = take 32 q.trap ++ drop 32 k.trap_frame;
  bifs = record (k.bifs) {
    files = set k.bifs.files f (record (bifs_file_at k.bifs f) { contents = name_text name });
  };
}

-- The registers and `pc` with which the program starts: `ra` as the `pc` is, `sp` and `fp` at the bottom of the
-- stack, the arguments' number in `a0` and their pointers' place in `a1`.
abbrev pub start_frame : (entry_point sp argc argv : ℕ) → (trap : List ℕ) → List ℕ
start_frame entry_point sp argc argv trap =
    let entered = set trap 31 entry_point in
    set (set (set (set (set entered 0 (get_or entered 31 0)) 1 sp) 7 sp) 9 argc) 10 argv

-- The process behind `exec`, with the page `sp` as its stack.
abbrev pub exec_process : Machine → Program → (sp argc : ℕ) → SpArgv → Process → Process
exec_process c program sp argc at p = record p {
  lock = 0;
  name = program.name;
  perrno = (sp + c.user_stack_size) / c.word_size - 1;
  stack_page = sp;
  trap = start_frame program.entry_point at.new_sp argc at.new_argv p.trap;
}

-- The page `sp` was free and is now the process's, the page in entry `i`, which was the stack, is free, and every other
-- entry is as it was.
abbrev pub Swapped : (site pid i sp : ℕ) → (old : Page) → (m m' : PagedMem) → Type 0
Swapped site pid i sp old m m' =
    (j : ℕ) × (j ≢ i)
    × ((was : Page) × (get_elem? m.pages j ≡ some was) × (is_free was ≡ true) × (was.ptr ≡ sp))
    × (get_elem? m'.pages j ≡ some (record { ptr = sp; flags = 1; site = site; pid = pid }))
    × (get_elem? m'.pages i ≡ some (record { ptr = old.ptr; flags = 0; site = 0; pid = no_pid }))
    × ((o : ℕ) → o ≢ j → o ≢ i → get_elem? m'.pages o ≡ get_elem? m.pages o)

-- What `exec` comes to. The arguments are copied below the two words at the top of the new stack's page.
abbrev pub Executed :
    Machine
    → (site base page_size proc f i : ℕ) → (old : Page) → Program
    → (argv : List (List ℕ)) → Exec
    → M Exec ℤ
    → Type 0
Executed c site base page_size proc f i old program argv s m =
    (sp : ℕ) × (mem : PagedMem) × (let (at, bytes) =
        copy_argv c.word_size (sp + c.user_stack_size - c.word_size - c.word_size) argv s.bytes in
      m s
      ≡ done (pos (length argv)) (record {
        kernel =
            exec_state proc f program.name
              (exec_process c program sp (length argv) at (proc_at s.kernel proc)) mem s.kernel;
        bytes = bytes;
      }))
    × sp ≢ 0
    × Swapped site (proc_at s.kernel proc).pid i sp old s.kernel.mem mem
    × IsValid base page_size mem
    × count_free_pages mem ≡ count_free_pages s.kernel.mem

abbrev free_of : Option Page → Bool
free_of none = false
free_of (some p) = is_free p
