-- ===== src/Proc/Fork.antt =====
-- Making a process: `init_proc`, `init_procfs_files`, `proc_fork` and `reoffset_user_stack`. Of the
-- memory behind the stacks' pages only the words are modelled, in `ram`; page numbers, the size of a
-- user's stack (`user_stack_size`) and the address of `forkret` belong to the machine. The stack
-- pages' contents are copied word by word, as `copy_page` does it.

pub mod Full
pub mod Memory
mod Tests
use riscv_hobby_os.Base.{
  ℕ, ◌+◌, ◌-◌, ◌*◌, ◌/◌, ◌%◌, ◌^◌, Bool, Option, none, some, List, M, pure, fails, null_deref, get,
  modify, ◌>>=◌, ◌>>◌, ◌==◌, if◌then◌else◌, length, get_or, set, replicate, ℤ, pos, negsuc, minus,
  is_zero,
}
use riscv_hobby_os.Errno.{enomem}
use riscv_hobby_os.Page.{kalloc, release_page, copy_page}
use riscv_hobby_os.Kernel.{
  ready, cond_chan, Process, Kernel, no_cond, proc_at, set_proc, on_mem, with_table, with_proc,
  acquire, release, change_proc, set_errno, write_word, myproc, deref, reg_a0,
}
use riscv_hobby_os.Proc.Table.{alloc_pid, alloc_process}
use riscv_hobby_os.Proc.Fds.{set_fd, copy_files}
use riscv_hobby_os.Proc.Sched.{copy_trap_frame}
use riscv_hobby_os.Proc.Procfs.{init_procfs_files}

-- The size of a word in bytes, and the other constants of a machine.
pub record Machine : Type 0 where
  pub word_size : ℕ
  pub page_size : ℕ
  pub user_stack_size : ℕ
  pub forkret : ℕ
  pub sp_site : ℕ
  pub ksp_site : ℕ

-- REG_RA, REG_SP, REG_TP and REG_FP; `pc` stands behind the 31 registers.
abbrev pub reg_ra : ℕ
reg_ra = 0

abbrev pub reg_sp : ℕ
reg_sp = 1

abbrev pub reg_tp : ℕ
reg_tp = 3

abbrev pub reg_fp : ℕ
reg_fp = 7

abbrev pub trap_pc : ℕ
trap_pc = 31

abbrev pub magic_sentinel : ℕ
magic_sentinel = 0xdeadf00d

abbrev pub word_at : Machine → ℕ → ℕ
word_at c addr = addr / c.word_size

-- Arithmetic on a `regsize_t`.
abbrev pub word_mod : Machine → ℕ
word_mod c = 2 ^ (8 * c.word_size)

-- STK_ROUND
abbrev pub stk_round : ℕ → ℕ
stk_round addr = addr / 16 * 16

-- `_set_perrno(sp)`
abbrev pub perrno_of : Machine → ℕ → ℕ
perrno_of c sp = word_at c (sp + c.user_stack_size) - 1

abbrev no_fds : List (Option ℕ) → List (Option ℕ)
no_fds fs = replicate (length fs) none

-- FD_STDIN, FD_STDOUT and FD_STDERR; `console` is the index of `stdin`.
abbrev std_fds : (console : ℕ) → List (Option ℕ) → List (Option ℕ)
std_fds console fs =
    set (set (set fs 0 (some console)) 1 (some (console + 1))) 2 (some (console + 2))

-- The fields that `init_proc` fills when both pages are there.
abbrev pub filled :
    Machine → (tp console sp ksp pc : ℕ) → (name : Option (List ℕ)) → Process → Process
filled c tp console sp ksp pc name p = record p {
  name = name;
  stack_page = sp;
  perrno = perrno_of c sp;
  kstack_page = ksp;
  trap =
      set (set (set p.trap trap_pc pc) reg_sp (stk_round (sp + c.user_stack_size - c.word_size)))
        reg_tp tp;
  state = ready;
  files = std_fds console (no_fds p.files);
  ctx =
      set (set (replicate (length p.ctx) 0) reg_ra c.forkret) reg_sp
        ((ksp + c.page_size) % word_mod c);
  nscheds = 0;
  cond = no_cond;
  magic = word_at c ksp;
}

-- The sentinel is a `uint32_t`: the rest of a wider word stays.
abbrev pub with_sentinel : ℕ → ℕ
with_sentinel old = old / 2 ^ 32 * 2 ^ 32 + magic_sentinel

abbrev pub fill_proc : Machine → (proc sp ksp pc : ℕ) → Option (List ℕ) → Kernel → Kernel
fill_proc c proc sp ksp pc name k =
    write_word (word_at c ksp) (with_sentinel (k.ram (word_at c ksp))) (
      set_proc proc
        (filled c (get_or k.trap_frame reg_tp 0) (length k.files - 3) sp ksp pc name
          (proc_at k proc))
        k)

-- Behind the call of `init_procfs_files`.
abbrev pub count_proc : ℤ → M Kernel ℤ
count_proc status =
    if is_zero status
    then (do
      with_table acquire
      modify (λ k. record k { num_procs = k.num_procs + 1 })
      with_table release
      pure (pos 0))
    else pure status

-- Behind the two calls of `kalloc`.
abbrev pub with_ksp : Machine → (proc pc : ℕ) → Option (List ℕ) → (sp ksp : ℕ) → M Kernel ℤ
with_ksp c proc pc name sp ksp =
    if ksp == 0 then on_mem (release_page sp) >> pure (minus enomem) else (do
      modify (fill_proc c proc sp ksp pc name)
      status ← init_procfs_files proc name
      count_proc status)

abbrev pub with_sp : Machine → (proc pc pid : ℕ) → Option (List ℕ) → (sp : ℕ) → M Kernel ℤ
with_sp c proc pc pid name sp =
    if sp == 0
    then pure (minus enomem)
    else on_mem (kalloc c.ksp_site pid) >>= with_ksp c proc pc name sp

-- The process's lock is held.
pub init_proc : Machine → (proc pc : ℕ) → Option (List ℕ) → M Kernel ℤ
init_proc c proc pc name = do
  pid ← alloc_pid
  change_proc proc (λ p. record p { pid = pid })
  sp ← on_mem (kalloc c.sp_site pid)
  with_sp c proc pc pid name sp

-- `-status` as a word
abbrev pub errno_of : Machine → ℤ → ℕ
errno_of c (pos n) = (word_mod c - n) % word_mod c
errno_of c (negsuc n) = n + 1

-- Without an MMU the stacks' addresses differ: USR_VIRT is the identity.
pub reoffset_user_stack : Machine → (src : Process) → (reg : ℕ) → Process → Process
reoffset_user_stack c src reg dest =
    let offset = (get_or src.trap reg 0 + word_mod c - src.stack_page) % word_mod c in
    record dest { trap = set dest.trap reg ((dest.stack_page + offset) % word_mod c) }

abbrev pub page_words : Machine → ℕ
page_words c = c.page_size / c.word_size

-- `copy_page` of both stacks
abbrev pub copy_stacks : Machine → (child parent : Process) → Kernel → Kernel
copy_stacks c child parent k = record k {
  ram =
      copy_page (page_words c) (word_at c child.kstack_page) (word_at c parent.kstack_page)
        (copy_page (page_words c) (word_at c child.stack_page) (word_at c parent.stack_page) k.ram);
}

-- The registers with which the child starts.
abbrev pub place_stacks : Machine → (parent child : Process) → Process
place_stacks c parent child =
    let koffset = (get_or parent.ctx reg_sp 0 + word_mod c - parent.kstack_page) % word_mod c in
    let ksp = (child.kstack_page + koffset) % word_mod c in
    let child = record child { ctx = set (set child.ctx reg_sp ksp) reg_fp ksp } in
    let child = reoffset_user_stack c parent reg_fp (reoffset_user_stack c parent reg_sp child) in
    record child { trap = set child.trap reg_a0 0 }

-- `trap_frame.regs[REG_A0] = pid`
abbrev pub return_a0 : ℕ → Kernel → Kernel
return_a0 pid k = record k { trap_frame = set k.trap_frame reg_a0 pid }

-- Behind a successful `init_proc`.
abbrev pub copy_proc : Machine → (parent child : ℕ) → M Kernel ℤ
copy_proc c parent child = do
  change_proc child (λ p. record p { parent = some parent })
  modify (λ k. copy_stacks c (proc_at k child) (proc_at k parent) k)
  k ← get
  change_proc child (λ p. record p { trap = copy_trap_frame p.trap (proc_at k parent).trap })
  copy_files child parent
  k' ← get
  change_proc child (place_stacks c (proc_at k' parent))
  with_proc child release
  k'' ← get
  modify (return_a0 (proc_at k'' child).pid)
  pure (pos (proc_at k'' child).pid)

abbrev pub fork_failed : Machine → (parent child : ℕ) → ℤ → M Kernel ℤ
fork_failed c parent child status = do
  set_errno parent (errno_of c status)
  with_proc child release
  pure (minus 1)

abbrev pub fork_inited : Machine → (parent child : ℕ) → ℤ → M Kernel ℤ
fork_inited c parent child status =
    if is_zero status then copy_proc c parent child else fork_failed c parent child status

-- With no slot the code releases the lock of a null child.
abbrev pub fork_into : Machine → (parent : ℕ) → Option ℕ → M Kernel ℤ
fork_into c parent none = do
  set_errno parent enomem
  child ← deref none
  with_proc child release
  pure (minus 1)
fork_into c parent (some child) = do
  k ← get
  status ← init_proc c child (get_or (proc_at k parent).trap trap_pc 0) none
  fork_inited c parent child status

-- The trap frame that the parent is given.
abbrev pub save_trap : ℕ → Kernel → Kernel
save_trap parent k =
    set_proc parent
      (record (proc_at k parent) {
        trap =
            copy_trap_frame (set (proc_at k parent).trap trap_pc (get_or k.trap_frame trap_pc 0))
              k.trap_frame;
      })
      k

pub proc_fork : Machine → M Kernel ℤ
proc_fork c = do
  parent ← myproc
  modify (save_trap parent)
  child ← alloc_process
  fork_into c parent child
