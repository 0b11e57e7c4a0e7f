-- ===== src/Proc/Exec.antt =====
-- src/proc.c: the arguments of a new program on its stack, and `proc_execv`, without an MMU. The
-- arguments are written into a memory of bytes, `bytes`; of the same memory `ram` of the kernel's
-- state has the words that the kernel reads itself, which `copy_argv` does not write.
pub mod Argv
pub mod Refused
pub mod Runs
pub mod Init
mod Tests
use riscv_hobby_os.Base.{
  ℕ, ◌+◌, ◌-◌, ◌*◌, Bool, true, false, ◌&&◌, Option, none, some, List, [], ◌∷◌, M, zoom, pure, get,
  modify, ◌>>=◌, ◌>>◌, ◌==◌, if◌then◌else◌, length, get_or, set, ℤ, pos, minus, is_zero,
}
use riscv_hobby_os.Errno.{einval, enoent, enomem}
use riscv_hobby_os.Str.{strncmp}
use riscv_hobby_os.Page.{kalloc, release_page}
use riscv_hobby_os.Kernel.{
  Process, Kernel, proc_at, on_mem, with_proc, acquire, release, change_proc, set_errno, myproc,
  deref, reg_a0,
}
use riscv_hobby_os.Proc.Sched.{copy_trap_frame}
use riscv_hobby_os.Proc.Procfs.{change_bifs_file, name_text}
use riscv_hobby_os.Proc.Fork.{Machine, reg_ra, reg_sp, reg_fp, trap_pc, perrno_of}
use riscv_hobby_os.Proc.Exec.Argv.{Bytes, SpArgv, copy_argv}

-- user_program_t
pub record Program : Type 0 where
  pub entry_point : ℕ
  pub name : Option (List ℕ)

-- `userland_programs[i].name && !strncmp(name, userland_programs[i].name, 16)`
abbrev pub is_named : (name : List ℕ) → Program → Bool
is_named name p = elim p.name [ none ↦ false | some n ↦ is_zero (strncmp name n 16) ]

pub find_user_program : (programs : List Program) → (name : List ℕ) → Option Program
find_user_program [] name = none
find_user_program (p ∷ programs) name =
    if is_named name p then some p else find_user_program programs name

pub record Exec : Type 0 where
  pub kernel : Kernel
  pub bytes : Bytes

abbrev pub on_kernel : {A : Type 0} → M Kernel A → M Exec A
on_kernel = zoom (λ s. s.kernel) (λ k s. record s { kernel = k })

-- REG_A1
abbrev pub reg_a1 : ℕ
reg_a1 = 10

-- `*proc->perrno = code; return -1;`, with the process locked
abbrev pub refuse_exec : (proc code : ℕ) → M Kernel ℤ
refuse_exec proc code = set_errno proc code >> pure (minus 1)

-- Of a null `argv` too, `len_argv` is 0.
abbrev pub args_of : Option (List (List ℕ)) → List (List ℕ)
args_of none = []
args_of (some argv) = argv

-- The two words at the top of the stack, one of them for errno, are left out.
abbrev pub top_of_sp : Machine → (sp : ℕ) → ℕ
top_of_sp c sp = sp + c.user_stack_size - c.word_size - c.word_size

abbrev pub renamed : Machine → Program → (sp : ℕ) → Process → Process
renamed c program sp p = record p {
  trap = set p.trap trap_pc program.entry_point;
  name = program.name;
  perrno = perrno_of c sp;
}

-- The registers with which the program starts.
abbrev pub start_regs : (argc : ℕ) → SpArgv → (trap : List ℕ) → List ℕ
start_regs argc at trap =
    let trap = set trap reg_ra (get_or trap trap_pc 0) in
    set (set (set (set trap reg_sp at.new_sp) reg_fp at.new_sp) reg_a0 argc) reg_a1 at.new_argv

abbrev pub restacked : (sp argc : ℕ) → SpArgv → Process → Process
restacked sp argc at p = record p { stack_page = sp; trap = start_regs argc at p.trap }

abbrev pub show_name : Option (List ℕ) → Option ℕ → M Kernel (Unit {0})
show_name name file = do
  f ← deref file
  change_bifs_file f (λ b. record b { contents = name_text name })

-- Behind `copy_argv`.
abbrev pub replace_stack : (proc sp argc : ℕ) → Program → SpArgv → M Kernel ℤ
replace_stack proc sp argc program at = do
  k ← get
  on_mem (release_page (proc_at k proc).stack_page)
  change_proc proc (restacked sp argc at)
  modify (λ k. record k { trap_frame = copy_trap_frame k.trap_frame (proc_at k proc).trap })
  show_name program.name (proc_at k proc).procfs_name_file
  with_proc proc release
  pure (pos argc)

-- Behind the call of `kalloc`.
abbrev pub exec_on : Machine → (proc : ℕ) → Program → (argv : List (List ℕ)) → (sp : ℕ) → M Exec ℤ
exec_on c proc program argv sp s =
    if sp == 0
    then on_kernel (refuse_exec proc enomem) s
    else (let (at, bytes) = copy_argv c.word_size (top_of_sp c sp) argv s.bytes in
        on_kernel
          (change_proc proc (renamed c program sp)
            >> replace_stack proc sp (length argv) program at)
          (record s { bytes = bytes }))

abbrev pub exec_program :
    Machine → (site proc : ℕ) → (argv : List (List ℕ)) → Option Program → M Exec ℤ
exec_program c site proc argv none = on_kernel (refuse_exec proc enoent)
exec_program c site proc argv (some program) = do
  s ← get
  sp ← on_kernel (on_mem (kalloc site (proc_at s.kernel proc).pid))
  exec_on c proc program argv sp

abbrev pub exec_file :
    Machine
    → (site proc : ℕ) → (programs : List Program) → (argv : List (List ℕ)) → Option (List ℕ)
    → M Exec ℤ
exec_file c site proc programs argv none = on_kernel (refuse_exec proc einval)
exec_file c site proc programs argv (some filename) =
    exec_program c site proc argv (find_user_program programs filename)

pub proc_execv :
    Machine
    → (site : ℕ) → (programs : List Program) → (filename : Option (List ℕ))
    → (argv : Option (List (List ℕ))) → M Exec ℤ
proc_execv c site programs filename argv = do
  proc ← on_kernel myproc
  on_kernel (with_proc proc acquire)
  exec_file c site proc programs (args_of argv) filename
