-- ===== src/Syscall.antt =====
-- src/syscall.c: the dispatch of a system call by its number. The vector of the handlers, which
-- src/syscalls.c holds, is a parameter; a handler gives the `int32_t` that it returns. Interrupts and the
-- return to the user, which `ret_to_user` ends with, are not part of the state. No MMU: `va2pa` is
-- the identity.
pub mod Unknown
mod Tests
use riscv_hobby_os.Base.{
  ℕ, ◌+◌, ◌-◌, ◌%◌, ◌^◌, Option, none, some, List, M, pure, fails, panicked, get, modify, ◌>>=◌,
  ◌>>◌, ◌==◌, ltb, leb, if◌then◌else◌, get_or, set, ℤ, pos, negsuc,
}
use riscv_hobby_os.Errno.{efault, enosys}
use riscv_hobby_os.Kernel.{Process, Kernel, proc_at, change_proc, set_errno, myproc, reg_a0}
use riscv_hobby_os.Proc.Fork.{Machine, word_mod, reg_sp, trap_pc, magic_sentinel}

abbrev pub reg_a7 : ℕ
reg_a7 = 16

abbrev pub Vector : Type 0
Vector = ℕ → Option (M Kernel ℤ)

-- `int nr = trap_frame.regs[REG_A7]`: `none` where it is negative.
abbrev pub number_of : ℕ → Option ℕ
number_of a7 = if ltb (a7 % 2 ^ 32) (2 ^ 31) then some (a7 % 2 ^ 32) else none

-- `nr >= 0 && nr <= SYSCALL_VECTOR_LEN && syscall_vector[nr] != 0`
abbrev pub find_handler : Vector → (vector_len : ℕ) → Option ℕ → Option (M Kernel ℤ)
find_handler vector vector_len none = none
find_handler vector vector_len (some nr) = if leb nr vector_len then vector nr else none

-- An `int32_t` in a register: the sign is extended.
abbrev pub register_of : Machine → ℤ → ℕ
register_of c (pos n) =
    if ltb (n % 2 ^ 32) (2 ^ 31) then n % 2 ^ 32 else n % 2 ^ 32 + (word_mod c - 2 ^ 32)
register_of c (negsuc n) = word_mod c - (n + 1)

abbrev pub set_trap : (reg value : ℕ) → Kernel → Kernel
set_trap reg value k = record k { trap_frame = set k.trap_frame reg value }

abbrev pub trap_reg : Kernel → ℕ → ℕ
trap_reg k reg = get_or k.trap_frame reg 0

-- The error that a call ends with before it reaches a handler, or instead of one.
abbrev pub refuse : Machine → (proc code : ℕ) → M Kernel (Unit {0})
refuse c proc code = modify (set_trap reg_a0 (register_of c (negsuc 0))) >> set_errno proc code

abbrev pub call : Machine → (proc : ℕ) → Option (M Kernel ℤ) → M Kernel (Unit {0})
call c proc none = refuse c proc enosys
call c proc (some handler) = handler >>= (λ r. modify (set_trap reg_a0 (register_of c r)))

-- `*proc->magic`, a `uint32_t`
abbrev pub sentinel : Kernel → ℕ → ℕ
sentinel k proc = k.ram (proc_at k proc).magic % 2 ^ 32

pub patch_proc_sp : (proc sp : ℕ) → M Kernel (Unit {0})
patch_proc_sp proc sp = change_proc proc (λ p. record p { ctx = set p.ctx reg_sp sp })

-- Behind the call: the check of the kernel's stack.
abbrev pub check_stack : Machine → (proc kernel_sp : ℕ) → M Kernel (Unit {0})
check_stack c proc kernel_sp = do
  k ← get
  if sentinel k proc == magic_sentinel
      then patch_proc_sp proc kernel_sp
      else refuse c proc efault >> fails panicked

-- `*proc->perrno = 0; trap_frame.pc += 4`
abbrev pub step_over : Machine → (proc : ℕ) → M Kernel (Unit {0})
step_over c proc = do
  set_errno proc 0
  modify (λ k. set_trap trap_pc ((trap_reg k trap_pc + 4) % word_mod c) k)

pub syscall : Machine → Vector → (vector_len kernel_sp : ℕ) → M Kernel (Unit {0})
syscall c vector vector_len kernel_sp = do
  proc ← myproc
  step_over c proc
  k ← get
  if ltb (trap_reg k reg_sp) (proc_at k proc).stack_page then refuse c proc efault else (do
    call c proc (find_handler vector vector_len (number_of (trap_reg k reg_a7)))
    check_stack c proc kernel_sp)
