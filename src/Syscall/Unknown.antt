-- ===== src/Syscall/Unknown.antt =====
-- A system call whose number has no handler.
use riscv_hobby_os.Base.{
  ℕ, ◌⊎◌, inl, inr, Bool-cases, leb, ◌<◌, ◌-◌, ◌+◌, ◌%◌, ◌^◌, ◌≤◌, ◌≡◌, ◌≢◌, refl, ◌∙◌, ap, true,
  false, none, some, M, done, get_or-set_ne, set, arith, ltb, ◌==◌, if◌then◌else◌, ◌>>◌, >>=-done,
  fails, panicked,
}
use riscv_hobby_os.Errno.{efault, enosys}
use riscv_hobby_os.Kernel.{Kernel, proc_at, set_proc, write_word, myproc, reg_a0}
use riscv_hobby_os.Proc.Fork.{Machine, word_mod, reg_sp, trap_pc, magic_sentinel}
use riscv_hobby_os.Syscall.{
  Vector, number_of, find_handler, set_trap, trap_reg, refuse, call, sentinel, patch_proc_sp,
  check_stack, syscall, reg_a7,
}

-- Behind the two writes of the errno and the instruction that is stepped over.
abbrev pub stepped : Machine → (proc : ℕ) → Kernel → Kernel
stepped c proc k =
    set_trap trap_pc ((trap_reg k trap_pc + 4) % word_mod c)
      (write_word (proc_at k proc).perrno 0 k)

abbrev pub refused : Machine → (proc code : ℕ) → Kernel → Kernel
refused c proc code k = write_word (proc_at k proc).perrno code (set_trap reg_a0 (word_mod c - 1) k)

abbrev pub patched : (proc kernel_sp : ℕ) → Kernel → Kernel
patched proc kernel_sp k =
    set_proc proc (record (proc_at k proc) { ctx = set (proc_at k proc).ctx reg_sp kernel_sp }) k

module _ (c : Machine) (vector : Vector) (vector_len kernel_sp proc : ℕ) where
  abbrev run : M Kernel (Unit {0})
  run k =
      (if ltb (trap_reg k reg_sp) (proc_at k proc).stack_page
          then refuse c proc efault
          else (call c proc (find_handler vector vector_len (number_of (trap_reg k reg_a7)))
              >> check_stack c proc kernel_sp))
        k

  trap_reg-stepped :
      (reg : ℕ) (k : Kernel) → trap_pc ≢ reg → trap_reg (stepped c proc k) reg ≡ trap_reg k reg
  trap_reg-stepped reg k ne =
      get_or-set_ne k.trap_frame ((trap_reg k trap_pc + 4) % word_mod c) 0 ne

  starts :
      (k : Kernel)
      → k.cur ≡ some proc
      → syscall c vector vector_len kernel_sp k ≡ run (stepped c proc k)
  unfolding syscall
  starts k e = >>=-done myproc _ k {a = proc} {s' = k} (rw e refl) refl

  above : (a b : ℕ) → b ≤ a → ltb a b ≡ false
  above a b h = ground arith

  still : (w v : ℕ) (k : Kernel) → w ≢ v → (write_word v enosys (write_word v 0 k)).ram w ≡ k.ram w
  still w v k ne = ground (arith, ne)

  stack_fine :
      (k : Kernel)
      → (proc_at k proc).magic ≢ (proc_at k proc).perrno
      → sentinel k proc ≡ magic_sentinel
      → check_stack c proc kernel_sp (refused c proc enosys (stepped c proc k))
        ≡ done tt (patched proc kernel_sp (refused c proc enosys (stepped c proc k)))
  unfolding patch_proc_sp
  stack_fine k ne e =
      ap
        (λ b.
          (if b then patch_proc_sp proc kernel_sp else refuse c proc efault >> fails panicked)
            (refused c proc enosys (stepped c proc k)))
        (same (sentinel (refused c proc enosys (stepped c proc k)) proc)
          (ap (λ w. w % 2 ^ 32) (still (proc_at k proc).magic (proc_at k proc).perrno k ne) ∙ e))
    where
      same : (s : ℕ) → s ≡ magic_sentinel → (s == magic_sentinel) ≡ true
      same s e = ground (arith, e)

no_handler :
    (vector : Vector) (vector_len a7 : ℕ)
    → (2 ^ 31 ≤ a7 % 2 ^ 32) ⊎ ((vector_len < a7 % 2 ^ 32) ⊎ (vector (a7 % 2 ^ 32) ≡ none))
    → find_handler vector vector_len (number_of a7) ≡ none
no_handler vector vector_len a7 (inl h) =
    let n : ltb (a7 % 2 ^ 32) (2 ^ 31) ≡ false = ground (arith, h) in rw n refl
no_handler vector vector_len a7 (inr (inl h)) = elim (Bool-cases (ltb (a7 % 2 ^ 32) (2 ^ 31))) [
  | inl e ↦ let n : leb (a7 % 2 ^ 32) vector_len ≡ false = ground (arith, h) in rw e (rw n refl)
  | inr e ↦ rw e refl
]
no_handler vector vector_len a7 (inr (inr h)) = elim (Bool-cases (ltb (a7 % 2 ^ 32) (2 ^ 31))) [
  | inl e ↦ elim (Bool-cases (leb (a7 % 2 ^ 32) vector_len)) [
    | inl f ↦ rw e (rw f h)
    | inr f ↦ rw e (rw f refl)
  ]
  | inr e ↦ rw e refl
]

-- Where a process is current, the user's stack pointer is not below its page, the kernel's sentinel stands at a word
-- that is not errno's, and the number, the lower 32 bits of a7, is negative, above the vector's length or has no
-- handler there, `syscall` steps over the `ecall`, returns -1 with
-- ENOSYS, and saves the kernel's stack pointer; nothing else changes.
pub syscall_unknown :
    (c : Machine) (vector : Vector) (vector_len kernel_sp proc : ℕ) (k : Kernel)
    → k.cur ≡ some proc
    → (proc_at k proc).stack_page ≤ trap_reg k reg_sp
    → (proc_at k proc).magic ≢ (proc_at k proc).perrno
    → sentinel k proc ≡ magic_sentinel
    → (2 ^ 31 ≤ trap_reg k reg_a7 % 2 ^ 32)
      ⊎ ((vector_len < trap_reg k reg_a7 % 2 ^ 32) ⊎ (vector (trap_reg k reg_a7 % 2 ^ 32) ≡ none))
    → syscall c vector vector_len kernel_sp k
      ≡ done tt (patched proc kernel_sp (refused c proc enosys (stepped c proc k)))
syscall_unknown c vector vector_len kernel_sp proc k e h ne m u =
    starts c vector vector_len kernel_sp proc k e
    ∙ ap (λ b. (if b then refuse c proc efault else both) (stepped c proc k)) fine
    ∙ ap (λ o. (call c proc o >> check_stack c proc kernel_sp) (stepped c proc k)) missing
    ∙ stack_fine c vector vector_len kernel_sp proc k ne m
  where
    both : M Kernel (Unit {0})
    both =
        call c proc
          (find_handler vector vector_len (number_of (trap_reg (stepped c proc k) reg_a7)))
        >> check_stack c proc kernel_sp

    fine : ltb (trap_reg (stepped c proc k) reg_sp) (proc_at k proc).stack_page ≡ false
    fine = above c vector vector_len kernel_sp proc _ _ (
        omega
          (arith, h, trap_reg-stepped c vector vector_len kernel_sp proc reg_sp k (omega arith)))

    missing : find_handler vector vector_len (number_of (trap_reg (stepped c proc k) reg_a7)) ≡ none
    missing =
        ap (λ a. find_handler vector vector_len (number_of a))
          (trap_reg-stepped c vector vector_len kernel_sp proc reg_a7 k (omega arith))
        ∙ no_handler vector vector_len (trap_reg k reg_a7) u
