-- ===== src/Syscall/Tests.antt =====
-- A call of number 99, for which there is no handler.
use riscv_hobby_os.Base.{
  inr, ◌≡◌, refl, ◌==◌, none, some, [], ◌∷◌, done, replicate, set, if◌then◌else◌, arith, pure, pos,
}
use riscv_hobby_os.Errno.{enosys}
use riscv_hobby_os.Kernel.{Kernel, running, no_proc}
use riscv_hobby_os.Kernel.Examples.{some_kernel}
use riscv_hobby_os.Proc.Fork.{Machine, magic_sentinel, reg_sp}
use riscv_hobby_os.Syscall.{Vector, syscall, reg_a7}
use riscv_hobby_os.Syscall.Unknown.{stepped, refused, patched, syscall_unknown}

abbrev machine : Machine
machine = record {
  word_size = 8;
  page_size = 4096;
  user_stack_size = 4096;
  forkret = 2048;
  sp_site = 1;
  ksp_site = 2;
}

-- Number 2 answers 7.
abbrev vector : Vector
vector nr = if nr == 2 then some (pure (pos 7)) else none

abbrev calling : Kernel
calling = record some_kernel {
  ram = λ w. if w == 512 then magic_sentinel else 0;
  procs =
      record no_proc {
        state = running;
        pid = 4;
        stack_page = 8192;
        magic = 512;
        perrno = 1535;
        ctx = replicate 14 0;
      }
      ∷ [];
  trap_frame = set (set (replicate 32 0) reg_a7 99) reg_sp 9000;
}

syscall_unknown_example :
    syscall machine vector 120 4096 calling
    ≡ done tt (patched 0 4096 (refused machine 0 enosys (stepped machine 0 calling)))
syscall_unknown_example =
    syscall_unknown machine vector 120 4096 0 calling refl (omega arith) (omega arith) refl
      (inr (inr refl))
