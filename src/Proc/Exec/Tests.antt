-- ===== src/Proc/Exec/Tests.antt =====
-- `exec` by process 0, whose stack is the page in use of two.
use riscv_hobby_os.Base.{◌≡◌, refl, panicked, none, some, List, [], ◌∷◌, fault}
use riscv_hobby_os.Page.Tests.{half_used}
use riscv_hobby_os.Kernel.{running, no_proc}
use riscv_hobby_os.Kernel.Examples.{some_kernel}
use riscv_hobby_os.Str.{strncmp}
use riscv_hobby_os.Proc.Fork.{Machine}
use riscv_hobby_os.Proc.Exec.{Program, Exec, find_user_program}
use riscv_hobby_os.Proc.Exec.Init.{assign_init_program}

abbrev machine : Machine
machine = record {
  word_size = 8;
  page_size = 512;
  user_stack_size = 512;
  forkret = 0;
  sp_site = 1;
  ksp_site = 2;
}

abbrev shell : Program
shell = record { entry_point = 77; name = some (b's' ∷ b'h' ∷ []) }

abbrev programs : List Program
programs = shell ∷ record { entry_point = 0; name = none } ∷ []

abbrev caller : Exec
caller = record {
  kernel = record some_kernel {
    mem = half_used;
    procs =
        record no_proc { state = running; pid = 7; stack_page = 1024; procfs_name_file = some 0 }
        ∷ [];
  };
  bytes = λ a. 0;
}

-- There is no such program.
init_unknown : assign_init_program machine programs (b'l' ∷ b's' ∷ []) none caller ≡ fault panicked
unfolding assign_init_program find_user_program strncmp
init_unknown = refl
