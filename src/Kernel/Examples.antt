-- ===== src/Kernel/Examples.antt =====
-- A small kernel: slot 0 runs, slots 1 and 3 are its children, and slot 2 is free.
use riscv_hobby_os.Base.{false, none, some, [], ◌∷◌}
use riscv_hobby_os.Kernel.{running, sleeping, zombie, proc_obj, Kernel, no_proc, no_file, no_pipe}

abbrev pub some_kernel : Kernel
some_kernel = record {
  mem = record {
    lock = 0;
    pages = record { ptr = 4096; flags = 1; site = 0; pid = 7 } ∷ [];
    unclaimed_start = 4000;
    unclaimed_end = 4096;
  };
  ram = λ w. 0;
  table_lock = 0;
  procs =
      record no_proc { state = running; pid = 4; files = some 0 ∷ none ∷ some 2 ∷ none ∷ [] }
      ∷ record no_proc { state = sleeping; pid = 5; parent = some 0; chan = proc_obj 3 }
      ∷ no_proc
      ∷ record no_proc { state = zombie; pid = 7; parent = some 0; kstack_page = 4096 }
      ∷ [];
  num_procs = 3;
  pid_counter = 8;
  cur = some 0;
  trap_frame = [];
  unsleep_scheduler = false;
  ftable_lock = 0;
  files =
      record no_file { refcount = 1 }
      ∷ no_file
      ∷ no_file
      ∷ record no_file { refcount = 1 }
      ∷ no_file
      ∷ [];
  pipes_lock = 0;
  pipes = no_pipe ∷ [];
  bifs = record { dirs = []; files = [] };
}
