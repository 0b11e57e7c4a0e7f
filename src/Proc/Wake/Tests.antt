-- ===== src/Proc/Wake/Tests.antt =====
-- Waking at a concrete kernel, where process 1 sleeps on process 3.
use riscv_hobby_os.Base.{◌≡◌, refl, true, map, done, arith}
use riscv_hobby_os.Kernel.{proc_obj, proc_at}
use riscv_hobby_os.Kernel.Examples.{some_kernel}
use riscv_hobby_os.Proc.Wake.{proc_mark_for_wakeup}
use riscv_hobby_os.Proc.Wake.Laws.{SleepersUnlocked}
use riscv_hobby_os.Proc.Wake.All.{freed, proc_mark_for_wakeup-map}

sleepers_test : SleepersUnlocked some_kernel.procs
sleepers_test = ground arith

proc_mark_for_wakeup-map_example :
    proc_mark_for_wakeup (proc_obj 3) some_kernel
    ≡ done tt (record some_kernel {
      procs = map (freed 3 (proc_at some_kernel 3)) some_kernel.procs;
      unsleep_scheduler = true;
    })
proc_mark_for_wakeup-map_example =
    proc_mark_for_wakeup-map some_kernel 3 refl (omega arith) sleepers_test
