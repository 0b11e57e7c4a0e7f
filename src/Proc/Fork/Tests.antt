-- ===== src/Proc/Fork/Tests.antt =====
-- Forking at concrete kernels.
use riscv_hobby_os.Base.{
  ℕ, ◌≡◌, refl, zero, suc, none, some, [], ◌∷◌, done, minus, get_elem?, ◌+◌, ◌*◌, arith,
}
use riscv_hobby_os.Kernel.{Kernel}
use riscv_hobby_os.Kernel.Examples.{some_kernel}
use riscv_hobby_os.Errno.{enomem}
use riscv_hobby_os.Page.{Page, PagedMem, no_pid, count_free_pages, count_alloced_pages}
use riscv_hobby_os.Page.Layout.{IsValid}
use riscv_hobby_os.Proc.Fork.{Machine, init_proc}
use riscv_hobby_os.Proc.Fork.Memory.{named, init_proc_no_memory}

abbrev machine : Machine
machine = record {
  word_size = 8;
  page_size = 4096;
  user_stack_size = 4096;
  forkret = 2048;
  sp_site = 1;
  ksp_site = 2;
}

abbrev one_free : Kernel
one_free = record some_kernel {
  mem = record {
    lock = 0;
    pages = record { ptr = 4096; flags = 0; site = 0; pid = no_pid } ∷ [];
    unclaimed_start = 4000;
    unclaimed_end = 4096;
  };
}

one_free-IsValid : IsValid 4096 4096 one_free.mem
one_free-IsValid = record {
  unlocked = refl;
  laid = laid';
  not_null = omega arith;
  size_pos = omega arith;
}
  where
    laid' : (i : ℕ) (p : Page) → get_elem? one_free.mem.pages i ≡ some p → p.ptr ≡ 4096 + i * 4096
    laid' zero p e = ground (arith, e)
    laid' (suc i) p e = ground (arith, e)

init_proc_no_memory_example :
    (mem : PagedMem) × (init_proc machine 2 100 none one_free
      ≡ done (minus enomem) (record (named 2 one_free) { mem = mem }))
    × IsValid 4096 4096 mem
    × (count_free_pages mem ≡ count_free_pages one_free.mem)
    × ((other : ℕ) → count_alloced_pages other mem ≡ count_alloced_pages other one_free.mem)
unfolding count_free_pages
init_proc_no_memory_example =
    init_proc_no_memory machine 4096 4096 2 100 none one_free refl one_free-IsValid (omega arith)
