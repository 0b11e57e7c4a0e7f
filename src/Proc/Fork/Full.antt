-- ===== src/Proc/Fork/Full.antt =====
-- `proc_fork` with no free slot.
use riscv_hobby_os.Base.{
  ℕ, ◌≡◌, refl, ap, ◌∙◌, false, none, some, fault, null_deref, >>=-done, length, points_to,
}
use riscv_hobby_os.Kernel.{Kernel, proc_at, myproc}
use riscv_hobby_os.Proc.Table.{alloc_process}
use riscv_hobby_os.Proc.Table.Slots.{first_slot}
use riscv_hobby_os.Proc.Table.Alloc.{free_slot, allocated, alloc_process-allocated}
use riscv_hobby_os.Proc.Fork.{Machine, save_trap, fork_into, proc_fork}

-- With the process table and every process but the running one unlocked, and no slot available
-- (the state in which the trap frame has been saved counts), `proc_fork` stops at the null child.
proc_fork_full :
    (c : Machine) (parent : ℕ) (k : Kernel)
    → k.cur ≡ some parent
    → k.table_lock ≡ 0
    → ((i : ℕ) → points_to k.cur i ≡ false → (proc_at (save_trap parent k) i).lock ≡ 0)
    → first_slot (length (save_trap parent k).procs) 0 (free_slot (save_trap parent k)) ≡ none
    → proc_fork c k ≡ fault null_deref
unfolding proc_fork
proc_fork_full c parent k e t u full = >>=-done myproc _ k {a = parent} {s' = k} (rw e refl) (
    >>=-done alloc_process (fork_into c parent) (save_trap parent k) {a = none}
      {s' = save_trap parent k}
      (alloc_process-allocated (save_trap parent k) t u ∙ ap (allocated (save_trap parent k)) full)
      refl)
