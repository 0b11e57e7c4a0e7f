-- ===== src/Proc/Table/Tests.antt =====
-- The process table at a concrete kernel: slot 0 runs, slots 1 and 3 are its children, slot 2 is free.
use riscv_hobby_os.Base.{ℕ, zero, suc, ◌≡◌, refl, some}
use riscv_hobby_os.Kernel.{proc_at}
use riscv_hobby_os.Kernel.Examples.{some_kernel}
use riscv_hobby_os.Proc.Table.{alloc_process, check_exited_children}
use riscv_hobby_os.Proc.Table.Slots.{first_slot}
use riscv_hobby_os.Proc.Table.Search.{zombie_child, reaped, check_exited_children-reaped}
use riscv_hobby_os.Proc.Table.Alloc.{free_slot, allocated, alloc_process-allocated}

all_unlocked : (i : ℕ) → (proc_at some_kernel i).lock ≡ 0
all_unlocked zero = refl
all_unlocked (suc zero) = refl
all_unlocked (suc (suc zero)) = refl
all_unlocked (suc (suc (suc zero))) = refl
all_unlocked (suc (suc (suc (suc i)))) = refl

-- The zombie child is found, and so is the free slot.
zombie_test : first_slot 4 0 (zombie_child some_kernel 0) ≡ some 3
zombie_test = refl

free_test : first_slot 4 0 (free_slot some_kernel) ≡ some 2
free_test = refl

check_exited_children-reaped_example :
    check_exited_children 0 some_kernel ≡ reaped some_kernel (some 3)
check_exited_children-reaped_example =
    check_exited_children-reaped 0 some_kernel (λ i _. all_unlocked i)

alloc_process-allocated_example : alloc_process some_kernel ≡ allocated some_kernel (some 2)
alloc_process-allocated_example = alloc_process-allocated some_kernel refl (λ i _. all_unlocked i)
