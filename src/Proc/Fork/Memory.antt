-- ===== src/Proc/Fork/Memory.antt =====
-- `init_proc` when the pages run out.
use native.Mathlib.Decide.{ℕ_discrete}
use riscv_hobby_os.Base.{
  ℕ, ◌+◌, ◌%◌, ◌^◌, ◌≤◌, ◌≡◌, ◌≢◌, refl, ◌∙◌, sym, ap, Bool, false, Option, List, M, Run, done,
  pure, >>-done, >>=-done, ◌>>=◌, ◌==◌, if◌then◌else◌, ℤ, minus, arith,
}
use riscv_hobby_os.Errno.{enomem}
use riscv_hobby_os.Page.{PagedMem, kalloc, release_page, count_free_pages, count_alloced_pages}
use riscv_hobby_os.Page.Layout.{IsValid}
use riscv_hobby_os.Page.Laws.{allocate_page-Allocated, allocate_page_full, take_back}
use riscv_hobby_os.Kernel.{Kernel, proc_at, set_proc, on_mem, with_table, acquire}
use riscv_hobby_os.Kernel.Locks.{lock_table}
use riscv_hobby_os.Proc.Table.{alloc_pid}
use riscv_hobby_os.Proc.Fork.{Machine, with_sp, with_ksp, init_proc}

abbrev counted : Kernel → Kernel
counted k = record k { pid_counter = (k.pid_counter + 1) % 2 ^ 32 }

alloc_pid-counted : (k : Kernel) → k.table_lock ≡ 0 → alloc_pid k ≡ done k.pid_counter (counted k)
unfolding alloc_pid
alloc_pid-counted k t =
    >>-done (with_table acquire) _ k (lock_table k t)
      (ap (λ v. done k.pid_counter (record (counted k) { table_lock = v })) (sym t))

pub on_mem-done :
    {A : Type 0} (m : M PagedMem A) (k : Kernel) {a : A} {mem : PagedMem}
    → m k.mem ≡ done a mem
    → on_mem m k ≡ done a (record k { mem = mem })
on_mem-done m k e = rw e refl

-- The state in which the slot has its new pid.
abbrev pub named : ℕ → Kernel → Kernel
named proc k =
    set_proc proc (record (proc_at k proc) { pid = k.pid_counter })
      (record k { pid_counter = (k.pid_counter + 1) % 2 ^ 32 })

-- Back where it was, apart from the new pid.
abbrev pub Undone : (base page_size proc : ℕ) → (k : Kernel) → M Kernel ℤ → Type 0
Undone base page_size proc k m =
    (mem : PagedMem) × (m k ≡ done (minus enomem) (record (named proc k) { mem = mem }))
    × IsValid base page_size mem
    × (count_free_pages mem ≡ count_free_pages k.mem)
    × ((other : ℕ) → count_alloced_pages other mem ≡ count_alloced_pages other k.mem)

abbrev behind_sp : Machine → (proc pc pid : ℕ) → Option (List ℕ) → M Kernel ℤ
behind_sp c proc pc pid name = on_mem (kalloc c.sp_site pid) >>= with_sp c proc pc pid name

module _ (c : Machine) (base page_size proc pc : ℕ) (name : Option (List ℕ)) (k : Kernel)
    (t : k.table_lock ≡ 0) (v : IsValid base page_size k.mem) where
  up_to_sp :
      (r : Run Kernel ℤ)
      → behind_sp c proc pc k.pid_counter name (named proc k) ≡ r
      → init_proc c proc pc name k ≡ r
  unfolding init_proc
  up_to_sp r e = >>=-done alloc_pid _ k (alloc_pid-counted k t) e

  no_page : count_free_pages k.mem ≡ 0 → Undone base page_size proc k (init_proc c proc pc name)
  no_page e = (
    k.mem,
    up_to_sp _ (
        >>=-done (on_mem (kalloc c.sp_site k.pid_counter)) (with_sp c proc pc k.pid_counter name)
          (named proc k)
          (on_mem-done (kalloc c.sp_site k.pid_counter) (named proc k)
            (allocate_page_full base page_size c.sp_site k.pid_counter 0 k.mem v e))
          refl),
    v,
    refl,
    λ other. refl,
  )

  not_null : (ptr : ℕ) → ptr ≢ 0 → (ptr == 0) ≡ false
  not_null ptr n = ground (arith, n)

  one_page : count_free_pages k.mem ≡ 1 → Undone base page_size proc k (init_proc c proc pc name)
  one_page e =
      let pid = k.pid_counter in
      let (ptr, m, run, a) =
        allocate_page-Allocated base page_size c.sp_site pid 0 k.mem v (omega (arith, e)) in
      let (m', run', v', free, owned) = take_back base page_size c.sp_site pid 0 k.mem ptr m a in
      let k1 : Kernel = record (named proc k) { mem = m } in
      (
        m',
        up_to_sp _ (
            >>=-done (on_mem (kalloc c.sp_site pid)) (with_sp c proc pc pid name) (named proc k)
              (on_mem-done (kalloc c.sp_site pid) (named proc k) run)
              (ap (λ b. branch ptr b k1) (not_null ptr a.not_null)
                ∙ >>=-done (on_mem (kalloc c.ksp_site pid)) (with_ksp c proc pc name ptr) k1
                    (on_mem-done (kalloc c.ksp_site pid) k1 (
                      allocate_page_full base page_size c.ksp_site pid 0 m a.valid
                        (omega (arith, e, a.free_count))))
                    (>>-done (on_mem (release_page ptr)) (pure (minus enomem)) k1
                      (on_mem-done (release_page ptr) k1 run') refl))),
        v',
        free,
        owned,
      )
    where
      branch : ℕ → Bool → M Kernel ℤ
      branch ptr b =
          if b
          then pure (minus enomem)
          else on_mem (kalloc c.ksp_site k.pid_counter) >>= with_ksp c proc pc name ptr

-- With the process table unlocked, a valid page table and fewer than two free pages, `init_proc`
-- returns -ENOMEM. The pages are counted as before, the free ones and those of every owner: a page
-- that it has taken, it has given back. Apart from the pages only the pid counter and the slot's pid
-- have changed.
pub init_proc_no_memory :
    (c : Machine) (base page_size proc pc : ℕ) (name : Option (List ℕ)) (k : Kernel)
    → k.table_lock ≡ 0
    → IsValid base page_size k.mem
    → count_free_pages k.mem ≤ 1
    → (mem : PagedMem) × (init_proc c proc pc name k
        ≡ done (minus enomem) (record (named proc k) { mem = mem }))
      × IsValid base page_size mem
      × (count_free_pages mem ≡ count_free_pages k.mem)
      × ((other : ℕ) → count_alloced_pages other mem ≡ count_alloced_pages other k.mem)
init_proc_no_memory c base page_size proc pc name k t v h =
    elim (ℕ_discrete (count_free_pages k.mem) 0) [
      | yes e ↦ no_page c base page_size proc pc name k t v e
      | no n ↦ one_page c base page_size proc pc name k t v (omega (arith, h, n))
    ]
