-- ===== src/PipeTable/Leak.antt =====
-- What `alloc_pipe` does when every pipe is in use.
use riscv_hobby_os.Base.{
  ℕ, ◌<◌, ◌≡◌, ◌≢◌, ◌∙◌, sym, ap, false, Option, none, Run, done, fault, arith, ◌>>◌, >>-done,
  >>=-done, find_index, ◌==◌, if◌then◌else◌, pure, M,
}
use riscv_hobby_os.Page.{PagedMem, count_free_pages, kalloc}
use riscv_hobby_os.Page.Layout.{IsValid}
use riscv_hobby_os.Page.Laws.{Allocated, allocate_page-Allocated}
use riscv_hobby_os.Kernel.{Kernel, on_mem, with_pipes, acquire}
use riscv_hobby_os.Kernel.Locks.{lock_pipes}
use riscv_hobby_os.PipeTable.{claim_pipe, no_flags, alloc_pipe}

abbrev put_mem : Kernel → Run PagedMem ℕ → Run Kernel ℕ
put_mem k (done a m) = done a (record k { mem = m })
put_mem k (fault f) = fault f

-- With the table of pipes unlocked and every pipe in use, but a page free, `alloc_pipe` returns no pipe and changes no
-- pipe, and yet a page that was free is now allocated to the process: one free page less, and one more of its own.
pub alloc_pipe_leaks :
    (base page_size site pid : ℕ) (k : Kernel)
    → IsValid base page_size k.mem
    → 0 < count_free_pages k.mem
    → k.pipes_lock ≡ 0
    → find_index no_flags k.pipes ≡ none
    → (ptr : ℕ) × (m : PagedMem) × (alloc_pipe site pid k ≡ done none (record k { mem = m }))
      × Allocated base page_size site pid 0 k.mem ptr m
unfolding alloc_pipe
alloc_pipe_leaks base page_size site pid k v h u n =
    let (ptr, m, run, a) = allocate_page-Allocated base page_size site pid 0 k.mem v h in
    (
      ptr,
      m,
      >>=-done (on_mem (kalloc site pid)) _ k (ap (put_mem k) run) (no_pipe_left ptr m a.not_null),
      a,
    )
  where
    search : ℕ → M Kernel (Option ℕ)
    search ptr k' = claim_pipe ptr (find_index no_flags k'.pipes) k'

    no_pipe_left :
        (ptr : ℕ) (m : PagedMem)
        → ptr ≢ 0
        → (if ptr == 0 then pure none else with_pipes acquire >> search ptr) (record k { mem = m })
          ≡ done none (record k { mem = m })
    no_pipe_left ptr m z =
        let not_zero : (ptr == 0) ≡ false = ground (arith, z) in
        rw not_zero (
          >>-done (with_pipes acquire) (search ptr) (record k { mem = m })
            (lock_pipes (record k { mem = m }) u)
            (ap (λ o. claim_pipe ptr o (record k { mem = m; pipes_lock = 1 })) n
              ∙ ap (λ l. done none (record k { mem = m; pipes_lock = l })) (sym u)))
