-- ===== src/Page/Tests.antt =====
-- The page table of a small machine, and the theorems at it.
use riscv_hobby_os.Base.{
  ℕ, zero, suc, ◌+◌, ◌*◌, ◌≤◌, ◌<◌, ◌≡◌, refl, ◌⊎◌, some, [], ◌∷◌, arith, get_elem?, done, fault,
  deadlock,
}
use riscv_hobby_os.Page.{
  Page, PagedMem, num_pages, init_paged_memory, allocate_page, release_page, count_free_pages,
  count_alloced_pages, page_usermem, no_pid,
}
use riscv_hobby_os.Page.Layout.{IsValid, init_paged_memory-IsValid}
use riscv_hobby_os.Page.Laws.{Allocated, allocate_page-Allocated, release_page-allocate_page}

-- Memory from 1000 to 2700 with pages of 512 bytes: two pages fit from 1024 on, and a third begins.
abbrev fresh : PagedMem
fresh = record {
  lock = 0;
  pages = page 1024 ∷ page 1536 ∷ page 2048 ∷ page 2560 ∷ [];
  unclaimed_start = 1000;
  unclaimed_end = 1024;
}
  where
    page : ℕ → Page
    page a = record { ptr = a; flags = 0; site = 0; pid = no_pid }

init_runs : init_paged_memory 512 32 1000 2700 ≡ fresh
unfolding init_paged_memory
init_runs = refl

-- One page of two is in use by process 7.
abbrev pub half_used : PagedMem
half_used = record {
  lock = 0;
  pages =
      record { ptr = 1024; flags = 1; site = 9; pid = 7 }
      ∷ record { ptr = 1536; flags = 0; site = 0; pid = no_pid }
      ∷ [];
  unclaimed_start = 1000;
  unclaimed_end = 1024;
}

allocate_runs :
    allocate_page 5 8 page_usermem half_used
    ≡ done 1536 (record half_used {
      pages =
          record { ptr = 1024; flags = 1; site = 9; pid = 7 }
          ∷ record { ptr = 1536; flags = 3; site = 5; pid = 8 }
          ∷ [];
    })
unfolding allocate_page
allocate_runs = refl

-- With the lock held the call never returns.
allocate_held : allocate_page 5 8 0 (record half_used { lock = 1 }) ≡ fault deadlock
unfolding allocate_page
allocate_held = refl

half_used_laid : (i : ℕ) (p : Page) → get_elem? half_used.pages i ≡ some p → p.ptr ≡ 1024 + i * 512
half_used_laid zero p e = ground arith
half_used_laid (suc zero) p e = ground arith
half_used_laid (suc (suc i)) p e = ground arith

pub half_used-IsValid : IsValid 1024 512 half_used
half_used-IsValid = record {
  unlocked = refl;
  laid = half_used_laid;
  not_null = omega arith;
  size_pos = omega arith;
}

init_paged_memory-IsValid_example :
    let m = init_paged_memory 512 32 1000 2700 in
    IsValid 1024 512 m
    × (1000 < 1024)
    × ((i : ℕ) (p : Page) → get_elem? m.pages i ≡ some p → p.ptr < 2700)
    × (count_free_pages m ≡ num_pages m)
    × (num_pages m ≤ 32)
    × ((num_pages m ≡ 32) ⊎ (2700 ≤ 1024 + num_pages m * 512))
init_paged_memory-IsValid_example = init_paged_memory-IsValid 512 32 1000 2700 (omega arith)

allocate_page-Allocated_example :
    (ptr : ℕ) × (m' : PagedMem) × (allocate_page 5 8 page_usermem half_used ≡ done ptr m')
    × Allocated 1024 512 5 8 page_usermem half_used ptr m'
unfolding count_free_pages
allocate_page-Allocated_example =
    allocate_page-Allocated 1024 512 5 8 page_usermem half_used half_used-IsValid (omega arith)

release_page-allocate_page_example :
    (ptr : ℕ) × (m' : PagedMem) × (m'' : PagedMem) × (allocate_page 5 8 0 half_used ≡ done ptr m')
    × (release_page ptr m' ≡ done tt m'')
    × IsValid 1024 512 m''
    × (count_free_pages m'' ≡ count_free_pages half_used)
    × ((other : ℕ) → count_alloced_pages other m'' ≡ count_alloced_pages other half_used)
unfolding count_free_pages
release_page-allocate_page_example =
    release_page-allocate_page 1024 512 5 8 0 half_used half_used-IsValid (omega arith)

pub half_used_has_free : 0 < count_free_pages half_used
unfolding count_free_pages
half_used_has_free = omega arith
