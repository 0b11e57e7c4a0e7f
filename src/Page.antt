-- ===== src/Page.antt =====
-- src/pagealloc.c: the table of physical pages. `pages` holds the first `num_pages` entries of the
-- C array, those that `init_paged_memory` has filled. A page size and `MAX_PAGES` are parameters,
-- since they differ between the machines (PAGE_SIZE is a power of two on each).
pub mod Layout
pub mod Laws
pub mod Tests
use Prim.Native.Nat.{bit_or}
use riscv_hobby_os.Base.{
  ℕ, zero, suc, ◌+◌, ◌*◌, ◌/◌, ◌^◌, ◌-◌, Bool, true, false, not, ◌&&◌, Option, none, some, List, [],
  ◌∷◌, M, done, fault, Fault, pure, ◌>>=◌, ◌>>◌, and_then, zoom, ◌==◌, ltb, if◌then◌else◌, length,
  get_or, set, find_index, count,
}
use riscv_hobby_os.Spinlock

abbrev pub page_free : ℕ
page_free = 0

abbrev pub page_allocated : ℕ
page_allocated = 1

abbrev pub page_usermem : ℕ
page_usermem = 2

-- (uint32_t)-1
abbrev pub no_pid : ℕ
no_pid = 2 ^ 32 - 1

-- `site` is the address of the allocation site's name, 0 for none.
pub record Page : Type 0 where
  pub ptr : ℕ
  pub flags : ℕ
  pub site : ℕ
  pub pid : ℕ

pub record PagedMem : Type 0 where
  pub lock : ℕ
  pub pages : List Page
  pub unclaimed_start : ℕ
  pub unclaimed_end : ℕ

abbrev pub num_pages : PagedMem → ℕ
num_pages m = length m.pages

-- `p & ~(PAGE_SIZE-1)`, at a power of two
abbrev pub page_round_down : ℕ → ℕ → ℕ
page_round_down page_size p = p / page_size * page_size

abbrev pub page_round_up : ℕ → ℕ → ℕ
page_round_up page_size p = page_round_down page_size p + page_size

-- The loop of `init_paged_memory`; `room` is MAX_PAGES - i.
init_pages : (page_size end room mem : ℕ) → List Page
init_pages page_size end zero mem = []
init_pages page_size end (suc room) mem =
    if ltb mem end
    then record { ptr = mem; flags = page_free; site = 0; pid = no_pid }
      ∷ init_pages page_size end room (mem + page_size)
    else []

-- `heap_start` is the linker's symbol. The kernel page table of an MMU is not modelled.
pub init_paged_memory : (page_size max_pages heap_start paged_mem_end : ℕ) → PagedMem
unfolding init_pages
init_paged_memory page_size max_pages heap_start paged_mem_end = record {
  lock = 0;
  pages = init_pages page_size paged_mem_end max_pages (page_round_up page_size heap_start);
  unclaimed_start = heap_start;
  unclaimed_end = page_round_up page_size heap_start;
}

abbrev pub acquire : M PagedMem (Unit {0})
acquire = zoom (λ m. m.lock) (λ l m. record m { lock = l }) Spinlock.acquire

abbrev pub release : M PagedMem (Unit {0})
release = zoom (λ m. m.lock) (λ l m. record m { lock = l }) Spinlock.release

abbrev pub is_free : Page → Bool
is_free p = p.flags == page_free

abbrev pub no_page : Page
no_page = record { ptr = 0; flags = 0; site = 0; pid = 0 }

abbrev pub page_at : PagedMem → ℕ → Page
page_at m i = get_or m.pages i no_page

-- `page->flags = flags | PAGE_ALLOCATED; page->site = site; page->pid = pid`
abbrev pub claim : (site pid flags i : ℕ) → PagedMem → PagedMem
claim site pid flags i m = record m {
  pages = set m.pages i (record {
    ptr = (page_at m i).ptr;
    flags = bit_or flags page_allocated;
    site = site;
    pid = pid;
  });
}

-- The address of the page, or 0.
pub allocate_page : (site pid flags : ℕ) → M PagedMem ℕ
allocate_page site pid flags = do
  acquire
  λ m. elim (find_index is_free m.pages) [
    | none ↦ and_then (release m) (λ _. pure 0)
    | some i ↦ and_then (release (claim site pid flags i m)) (λ _. pure (page_at m i).ptr)
  ]

abbrev pub kalloc : (site pid : ℕ) → M PagedMem ℕ
kalloc site pid = allocate_page site pid 0

-- `page->flags = PAGE_FREE; page->site = 0; page->pid = -1`
abbrev pub unclaim : ℕ → PagedMem → PagedMem
unclaim i m = record m {
  pages =
      set m.pages i (record { ptr = (page_at m i).ptr; flags = page_free; site = 0; pid = no_pid });
}

abbrev pub is_at : ℕ → Page → Bool
is_at ptr p = p.ptr == ptr

-- An address that is no page's, or a free page's, is ignored.
pub release_page : ℕ → M PagedMem (Unit {0})
release_page ptr = do
  acquire
  λ m. elim (find_index (is_at ptr) m.pages) [
    | none ↦ release m
    | some i ↦ if is_free (page_at m i) then release m else release (unclaim i m)
  ]

unfoldable pub count_free_pages : PagedMem → ℕ
count_free_pages m = count is_free m.pages

abbrev pub is_owned : ℕ → Page → Bool
is_owned pid p = not (is_free p) && p.pid == pid

pub count_alloced_pages : ℕ → PagedMem → ℕ
count_alloced_pages pid m = count (is_owned pid) m.pages

-- The loop of `copy_page` over `n` words; memory is a function from word addresses.
copy_words : (n dst src : ℕ) → (ℕ → ℕ) → ℕ → ℕ
copy_words zero dst src mem = mem
copy_words (suc n) dst src mem =
    copy_words n (dst + 1) (src + 1) (λ a. if a == dst then mem src else mem a)

pub copy_page : (page_words dst src : ℕ) → (ℕ → ℕ) → ℕ → ℕ
unfolding copy_words
copy_page page_words dst src mem = copy_words page_words dst src mem
