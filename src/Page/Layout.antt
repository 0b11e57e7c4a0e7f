-- ===== src/Page/Layout.antt =====
-- `init_paged_memory` lays the pages out one after another, and `copy_page` copies one.
use native.Mathlib.Nat.{mul-div_cancel}
use riscv_hobby_os.Base.{
  ℕ, zero, suc, ◌+◌, ◌*◌, ◌/◌, ◌≤◌, ◌<◌, ◌≡◌, refl, ◌∙◌, sym, ap, some, List, ◌∷◌, arith, ltb,
  length, get_elem?, count, Bool-cases, ◌⊎◌, inl, inr,
}
use riscv_hobby_os.Page.{
  Page, PagedMem, num_pages, init_pages, init_paged_memory, is_free, count_free_pages, page_free,
  page_round_up, copy_words, copy_page,
}

-- The i-th page lies `i` pages above the first.
abbrev pub IsLaid : (base page_size : ℕ) → List Page → Type 0
IsLaid base page_size pages =
    (i : ℕ) (p : Page) → get_elem? pages i ≡ some p → p.ptr ≡ base + i * page_size

pub record IsValid (base page_size : ℕ) (m : PagedMem) : Type 0 where
  pub unlocked : m.lock ≡ 0
  pub laid : IsLaid base page_size m.pages
  pub not_null : 0 < base
  pub size_pos : 0 < page_size

-- What the loop has built: pages in a row, free, below `end`, and no more than there is room for.
record Built (page_size end room mem : ℕ) (pages : List Page) : Type 0 where
  laid : IsLaid mem page_size pages
  below : (i : ℕ) (p : Page) → get_elem? pages i ≡ some p → p.ptr < end
  all_free : count is_free pages ≡ length pages
  fits : length pages ≤ room
  full : (length pages ≡ room) ⊎ (end ≤ mem + length pages * page_size)

module _ (page_size end : ℕ) where
  cons-Built :
      (room mem : ℕ) (p : Page) (pages : List Page)
      → p.ptr ≡ mem
      → p.flags ≡ page_free
      → mem < end
      → Built page_size end room (mem + page_size) pages
      → Built page_size end (suc room) mem (p ∷ pages)
  cons-Built room mem p pages e f h b = record {
    laid = laid';
    below = below';
    all_free = ground (arith, b.all_free);
    fits = omega (arith, b.fits);
    full = elim b.full [ inl t ↦ inl (omega arith) | inr t ↦ inr (omega arith) ];
  }
    where
      laid' : IsLaid mem page_size (p ∷ pages)
      laid' zero q g = ground arith
      laid' (suc i) q g = grind (arith, b.laid i q g)

      below' : (i : ℕ) (q : Page) → get_elem? (p ∷ pages) i ≡ some q → q.ptr < end
      below' zero q g = ground arith
      below' (suc i) q g = b.below i q g

  init_pages-Built :
      (room mem : ℕ) → Built page_size end room mem (init_pages page_size end room mem)
  unfolding init_pages
  init_pages-Built zero mem = record {
    laid = λ i p e. ground arith;
    below = λ i p e. ground arith;
    all_free = refl;
    fits = omega arith;
    full = inl refl;
  }
  init_pages-Built (suc room) mem = elim (Bool-cases (ltb mem end)) [
    | inl t ↦
        rw t (
          cons-Built room mem _ _ refl refl (ground arith)
            (init_pages-Built room (mem + page_size)))
    | inr f ↦ rw f (record {
      laid = λ i p e. ground arith;
      below = λ i p e. ground arith;
      all_free = refl;
      fits = omega arith;
      full = inr (ground arith);
    })
  ]

-- After `init_paged_memory` the table is unlocked and valid from `heap_start` rounded up, its pages
-- all start below the end of memory and are all free, there are at most `max_pages` of them, and
-- fewer only where the memory is used up.
pub init_paged_memory-IsValid :
    (page_size max_pages heap_start paged_mem_end : ℕ)
    → 0 < page_size
    → let m = init_paged_memory page_size max_pages heap_start paged_mem_end in
      let base = page_round_up page_size heap_start in
      IsValid base page_size m
      × (heap_start < base)
      × ((i : ℕ) (p : Page) → get_elem? m.pages i ≡ some p → p.ptr < paged_mem_end)
      × (count_free_pages m ≡ num_pages m)
      × (num_pages m ≤ max_pages)
      × ((num_pages m ≡ max_pages) ⊎ (paged_mem_end ≤ base + num_pages m * page_size))
unfolding init_paged_memory count_free_pages
init_paged_memory-IsValid page_size max_pages heap_start paged_mem_end h = (
  record { unlocked = refl; laid = b.laid; not_null = omega arith; size_pos = h },
  omega arith,
  b.below,
  b.all_free,
  b.fits,
  b.full,
)
  where
    b :
        Built page_size paged_mem_end max_pages
          (page_round_up page_size heap_start)
          (init_pages page_size paged_mem_end max_pages (page_round_up page_size heap_start))
    b = init_pages-Built page_size paged_mem_end max_pages _

-- Two entries of a valid table with one address are one entry.
pub same_page :
    {base page_size : ℕ} {m : PagedMem} (i j : ℕ) (p q : Page)
    → IsValid base page_size m
    → get_elem? m.pages i ≡ some p
    → get_elem? m.pages j ≡ some q
    → p.ptr ≡ q.ptr
    → i ≡ j
same_page {page_size} i j p q v g h e =
    sym (mul-div_cancel i v.size_pos)
    ∙ ap (λ t. t / page_size) (omega (arith, v.laid i p g, v.laid j q h))
    ∙ mul-div_cancel j v.size_pos

copy_words-outside :
    (n dst src a : ℕ) (mem : ℕ → ℕ) → (a < dst) ⊎ (dst + n ≤ a) → copy_words n dst src mem a ≡ mem a
unfolding copy_words
copy_words-outside zero dst src a mem h = refl
copy_words-outside (suc n) dst src a mem h =
    copy_words-outside n (dst + 1) (src + 1) a _ (ground arith) ∙ ground arith

copy_words-inside :
    (n dst src k : ℕ) (mem : ℕ → ℕ)
    → (src + n ≤ dst) ⊎ (dst + n ≤ src)
    → k < n
    → copy_words n dst src mem (dst + k) ≡ mem (src + k)
unfolding copy_words
copy_words-inside zero dst src k mem h lt = elim lt [ ]
copy_words-inside (suc n) dst src zero mem h lt =
    copy_words-outside n (dst + 1) (src + 1) (dst + 0) _ (inl (omega arith)) ∙ ground arith
copy_words-inside (suc n) dst src (suc k) mem h lt =
    let e : dst + suc k ≡ dst + 1 + k = omega arith in
    rw e (copy_words-inside n (dst + 1) (src + 1) k _ (omega arith) (omega arith) ∙ ground arith)

-- `copy_page` makes the destination page equal to the source page, word for word, and changes no
-- other word, if the two pages do not overlap.
copy_page_lem :
    (page_words dst src : ℕ) (mem : ℕ → ℕ)
    → (src + page_words ≤ dst) ⊎ (dst + page_words ≤ src)
    → ((k : ℕ) → k < page_words → copy_page page_words dst src mem (dst + k) ≡ mem (src + k))
      × ((a : ℕ) → (a < dst) ⊎ (dst + page_words ≤ a) → copy_page page_words dst src mem a ≡ mem a)
unfolding copy_page
copy_page_lem page_words dst src mem h = (
  λ k lt. copy_words-inside page_words dst src k mem h lt,
  λ a out. copy_words-outside page_words dst src a mem out,
)
