-- ===== src/Page/Laws.antt =====
-- What one call of `allocate_page` and `release_page` does, on every path.
use Prim.Native.Nat.{bit_or, bit_or-bitwise}
use native.Mathlib.Decide.{ℕ_discrete}
use riscv_hobby_os.Base.{
  ℕ, zero, suc, ◌+◌, ◌<◌, ◌≡◌, refl, ◌≢◌, ◌∙◌, ap, some, arith, ◌==◌, get_elem?, set, Option-cases,
  inl, inr, true, false, done, find_index, find_index-some, find_index-none, count-set,
  count_of_none, get_elem?-lt, get_or-eq, get_elem?-set_self, get_elem?-set_ne, get_elem?-set_inv,
}
use riscv_hobby_os.Page.{
  Page, PagedMem, is_free, is_at, is_owned, no_pid, page_free, page_allocated, page_at, no_page,
  claim, unclaim, allocate_page, release_page, count_free_pages, count_alloced_pages,
}
use riscv_hobby_os.Page.Layout.{IsValid, IsLaid, same_page}

-- A page that is claimed is not free, whatever flags the caller asks for.
allocated_ne_free : (flags : ℕ) → bit_or flags page_allocated ≢ page_free
allocated_ne_free zero e = omega (arith, bit_or-bitwise 0 1)
allocated_ne_free (suc f) e = omega (arith, bit_or-bitwise (suc f) 1)

-- The table with the entry at `i` replaced by one with the same address stays laid out.
set-IsLaid :
    (base page_size : ℕ) (m : PagedMem) (i : ℕ) (p q : Page)
    → IsLaid base page_size m.pages
    → get_elem? m.pages i ≡ some p
    → q.ptr ≡ p.ptr
    → IsLaid base page_size (set m.pages i q)
set-IsLaid base page_size m i p q l g e j r h = elim (get_elem?-set_inv m.pages i j q h) [
  | inl (same, new) ↦ rw (← same, new, e) (l i p g)
  | inr (other, old) ↦ l j r old
]

-- What a successful allocation does: it hands out a page that was free, tags it with its owner,
-- and leaves every other page as it was.
pub record Allocated (base page_size site pid flags : ℕ) (m : PagedMem) (ptr : ℕ) (m' : PagedMem)
    : Type 0 where
  pub valid : IsValid base page_size m'
  pub not_null : ptr ≢ 0
  pub index : ℕ
  pub was : Page
  pub found : get_elem? m.pages index ≡ some was
  pub was_free : is_free was ≡ true
  pub address : was.ptr ≡ ptr
  pub now :
      get_elem? m'.pages index
      ≡ some (record { ptr = ptr; flags = bit_or flags page_allocated; site = site; pid = pid })
  pub others : (j : ℕ) → index ≢ j → get_elem? m'.pages j ≡ get_elem? m.pages j
  pub free_count : count_free_pages m ≡ count_free_pages m' + 1
  pub own_count : count_alloced_pages pid m' ≡ count_alloced_pages pid m + 1
  pub other_counts :
      (other : ℕ) → other ≢ pid → count_alloced_pages other m' ≡ count_alloced_pages other m

module _ (base page_size site pid flags : ℕ) where
  claim-Allocated :
      (m : PagedMem) (i : ℕ) (p : Page)
      → IsValid base page_size m
      → get_elem? m.pages i ≡ some p
      → is_free p ≡ true
      → Allocated base page_size site pid flags m p.ptr (claim site pid flags i m)
  unfolding count_free_pages count_alloced_pages
  claim-Allocated m i p v g f = record {
    valid = record {
      unlocked = v.unlocked;
      laid = set-IsLaid base page_size m i p q v.laid g (ap (λ r. r.ptr) e);
      not_null = v.not_null;
      size_pos = v.size_pos;
    };
    not_null = omega (arith, v.laid i p g, v.not_null);
    index = i;
    was = p;
    found = g;
    was_free = f;
    address = refl;
    now = get_elem?-set_self m.pages i q (get_elem?-lt m.pages i g) ∙ ap (λ r. some (tag r)) e;
    others = λ j ne. get_elem?-set_ne m.pages q ne;
    free_count = ground (arith, count-set is_free m.pages i q g, taken);
    own_count = ground (arith, count-set (is_owned pid) m.pages i q g, taken);
    other_counts = λ other ne. ground (arith, count-set (is_owned other) m.pages i q g, taken);
  }
    where
      tag : Page → Page
      tag r = record { ptr = r.ptr; flags = bit_or flags page_allocated; site = site; pid = pid }

      e : page_at m i ≡ p
      e = get_or-eq m.pages i no_page g

      q : Page
      q = tag (page_at m i)

      taken : (bit_or flags page_allocated == page_free) ≡ false
      taken = ground (arith, allocated_ne_free flags)

  -- If some page is free, `allocate_page` returns, with the lock released and one page handed out.
  pub allocate_page-Allocated :
      (m : PagedMem)
      → IsValid base page_size m
      → 0 < count_free_pages m
      → (ptr : ℕ) × (m' : PagedMem) × (allocate_page site pid flags m ≡ done ptr m')
        × Allocated base page_size site pid flags m ptr m'
  unfolding allocate_page count_free_pages
  allocate_page-Allocated m v h = elim (Option-cases (find_index is_free m.pages)) [
    | inl e ↦ absurd (omega (arith, count_of_none is_free m.pages e))
    | inr (i, e) ↦
        let (p, g, f) = find_index-some is_free m.pages i e in
        (
          p.ptr,
          claim site pid flags i m,
          ground (arith, v.unlocked, get_or-eq m.pages i no_page g),
          claim-Allocated m i p v g f,
        )
  ]

  -- If none is, it returns null and changes nothing.
  pub allocate_page_full :
      (m : PagedMem)
      → IsValid base page_size m
      → count_free_pages m ≡ 0
      → allocate_page site pid flags m ≡ done 0 m
  unfolding allocate_page count_free_pages
  allocate_page_full m v h = elim (Option-cases (find_index is_free m.pages)) [
    | inl e ↦ ground (arith, v.unlocked)
    | inr (i, e) ↦
        let (p, g, f) = find_index-some is_free m.pages i e in
        absurd (ground (arith, count-set is_free m.pages i (record p { flags = 1 }) g))
  ]

-- What `release_page` does with an address of a page that is in use.
pub record Released (base page_size : ℕ) (m : PagedMem) (was : Page) (m' : PagedMem) : Type 0 where
  pub valid : IsValid base page_size m'
  pub free_count : count_free_pages m' ≡ count_free_pages m + 1
  pub own_count : count_alloced_pages was.pid m' + 1 ≡ count_alloced_pages was.pid m
  pub other_counts :
      (other : ℕ) → other ≢ was.pid → count_alloced_pages other m' ≡ count_alloced_pages other m

module _ (base page_size : ℕ) where
  unclaim-Released :
      (m : PagedMem) (i : ℕ) (p : Page)
      → IsValid base page_size m
      → get_elem? m.pages i ≡ some p
      → is_free p ≡ false
      → Released base page_size m p (unclaim i m)
  unfolding count_free_pages count_alloced_pages
  unclaim-Released m i p v g f = record {
    valid = record {
      unlocked = v.unlocked;
      laid =
          set-IsLaid base page_size m i p q v.laid g
            (ap (λ r. r.ptr) (get_or-eq m.pages i no_page g));
      not_null = v.not_null;
      size_pos = v.size_pos;
    };
    free_count = ground (arith, count-set is_free m.pages i q g);
    own_count = ground (arith, count-set (is_owned p.pid) m.pages i q g);
    other_counts = λ other ne. ground (arith, count-set (is_owned other) m.pages i q g);
  }
    where
      q : Page
      q = record { ptr = (page_at m i).ptr; flags = page_free; site = 0; pid = no_pid }

  -- `release_page` of a page in use returns, with the lock released, and exactly that page is free
  -- again: it leaves its owner's count, and no other owner's.
  pub release_page-Released :
      (m : PagedMem) (i : ℕ) (p : Page)
      → IsValid base page_size m
      → get_elem? m.pages i ≡ some p
      → is_free p ≡ false
      → (release_page p.ptr m ≡ done tt (unclaim i m)) × Released base page_size m p (unclaim i m)
  unfolding release_page
  release_page-Released m i p v g f = elim (Option-cases (find_index (is_at p.ptr) m.pages)) [
    | inl e ↦
        let no : is_at p.ptr p ≡ false = find_index-none (is_at p.ptr) m.pages i e g in
        absurd (ground arith)
    | inr (j, e) ↦
        let (q, h, t) = find_index-some (is_at p.ptr) m.pages j e in
        let s : j ≡ i = same_page j i q p v h g (ground arith) in
        let e' : find_index (is_at p.ptr) m.pages ≡ some i = e ∙ ap some s in
        (ground (arith, v.unlocked, get_or-eq m.pages i no_page g), unclaim-Released m i p v g f)
  ]

  -- An address that is no page's, and one of a free page, are ignored.
  release_page_ignored :
      (m : PagedMem) (ptr : ℕ)
      → IsValid base page_size m
      → ((i : ℕ) (p : Page) → get_elem? m.pages i ≡ some p → p.ptr ≡ ptr → is_free p ≡ true)
      → release_page ptr m ≡ done tt m
  unfolding release_page
  release_page_ignored m ptr v h = elim (Option-cases (find_index (is_at ptr) m.pages)) [
    | inl e ↦ ground (arith, v.unlocked)
    | inr (j, e) ↦
        let (q, g, t) = find_index-some (is_at ptr) m.pages j e in
        ground (arith, v.unlocked, get_or-eq m.pages j no_page g, h j q g (ground arith))
  ]

  -- Releasing what an allocation has handed out.
  pub take_back :
      (site pid flags : ℕ) (m : PagedMem) (ptr : ℕ) (m' : PagedMem)
      → Allocated base page_size site pid flags m ptr m'
      → (m'' : PagedMem) × (release_page ptr m' ≡ done tt m'')
        × IsValid base page_size m''
        × (count_free_pages m'' ≡ count_free_pages m)
        × ((other : ℕ) → count_alloced_pages other m'' ≡ count_alloced_pages other m)
  take_back site pid flags m ptr m' a =
      let p : Page = record {
        ptr = ptr;
        flags = bit_or flags page_allocated;
        site = site;
        pid = pid;
      } in
      let (run', r) =
        release_page-Released m' a.index p a.valid a.now
          (ground (arith, allocated_ne_free flags)) in
      (
        unclaim a.index m',
        run',
        r.valid,
        omega (arith, r.free_count, a.free_count),
        λ other. elim (ℕ_discrete other pid) [
          | yes e ↦ rw e (omega (arith, r.own_count, a.own_count))
          | no ne ↦ r.other_counts other ne ∙ a.other_counts other ne
        ],
      )

  -- What `allocate_page` hands out, `release_page` takes back: the counts of free pages and of
  -- every owner's pages are as before the allocation.
  pub release_page-allocate_page :
      (site pid flags : ℕ) (m : PagedMem)
      → IsValid base page_size m
      → 0 < count_free_pages m
      → (ptr : ℕ) × (m' : PagedMem) × (m'' : PagedMem) × (allocate_page site pid flags m
          ≡ done ptr m')
        × (release_page ptr m' ≡ done tt m'')
        × IsValid base page_size m''
        × (count_free_pages m'' ≡ count_free_pages m)
        × ((other : ℕ) → count_alloced_pages other m'' ≡ count_alloced_pages other m)
  release_page-allocate_page site pid flags m v h =
      let (ptr, m', run, a) = allocate_page-Allocated base page_size site pid flags m v h in
      let (m'', run', v', free, owned) = take_back site pid flags m ptr m' a in
      (ptr, m', m'', run, run', v', free, owned)
