-- ===== src/Vm/Tables.antt =====
-- Whole page tables of src/vm.c: filling the kernel's and a user's, copying and freeing them.
use Prim.Native.Nat.{bit_or}
use riscv_hobby_os.Base.{
  ℕ, zero, suc, ◌+◌, ◌*◌, ◌/◌, ◌%◌, ◌^◌, ◌-◌, ◌&&◌, ltb, List, [], ◌∷◌, M, pure, fails, deadlock,
  panicked, get, modify, ◌>>=◌, ◌>>◌, ◌==◌, if◌then◌else◌,
}
use riscv_hobby_os.Page.{Page, kalloc, release_page, page_round_down, page_round_up, no_pid}
use riscv_hobby_os.Vm.{
  Vm, page_size, num_ptes, perm_kcode, perm_kdata, perm_urodata, perm_ucode, perm_mask, has_u,
  is_nonleaf, is_valid, pte_to_phys, entry, clear_page, on_pages, map_page_sv39, map_range,
}

-- The symbols of kernel.ld, the addresses of two of the kernel's variables and of the devices.
pub record Image : Type 0 where
  pub ram_start : ℕ
  pub user_code_start : ℕ
  pub rodata_start : ℕ
  pub rodata_end : ℕ
  pub data_start : ℕ
  pub heap_start : ℕ
  pub trap_frame : ℕ
  pub paged_memory : ℕ
  pub mtime : ℕ
  pub mtimecmp_base : ℕ
  pub plic_threshold : ℕ
  pub uart_base : ℕ
  pub pagetable_site : ℕ
  pub kernel_site : ℕ

-- USR_VIRT: the mask is an `unsigned int`.
abbrev pub usr_virt : ℕ → ℕ
usr_virt pa = pa % 2 ^ 21

-- KERNEL_CODE_START
abbrev pub kernel_code_start : Image → ℕ
kernel_code_start image = image.ram_start + 512 * 8

-- PERM_KRODATA
abbrev pub perm_krodata : ℕ
perm_krodata = 2

module _ (image : Image) where
  abbrev pub map_page_id : (pagetable pa perm pid : ℕ) → M Vm (Unit {0})
  map_page_id pagetable pa perm pid = map_page_sv39 image.pagetable_site pagetable pa pa perm pid

  -- More rounds than there are pages below the end.
  abbrev pub map_whole : (pagetable pa_start pa_end va perm pid : ℕ) → M Vm (Unit {0})
  map_whole pagetable pa_start pa_end va perm pid =
      map_range (pa_end / page_size + 1) image.pagetable_site pagetable pa_start pa_end va perm pid

  abbrev pub map_range_id : (pagetable pa_start pa_end perm : ℕ) → M Vm (Unit {0})
  map_range_id pagetable pa_start pa_end perm =
      map_whole pagetable pa_start pa_end pa_start perm no_pid

  -- The loop over the pages.
  map_all : (pagetable : ℕ) → List Page → M Vm (Unit {0})
  map_all pagetable [] = pure tt
  map_all pagetable (p ∷ rest) = do
    map_page_id pagetable p.ptr perm_kdata no_pid
    map_all pagetable rest

  abbrev fill_kernel_table : (pages : List Page) → (pagetable : ℕ) → M Vm ℕ
  fill_kernel_table pages pagetable = if pagetable == 0 then fails panicked else (do
    modify (clear_page pagetable)
    map_page_id pagetable image.ram_start perm_kdata no_pid
    map_range_id pagetable (kernel_code_start image) image.user_code_start perm_kcode
    map_range_id pagetable image.rodata_start (page_round_up page_size image.rodata_end)
        perm_krodata
    map_range_id pagetable (page_round_down page_size image.data_start)
        (page_round_up page_size image.heap_start) perm_kdata
    map_all pagetable pages
    map_page_id pagetable (page_round_down page_size image.mtime) perm_kdata no_pid
    map_page_id pagetable image.mtimecmp_base perm_kdata no_pid
    map_page_id pagetable image.plic_threshold perm_kdata no_pid
    map_page_id pagetable image.uart_base perm_kdata no_pid
    pure pagetable)

  pub make_kernel_page_table : (pages : List Page) → M Vm ℕ
  unfolding map_all
  make_kernel_page_table pages =
      on_pages (kalloc image.kernel_site no_pid) >>= fill_kernel_table pages

  pub init_user_page_table : (pagetable pid : ℕ) → M Vm (Unit {0})
  init_user_page_table pagetable pid = do
    modify (clear_page pagetable)
    map_page_id pagetable image.ram_start perm_kdata pid
    map_page_id pagetable (kernel_code_start image) perm_kcode pid
    map_page_id pagetable (page_round_down page_size image.trap_frame) perm_kdata pid
    map_page_id pagetable (page_round_down page_size image.paged_memory) perm_kdata pid
    map_whole pagetable image.rodata_start image.data_start (usr_virt image.rodata_start)
        perm_urodata pid
    map_whole pagetable image.user_code_start image.rodata_start (usr_virt image.user_code_start)
        perm_ucode pid

-- A loop over the entries of a table.
abbrev pub for_ptes : (rounds i : ℕ) → (ℕ → M Vm (Unit {0})) → M Vm (Unit {0})
for_ptes zero i body = pure tt
for_ptes (suc n) i body = body i >> for_ptes n (i + 1) body

abbrev pub read_pte : (pagetable i : ℕ) → M Vm ℕ
read_pte pagetable i = do s ← get; pure (s.ram (entry pagetable i))

-- Below a table, and behind its loop; `depth` bounds the chain of tables, which is of three where the
-- entries of the last are leaves. A longer one is `deadlock`.
free_page_table_r : (depth pt level : ℕ) → M Vm (Unit {0})
free_page_table_r zero pt level = fails deadlock
free_page_table_r (suc depth) pt level = do
  for_ptes num_ptes 0 (λ i. do
    pte ← read_pte pt i
    if is_nonleaf pte
        then (do
          free_page_table_r depth (pte_to_phys pte) (level + 1)
          if ltb level 2 then on_pages (release_page (pte_to_phys pte)) else pure tt)
        else pure tt)
  first ← read_pte pt 0
  if level == 1 then on_pages (release_page (pte_to_phys first)) else pure tt

pub free_page_table : (pt : ℕ) → M Vm (Unit {0})
unfolding free_page_table_r
free_page_table pt = do free_page_table_r 3 pt 0; on_pages (release_page pt)

-- `vpn2 << 30` of an `int`: it wraps, and is extended by its sign.
abbrev pub shifted_vpn2 : ℕ → ℕ
shifted_vpn2 vpn2 =
    let low = vpn2 * 2 ^ 30 % 2 ^ 32 in if ltb low (2 ^ 31) then low else low + (2 ^ 64 - 2 ^ 32)

abbrev pub va_of : (vpn2 vpn1 vpn0 : ℕ) → ℕ
va_of vpn2 vpn1 vpn0 = bit_or (bit_or (shifted_vpn2 vpn2) (vpn1 * 2 ^ 21)) (vpn0 * 2 ^ 12)

abbrev copy_leaf : (site dst pid vpn2 vpn1 vpn0 pte : ℕ) → M Vm (Unit {0})
copy_leaf site dst pid vpn2 vpn1 vpn0 pte =
    if is_valid pte && has_u pte
    then map_page_sv39 site dst (pte_to_phys pte) (va_of vpn2 vpn1 vpn0) (perm_mask pte) pid
    else pure tt

-- The body of a loop at an entry: nothing where it is not valid.
abbrev at_valid : (pagetable i : ℕ) → (ℕ → M Vm (Unit {0})) → M Vm (Unit {0})
at_valid pagetable i body = do
  pte ← read_pte pagetable i
  if is_valid pte then body (pte_to_phys pte) else pure tt

pub copy_page_table : (site dst src pid : ℕ) → M Vm (Unit {0})
copy_page_table site dst src pid = for_ptes num_ptes 0 (λ vpn2. at_valid src vpn2 (λ src2.
    for_ptes num_ptes 0 (λ vpn1. at_valid src2 vpn1 (λ src3.
      for_ptes num_ptes 0 (λ vpn0. read_pte src3 vpn0 >>= copy_leaf site dst pid vpn2 vpn1 vpn0)))))

next_level_from : (rounds i : ℕ) → (ℕ → ℕ) → (pagetable : ℕ) → ℕ
next_level_from zero i ram pagetable = 0
next_level_from (suc n) i ram pagetable =
    let pte = ram (entry pagetable i) in
    let rest = next_level_from n (i + 1) ram pagetable in
    if is_nonleaf pte && has_u pte then pte_to_phys pte else rest

pub find_next_level_page_table : (ℕ → ℕ) → (pagetable : ℕ) → ℕ
unfolding next_level_from
find_next_level_page_table ram pagetable = next_level_from num_ptes 0 ram pagetable
