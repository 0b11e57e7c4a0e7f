-- ===== src/Vm.antt =====
-- src/vm.c and the page table entries of include/riscv.h: the Sv39 page tables of a 64-bit machine.
-- `ram` is the physical memory by the number of a 64-bit word; a page has 4096 bytes, so 512 words.
-- The symbols of the linker are a record, since each image has its own.
pub mod Bits
pub mod Words
pub mod Path
pub mod Map
pub mod Range
pub mod Tables
mod Tests
use Prim.Native.Nat.{bit_or}
use riscv_hobby_os.Base.{
  ℕ, zero, suc, ◌+◌, ◌*◌, ◌/◌, ◌%◌, ◌^◌, ◌-◌, Bool, not, ◌&&◌, ◌||◌, Option, none, some, M, pure,
  fails, panicked, deadlock, get, modify, zoom, ◌>>=◌, ◌>>◌, ◌==◌, if◌then◌else◌,
}
use riscv_hobby_os.Page.{PagedMem, kalloc, release_page, page_round_down}

pub record Vm : Type 0 where
  pub mem : PagedMem
  pub ram : ℕ → ℕ

abbrev pub page_size : ℕ
page_size = 4096

-- PAGE_SIZE/sizeof(regsize_t)
abbrev pub num_ptes : ℕ
num_ptes = 512

abbrev pub pte_v : ℕ
pte_v = 1

abbrev pub pte_a : ℕ
pte_a = 64

abbrev pub pte_d : ℕ
pte_d = 128

abbrev pub perm_kcode : ℕ
perm_kcode = 10

abbrev pub perm_kdata : ℕ
perm_kdata = 6

abbrev pub perm_urodata : ℕ
perm_urodata = 18

abbrev pub perm_ucode : ℕ
perm_ucode = 26

abbrev pub perm_udata : ℕ
perm_udata = 22

abbrev pub perm_nonleaf : ℕ
perm_nonleaf = pte_v

-- PERM_MASK
abbrev pub perm_mask : ℕ → ℕ
perm_mask pte = pte % 1024

abbrev pub phys_to_pte : ℕ → ℕ
phys_to_pte pa = pa / 2 ^ 12 * 2 ^ 10

abbrev pub pte_to_phys : ℕ → ℕ
pte_to_phys pte = pte / 2 ^ 10 * 2 ^ 12 % 2 ^ 64

abbrev pub has_v : ℕ → Bool
has_v pte = pte % 2 == 1

abbrev pub has_r : ℕ → Bool
has_r pte = pte / 2 % 2 == 1

abbrev pub has_w : ℕ → Bool
has_w pte = pte / 4 % 2 == 1

abbrev pub has_x : ℕ → Bool
has_x pte = pte / 8 % 2 == 1

abbrev pub has_u : ℕ → Bool
has_u pte = pte / 16 % 2 == 1

abbrev pub is_nonleaf : ℕ → Bool
is_nonleaf pte = has_v pte && not (has_r pte) && not (has_x pte)

abbrev pub is_valid : ℕ → Bool
is_valid pte = has_v pte || (not (has_r pte) && has_w pte)

-- VPN
abbrev pub vpn : (va level : ℕ) → ℕ
vpn va level = va / 2 ^ (12 + 9 * level) % 512

abbrev pub page_offs : ℕ → ℕ
page_offs va = va % page_size

-- The word `pagetable[i]`
abbrev pub entry : (pagetable i : ℕ) → ℕ
entry pagetable i = pagetable / 8 + i

abbrev pub write : (w value : ℕ) → (ℕ → ℕ) → ℕ → ℕ
write w value ram a = if a == w then value else ram a

-- The loop of `memset` over whole words; a page has no rest.
pub memset : (words w value : ℕ) → (ℕ → ℕ) → ℕ → ℕ
memset zero w value ram = ram
memset (suc n) w value ram = memset n (w + 1) value (write w value ram)

abbrev pub table_pte : ℕ → ℕ
table_pte pagetable = bit_or (phys_to_pte pagetable) perm_nonleaf

abbrev pub leaf_pte : (pa perm : ℕ) → ℕ
leaf_pte pa perm = bit_or (bit_or (bit_or (bit_or (phys_to_pte pa) perm) pte_a) pte_d) pte_v

abbrev pub set_entry : (pagetable i value : ℕ) → Vm → Vm
set_entry pagetable i value s = record s { ram = write (entry pagetable i) value s.ram }

abbrev pub clear_page : ℕ → Vm → Vm
clear_page page s = record s { ram = memset num_ptes (page / 8) 0 s.ram }

abbrev pub on_pages : {A : Type 0} → M PagedMem A → M Vm A
on_pages = zoom (λ s. s.mem) (λ m s. record s { mem = m })

-- `pagetable_next` behind the call of `kalloc`.
abbrev pub link_table : (pagetable i next : ℕ) → M Vm ℕ
link_table pagetable i next =
    if next == 0
    then fails panicked
    else (do modify (clear_page next); modify (set_entry pagetable i (table_pte next)); pure next)

-- A round of `map_page_sv39` above level 0: the table of the next level.
abbrev pub next_table : (site pagetable i pid pte : ℕ) → M Vm ℕ
next_table site pagetable i pid pte =
    if pte == 0
    then on_pages (kalloc site pid) >>= link_table pagetable i
    else pure (pte_to_phys pte)

-- The rounds of `map_page_sv39` from a level downwards; `site` is the name "pagetable".
pub map_level : (site level pagetable phys_addr virt_addr perm pid : ℕ) → M Vm (Unit {0})
map_level site zero pagetable phys_addr virt_addr perm pid =
    modify (set_entry pagetable (vpn virt_addr 0) (leaf_pte phys_addr perm))
map_level site (suc level) pagetable phys_addr virt_addr perm pid = do
  s ← get
  next ←
      next_table site pagetable (vpn virt_addr (suc level)) pid
        (s.ram (entry pagetable (vpn virt_addr (suc level))))
  map_level site level next phys_addr virt_addr perm pid

pub map_page_sv39 : (site pagetable phys_addr virt_addr perm pid : ℕ) → M Vm (Unit {0})
unfolding map_level
map_page_sv39 site pagetable phys_addr virt_addr perm pid =
    map_level site 2 pagetable phys_addr virt_addr perm pid

-- `fuel` bounds the rounds of the loop, which ends where `page_pa` meets `pa_end`.
pub map_range : (fuel site pagetable page_pa pa_end va perm pid : ℕ) → M Vm (Unit {0})
map_range zero site pagetable page_pa pa_end va perm pid = fails deadlock
map_range (suc fuel) site pagetable page_pa pa_end va perm pid =
    if page_pa == pa_end then pure tt else (do
      map_page_sv39 site pagetable page_pa va perm pid
      map_range fuel site pagetable ((page_pa + page_size) % 2 ^ 64) pa_end
          ((va + page_size) % 2 ^ 64) perm pid)

-- The rounds of `va2pa` that are left; none are where `level` is below 0.
pub va2pa_from : (rounds : ℕ) → (ℕ → ℕ) → (pagetable va : ℕ) → ℕ
va2pa_from zero ram pagetable va = 0
va2pa_from (suc level) ram pagetable va =
    let pte = ram (entry pagetable (vpn va level)) in
    let rest = va2pa_from level ram (pte_to_phys pte) va in
    if not (is_valid pte)
    then 0
    else if not (is_nonleaf pte)
    then bit_or (pte_to_phys pte) (page_offs va)
    else rest

pub va2pa : (ℕ → ℕ) → (pagetable va : ℕ) → ℕ
unfolding va2pa_from
va2pa ram pagetable va = va2pa_from 3 ram pagetable va
