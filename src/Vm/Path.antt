-- ===== src/Vm/Path.antt =====
-- The tables that an address passes: those that are there and those that are still missing.
use Prim.Native.Nat.{bit_or}
use mathlib.Core.Path.{subst}
use native.Mathlib.Decide.{ℕ_discrete}
use riscv_hobby_os.Base.{
  ℕ, zero, suc, ◌*◌, ◌^◌, ◌<◌, ◌≡◌, ◌≢◌, refl, ◌∙◌, sym, ap, true, false, some, ◌==◌, arith, ◌⊎◌,
  inl, inr, get_elem?,
}
use riscv_hobby_os.Page.{Page, PagedMem, is_free}
use riscv_hobby_os.Page.Layout.{IsValid, same_page}
use riscv_hobby_os.Page.Laws.{Allocated}
use riscv_hobby_os.Vm.{Vm, vpn, entry, va2pa_from, is_valid, is_nonleaf, pte_to_phys, page_offs}
use riscv_hobby_os.Vm.Bits.{nonleaf-valid}
use riscv_hobby_os.Vm.Words.{word, entry-word}

-- No page that can be allocated is frame `n`.
abbrev pub InUse : (n : ℕ) → PagedMem → Type 0
InUse n m = (i : ℕ) (p : Page) → get_elem? m.pages i ≡ some p → is_free p ≡ true → p.ptr ≢ n * 4096

-- An entry that leads to the table in frame `n`.
pub record LeadsTo (pte n : ℕ) : Type 0 where
  pub nonleaf : is_nonleaf pte ≡ true
  pub frame : pte_to_phys pte ≡ n * 4096

-- The tables that an address passes from a level downwards are in use, and none is one of those
-- above, up to where an entry is missing.
abbrev pub IsPath : (va level n : ℕ) → (above : ℕ → Type 0) → Vm → Type 0
IsPath va zero n above s = (above n → ⊥) × InUse n s.mem
IsPath va (suc level) n above s =
    (above n → ⊥)
    × InUse n s.mem
    × ((s.ram (entry (n * 4096) (vpn va (suc level))) ≡ 0)
        ⊎ ((next : ℕ) × LeadsTo (s.ram (entry (n * 4096) (vpn va (suc level)))) next
            × IsPath va level next (λ m. (m ≡ n) ⊎ above m) s))

-- A round of `va2pa` at a leaf and at a table.
pub read-leaf :
    (level : ℕ) (ram : ℕ → ℕ) (pagetable va pte : ℕ)
    → ram (entry pagetable (vpn va level)) ≡ pte
    → is_valid pte ≡ true
    → is_nonleaf pte ≡ false
    → va2pa_from (suc level) ram pagetable va ≡ bit_or (pte_to_phys pte) (page_offs va)
unfolding va2pa_from
read-leaf level ram pagetable va pte e v l = rw (e, v, l) refl

pub read-table :
    (level : ℕ) (ram : ℕ → ℕ) (pagetable va pte : ℕ)
    → ram (entry pagetable (vpn va level)) ≡ pte
    → is_nonleaf pte ≡ true
    → va2pa_from (suc level) ram pagetable va ≡ va2pa_from level ram (pte_to_phys pte) va
unfolding va2pa_from
read-table level ram pagetable va pte e l = rw (e, nonleaf-valid pte l, l) refl

pub not_zero : (x : ℕ) → x ≢ 0 → (x == 0) ≡ false
not_zero x h = ground (arith, h)

pub vpn-bound : (va level : ℕ) → vpn va level < 512
vpn-bound va level = omega arith

-- What an allocation leaves, for a base that is a frame's.
pub InUse-Allocated :
    (x base site pid : ℕ) (m m' : PagedMem) (ptr : ℕ)
    → Allocated base 4096 site pid 0 m ptr m'
    → InUse x m
    → InUse x m'
InUse-Allocated x base site pid m m' ptr a u j p g f = elim (ℕ_discrete a.index j) [
  | yes e ↦ absurd (taken p (subst (λ j. get_elem? m'.pages j ≡ some p) (sym e) g) f)
  | no ne ↦ u j p (sym (a.others j ne) ∙ g) f
]
  where
    taken : (p : Page) → get_elem? m'.pages a.index ≡ some p → is_free p ≡ true → ⊥
    taken p g f = ground (arith, f, g, a.now)

pub InUse-new :
    (q base site pid : ℕ) (m m' : PagedMem)
    → IsValid base 4096 m
    → Allocated base 4096 site pid 0 m (q * 4096) m'
    → InUse q m'
InUse-new q base site pid m m' v a j p g f e = elim (ℕ_discrete a.index j) [
  | yes e' ↦ absurd (taken p (subst (λ j. get_elem? m'.pages j ≡ some p) (sym e') g) f)
  | no ne ↦
      absurd
        (ne (same_page a.index j a.was p v a.found (sym (a.others j ne) ∙ g) (a.address ∙ sym e)))
]
  where
    taken : (p : Page) → get_elem? m'.pages a.index ≡ some p → is_free p ≡ true → ⊥
    taken p g f = ground (arith, f, g, a.now)

-- The physical addresses have 56 bits.
abbrev pub IsLow : PagedMem → Type 0
IsLow m = (i : ℕ) (p : Page) → get_elem? m.pages i ≡ some p → p.ptr < 2 ^ 56

pub IsLow-Allocated :
    (base site pid : ℕ) (m m' : PagedMem) (ptr : ℕ)
    → Allocated base 4096 site pid 0 m ptr m'
    → IsLow m
    → IsLow m'
IsLow-Allocated base site pid m m' ptr a l j p g = elim (ℕ_discrete a.index j) [
  | yes e ↦ ground (
    arith,
    subst (λ j. get_elem? m'.pages j ≡ some p) (sym e) g,
    a.now,
    a.address,
    l a.index a.was a.found,
  )
  | no ne ↦ l j p (sym (a.others j ne) ∙ g)
]

-- A table of zeros.
pub fresh-IsPath :
    (va level n : ℕ) (above : ℕ → Type 0) (s : Vm)
    → (above n → ⊥)
    → InUse n s.mem
    → ((j : ℕ) → j < 512 → s.ram (word n j) ≡ 0)
    → IsPath va level n above s
fresh-IsPath va zero n above s a u z = (a, u)
fresh-IsPath va (suc level) n above s a u z = (
  a,
  u,
  inl (
      ap s.ram (entry-word n (vpn va (suc level)))
      ∙ z (vpn va (suc level)) (vpn-bound va (suc level))),
)

pub also :
    (n : ℕ) (above : ℕ → Type 0) (s : Vm)
    → InUse n s.mem
    → ((m : ℕ) → above m → InUse m s.mem)
    → (m : ℕ) → (m ≡ n) ⊎ above m
    → InUse m s.mem
also n above s un u m (inl e) = subst (λ x. InUse x s.mem) (sym e) un
also n above s un u m (inr h) = u m h

pub neither : (n q : ℕ) (above : ℕ → Type 0) → q ≢ n → (above q → ⊥) → (q ≡ n) ⊎ above q → ⊥
neither n q above p h (inl e) = p e
neither n q above p h (inr a) = h a
