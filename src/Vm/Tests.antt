-- ===== src/Vm/Tests.antt =====
-- A page table of three frames that is built from one.
use riscv_hobby_os.Base.{
  ℕ, zero, suc, ◌+◌, ◌*◌, ◌≡◌, refl, some, [], ◌∷◌, done, arith, inl, get_elem?,
}
use riscv_hobby_os.Page.{Page, PagedMem, no_pid, count_free_pages}
use riscv_hobby_os.Page.Layout.{IsValid}
use riscv_hobby_os.Vm.{Vm, map_page_sv39, map_range, va2pa, perm_udata, page_offs}
use riscv_hobby_os.Vm.Path.{IsLow, InUse}
use riscv_hobby_os.Vm.Map.{map_page_sv39-va2pa}
use riscv_hobby_os.Vm.Range.{map_pages, map_range-map_pages}

-- Frame 2 is the root, frames 3 and 4 are free.
abbrev two_free : PagedMem
two_free = record {
  lock = 0;
  pages =
      record { ptr = 2 * 4096; flags = 1; site = 9; pid = 7 }
      ∷ record { ptr = 3 * 4096; flags = 0; site = 0; pid = no_pid }
      ∷ record { ptr = 4 * 4096; flags = 0; site = 0; pid = no_pid }
      ∷ [];
  unclaimed_start = 8000;
  unclaimed_end = 8192;
}

abbrev empty_table : Vm
empty_table = record { mem = two_free; ram = λ w. 0 }

two_free-IsValid : IsValid (2 * 4096) 4096 two_free
two_free-IsValid = record {
  unlocked = refl;
  laid = laid';
  not_null = omega arith;
  size_pos = omega arith;
}
  where
    laid' : (i : ℕ) (p : Page) → get_elem? two_free.pages i ≡ some p → p.ptr ≡ 2 * 4096 + i * 4096
    laid' zero p e = ground (arith, e)
    laid' (suc zero) p e = ground (arith, e)
    laid' (suc (suc zero)) p e = ground (arith, e)
    laid' (suc (suc (suc i))) p e = ground (arith, e)

two_free-IsLow : IsLow two_free
two_free-IsLow zero p e = ground (arith, e)
two_free-IsLow (suc zero) p e = ground (arith, e)
two_free-IsLow (suc (suc zero)) p e = ground (arith, e)
two_free-IsLow (suc (suc (suc i))) p e = ground (arith, e)

root-InUse : InUse 2 two_free
root-InUse zero p e f = ground (arith, e, f)
root-InUse (suc zero) p e f = ground (arith, e)
root-InUse (suc (suc zero)) p e f = ground (arith, e)
root-InUse (suc (suc (suc i))) p e f = ground (arith, e)

map_page_sv39-va2pa_example :
    (s' : Vm) × (map_page_sv39 5 (2 * 4096) (1000 * 4096) 0x1ff123 perm_udata 7 empty_table
      ≡ done tt s')
    × (va2pa s'.ram (2 * 4096) 0x1ff123 ≡ 1000 * 4096 + page_offs 0x1ff123)
unfolding count_free_pages
map_page_sv39-va2pa_example =
    map_page_sv39-va2pa 5 7 2 2 1000 0x1ff123 perm_udata empty_table
      ((λ h. h), root-InUse, inl refl) two_free-IsValid two_free-IsLow (omega arith) (omega arith)
      (omega arith) (inl refl)

map_range-map_pages_example :
    map_range 8 5 8192 12288 (12288 + 2 * 4096) 0 perm_udata 7
    ≡ map_pages 5 8192 2 12288 0 perm_udata 7
map_range-map_pages_example =
    map_range-map_pages 8 5 8192 2 12288 0 perm_udata 7 (omega arith) (omega arith)
