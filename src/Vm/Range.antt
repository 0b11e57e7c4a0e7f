-- ===== src/Vm/Range.antt =====
-- `map_range` ends.
use riscv_hobby_os.Base.{
  ℕ, zero, suc, ◌+◌, ◌*◌, ◌%◌, ◌^◌, ◌<◌, ◌≡◌, ap, M, pure, ◌>>◌, if◌then◌else◌, ◌==◌, true, false,
  arith,
}
use riscv_hobby_os.Vm.{Vm, map_page_sv39, map_range}

-- A given number of pages, one after another.
pub map_pages : (site pagetable n pa va perm pid : ℕ) → M Vm (Unit {0})
map_pages site pagetable zero pa va perm pid = pure tt
map_pages site pagetable (suc n) pa va perm pid = do
  map_page_sv39 site pagetable pa va perm pid
  map_pages site pagetable n (pa + 4096) ((va + 4096) % 2 ^ 64) perm pid

same_end : (pa : ℕ) → (pa == pa + 0) ≡ true
same_end pa = ground arith

-- On a range of `n` whole pages below 2 ^ 64 the loop of `map_range` ends after `n` rounds, which map
-- the pages one after another, with any fuel above `n`.
pub map_range-map_pages :
    (fuel site pagetable n pa va perm pid : ℕ)
    → pa + n * 4096 < 2 ^ 64
    → n < fuel
    → map_range fuel site pagetable pa (pa + n * 4096) va perm pid
      ≡ map_pages site pagetable n pa va perm pid
unfolding map_range map_pages
map_range-map_pages zero site pagetable n pa va perm pid h f = absurd (omega arith)
map_range-map_pages (suc fuel) site pagetable zero pa va perm pid h f =
    ap (λ b. if b then pure tt else goes_on) (same_end pa)
  where
    goes_on : M Vm (Unit {0})
    goes_on = do
      map_page_sv39 site pagetable pa va perm pid
      map_range fuel site pagetable ((pa + 4096) % 2 ^ 64) (pa + 0) ((va + 4096) % 2 ^ 64) perm pid
map_range-map_pages (suc fuel) site pagetable (suc n) pa va perm pid h f = rw not_end (
    rw next (
      rw far (
        ap (λ m. map_page_sv39 site pagetable pa va perm pid >> m)
          (map_range-map_pages fuel site pagetable n (pa + 4096) ((va + 4096) % 2 ^ 64) perm pid
            (omega arith) (omega arith)))))
  where
    not_end : (pa == pa + suc n * 4096) ≡ false
    not_end = ground arith

    next : (pa + 4096) % 2 ^ 64 ≡ pa + 4096
    next = omega arith

    far : pa + suc n * 4096 ≡ pa + 4096 + n * 4096
    far = omega arith
