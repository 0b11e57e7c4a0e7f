-- ===== src/Vm/Map.antt =====
-- `map_page_sv39` and `va2pa`: what is mapped is found.
use Prim.Native.Nat.{bit_or}
use mathlib.Core.Path.{subst}
use riscv_hobby_os.Base.{
  ℕ, zero, suc, ◌+◌, ◌*◌, ◌^◌, ◌<◌, ◌≤◌, ◌≡◌, ◌≢◌, refl, ◌∙◌, sym, ap, done, >>=-done, arith, ◌⊎◌,
  inl, inr,
}
use riscv_hobby_os.Page.{PagedMem, count_free_pages, kalloc}
use riscv_hobby_os.Page.Layout.{IsValid}
use riscv_hobby_os.Page.Laws.{Allocated, allocate_page-Allocated}
use riscv_hobby_os.Vm.{
  Vm, vpn, entry, map_level, map_page_sv39, va2pa, va2pa_from, table_pte, leaf_pte, next_table,
  link_table, set_entry, clear_page, page_offs, on_pages,
}
use riscv_hobby_os.Vm.Bits.{
  IsLeafPerm, bit_or-page_offs, table_pte-pte_to_phys, table_pte-nonleaf, leaf_pte-pte_to_phys,
  leaf_pte-valid, leaf_pte-leaf, nonleaf-zero,
}
use riscv_hobby_os.Vm.Words.{
  word, entry-word, set_entry-same, set_entry-other, clear_page-inside, clear_page-other,
}
use riscv_hobby_os.Vm.Path.{
  InUse, LeadsTo, IsPath, IsLow, read-leaf, read-table, not_zero, vpn-bound, InUse-Allocated,
  InUse-new, IsLow-Allocated, fresh-IsPath, also, neither,
}

module _ (site pa_frame va perm pid base : ℕ) (small : pa_frame < 2 ^ 44) (bound : perm < 1024)
    (leaf : IsLeafPerm perm) where
  -- The outcome of mapping from a level downwards.
  pub record Mapped (level n : ℕ) (above : ℕ → Type 0) (s : Vm) : Type 0 where
    pub state : Vm
    pub runs : map_level site level (n * 4096) (pa_frame * 4096) va perm pid s ≡ done tt state
    pub found : va2pa_from (suc level) state.ram (n * 4096) va ≡ pa_frame * 4096 + page_offs va
    pub kept : (m j : ℕ) → above m → j < 512 → state.ram (word m j) ≡ s.ram (word m j)

  map_leaf : (n : ℕ) (above : ℕ → Type 0) (s : Vm) → IsPath va 0 n above s → Mapped 0 n above s
  unfolding map_level
  map_leaf n above s path = record {
    state = set_entry (n * 4096) (vpn va 0) (leaf_pte (pa_frame * 4096) perm) s;
    runs = refl;
    found =
        read-leaf 0 _ (n * 4096) va (leaf_pte (pa_frame * 4096) perm)
          (set_entry-same n (vpn va 0) (leaf_pte (pa_frame * 4096) perm) s)
          (leaf_pte-valid (pa_frame * 4096) perm) (leaf_pte-leaf (pa_frame * 4096) perm leaf)
        ∙ ap (λ a. bit_or a (page_offs va)) (leaf_pte-pte_to_phys pa_frame small perm bound)
        ∙ bit_or-page_offs pa_frame (page_offs va) (omega arith);
    kept = λ m j a h.
        set_entry-other m n (vpn va 0) j (leaf_pte (pa_frame * 4096) perm) s (vpn-bound va 0) h
          (λ e. path.0 (subst above e a));
  }

  -- The step at a table that is there.
  map_existing :
      (level n next : ℕ) (above : ℕ → Type 0) (s : Vm)
      → LeadsTo (s.ram (entry (n * 4096) (vpn va (suc level)))) next
      → Mapped level next (λ m. (m ≡ n) ⊎ above m) s
      → Mapped (suc level) n above s
  unfolding map_level
  map_existing level n next above s leads r =
      let i = vpn va (suc level) in
      let pte = s.ram (entry (n * 4096) i) in
      record {
        state = r.state;
        runs =
            >>=-done (next_table site (n * 4096) i pid pte)
              (λ t. map_level site level t (pa_frame * 4096) va perm pid) s {a = next * 4096}
              {s' = s} (rw (nonleaf-zero pte leads.nonleaf, leads.frame) refl) r.runs;
        found =
            read-table (suc level) r.state.ram (n * 4096) va pte
              (ap r.state.ram (entry-word n i)
                ∙ r.kept n i (inl refl) (vpn-bound va (suc level))
                ∙ ap s.ram (sym (entry-word n i)))
              leads.nonleaf
            ∙ ap (λ t. va2pa_from (suc level) r.state.ram t va) leads.frame
            ∙ r.found;
        kept = λ m j a h. r.kept m j (inr a) h;
      }

  -- The state with a new table in frame `q`.
  abbrev linked : (level n q : ℕ) → PagedMem → Vm → Vm
  linked level n q m s =
      set_entry (n * 4096) (vpn va (suc level)) (table_pte (q * 4096))
        (clear_page (q * 4096) (record s { mem = m }))

  linked-other :
      (level n q m j : ℕ) (mem : PagedMem) (s : Vm)
      → j < 512
      → m ≢ n
      → m ≢ q
      → (linked level n q mem s).ram (word m j) ≡ s.ram (word m j)
  linked-other level n q m j mem s h p r =
      set_entry-other m n (vpn va (suc level)) j (table_pte (q * 4096))
        (clear_page (q * 4096) (record s { mem = mem })) (vpn-bound va (suc level)) h p
      ∙ clear_page-other m q j (record s { mem = mem }) h r

  linked-new :
      (level n q j : ℕ) (mem : PagedMem) (s : Vm)
      → j < 512
      → q ≢ n
      → (linked level n q mem s).ram (word q j) ≡ 0
  linked-new level n q j mem s h p =
      set_entry-other q n (vpn va (suc level)) j (table_pte (q * 4096))
        (clear_page (q * 4096) (record s { mem = mem })) (vpn-bound va (suc level)) h p
      ∙ clear_page-inside q j (record s { mem = mem }) h

  -- The step at a table that is missing.
  map_missing :
      (level n q : ℕ) (above : ℕ → Type 0) (s : Vm) (m : PagedMem)
      → s.ram (entry (n * 4096) (vpn va (suc level))) ≡ 0
      → kalloc site pid s.mem ≡ done (q * 4096) m
      → q * 4096 ≢ 0
      → q < 2 ^ 44
      → q ≢ n
      → (above n → ⊥)
      → (above q → ⊥)
      → Mapped level q (λ m. (m ≡ n) ⊎ above m) (linked level n q m s)
      → Mapped (suc level) n above s
  unfolding map_level
  map_missing level n q above s m e run nz low qn an aq r =
      let i = vpn va (suc level) in
      let entries =
        set_entry-same n i (table_pte (q * 4096)) (clear_page (q * 4096) (record s { mem = m })) in
      record {
        state = r.state;
        runs =
            >>=-done (next_table site (n * 4096) i pid (s.ram (entry (n * 4096) i)))
              (λ t. map_level site level t (pa_frame * 4096) va perm pid) s {a = q * 4096}
              {s' = linked level n q m s}
              (rw e (
                >>=-done (on_pages (kalloc site pid)) (link_table (n * 4096) i) s {a = q * 4096}
                  {s' = record s { mem = m }} (rw run refl) (rw (not_zero (q * 4096) nz) refl)))
              r.runs;
        found =
            read-table (suc level) r.state.ram (n * 4096) va (table_pte (q * 4096))
              (ap r.state.ram (entry-word n i)
                ∙ r.kept n i (inl refl) (vpn-bound va (suc level))
                ∙ ap (linked level n q m s).ram (sym (entry-word n i))
                ∙ entries)
              (table_pte-nonleaf q low)
            ∙ ap (λ t. va2pa_from (suc level) r.state.ram t va) (table_pte-pte_to_phys q low)
            ∙ r.found;
        kept = λ x j a h.
            r.kept x j (inr a) h
            ∙ linked-other level n q x j m s h (λ e. an (subst above e a))
                (λ e. aq (subst above e a));
      }

  map_levels :
      (level n : ℕ) (above : ℕ → Type 0) (s : Vm)
      → IsPath va level n above s
      → IsValid (base * 4096) 4096 s.mem
      → IsLow s.mem
      → ((m : ℕ) → above m → InUse m s.mem)
      → level ≤ count_free_pages s.mem
      → Mapped level n above s
  map_levels zero n above s path v low u free = map_leaf n above s path
  map_levels (suc level) n above s (an, un, inr (next, leads, path)) v low u free =
      map_existing level n next above s leads (
        map_levels level next (λ m. (m ≡ n) ⊎ above m) s path v low (also n above s un u)
          (omega arith))
  map_levels (suc level) n above s (an, un, inl e) v low u free =
      let (ptr, m, run, a) =
        allocate_page-Allocated (base * 4096) 4096 site pid 0 s.mem v (omega arith) in
      let q = base + a.index in
      let at : ptr ≡ q * 4096 = omega (arith, a.address, v.laid a.index a.was a.found) in
      let a' = subst (λ p. Allocated (base * 4096) 4096 site pid 0 s.mem p m) at a in
      let qn : q ≢ n =
        λ e. un a'.index a'.was a'.found a'.was_free (a'.address ∙ ap (λ x. x * 4096) e) in
      let aq : above q → ⊥ = λ h. u q h a'.index a'.was a'.found a'.was_free a'.address in
      map_missing level n q above s m e (run ∙ ap (λ p. done p m) at) a'.not_null
        (omega (arith, low a'.index a'.was a'.found, a'.address)) qn an aq
        (map_levels level q (λ x. (x ≡ n) ⊎ above x) (linked level n q m s)
          (fresh-IsPath va level q (λ x. (x ≡ n) ⊎ above x) (linked level n q m s)
            (neither n q above qn aq) (InUse-new q (base * 4096) site pid s.mem m v a')
            (λ j h. linked-new level n q j m s h qn))
          a'.valid (IsLow-Allocated (base * 4096) site pid s.mem m (q * 4096) a' low)
          (λ x h.
            InUse-Allocated x (base * 4096) site pid s.mem m (q * 4096) a'
              (also n above s un u x h))
          (omega (arith, a'.free_count)))

-- In a page table rooted in frame `root`, whose tables on the address's path are in use and differ
-- from each other, with two free pages, pages and a physical page below 2 ^ 56 and permissions to
-- read or to execute, `map_page_sv39` returns, and `va2pa` then takes the virtual address to the
-- physical page, at the same offset.
pub map_page_sv39-va2pa :
    (site pid root base pa_frame va perm : ℕ) (s : Vm)
    → IsPath va 2 root (λ m. ⊥) s
    → IsValid (base * 4096) 4096 s.mem
    → IsLow s.mem
    → 2 ≤ count_free_pages s.mem
    → pa_frame < 2 ^ 44
    → perm < 1024
    → IsLeafPerm perm
    → (s' : Vm) × (map_page_sv39 site (root * 4096) (pa_frame * 4096) va perm pid s ≡ done tt s')
      × (va2pa s'.ram (root * 4096) va ≡ pa_frame * 4096 + page_offs va)
unfolding map_page_sv39 va2pa
map_page_sv39-va2pa site pid root base pa_frame va perm s path v low free small bound leaf =
    let r =
      map_levels site pa_frame va perm pid base small bound leaf 2 root (λ m. ⊥) s path v low
        (λ m h. elim h [ ]) free in
    (r.state, r.runs, r.found)
