-- ===== src/Vm/Words.antt =====
-- The words of the page frames: frame `n` has the words from `n * 512` on.
use riscv_hobby_os.Base.{
  ℕ, zero, suc, ◌+◌, ◌*◌, ◌/◌, ◌<◌, ◌≤◌, ◌≡◌, ◌≢◌, refl, ◌∙◌, ap, arith, ◌⊎◌, inl,
}
use riscv_hobby_os.Vm.{Vm, entry, write, memset, clear_page, set_entry}

memset-outside :
    (n w value a : ℕ) (ram : ℕ → ℕ) → (a < w) ⊎ (w + n ≤ a) → memset n w value ram a ≡ ram a
unfolding memset
memset-outside zero w value a ram h = refl
memset-outside (suc n) w value a ram h =
    memset-outside n (w + 1) value a _ (ground arith) ∙ ground arith

memset-inside : (n w value k : ℕ) (ram : ℕ → ℕ) → k < n → memset n w value ram (w + k) ≡ value
unfolding memset
memset-inside zero w value k ram lt = elim lt [ ]
memset-inside (suc n) w value zero ram lt =
    memset-outside n (w + 1) value (w + 0) _ (inl (omega arith)) ∙ ground arith
memset-inside (suc n) w value (suc k) ram lt =
    let e : w + suc k ≡ w + 1 + k = omega arith in
    rw e (memset-inside n (w + 1) value k _ (omega arith))

-- The word with number `j` of frame `n`
abbrev pub word : (n j : ℕ) → ℕ
word n j = n * 512 + j

pub entry-word : (n i : ℕ) → entry (n * 4096) i ≡ word n i
entry-word n i = omega arith

pub write-same : (w v : ℕ) (ram : ℕ → ℕ) → write w v ram w ≡ v
write-same w v ram = ground arith

pub write-other : (w v a : ℕ) (ram : ℕ → ℕ) → a ≢ w → write w v ram a ≡ ram a
write-other w v a ram h = ground arith

apart : (m n i j : ℕ) → i < 512 → j < 512 → m ≢ n → word m j ≢ word n i
apart m n i j p q h = omega arith

pub set_entry-other :
    (m n i j value : ℕ) (s : Vm)
    → i < 512
    → j < 512
    → m ≢ n
    → (set_entry (n * 4096) i value s).ram (word m j) ≡ s.ram (word m j)
set_entry-other m n i j value s p q h =
    write-other (entry (n * 4096) i) value (word m j) s.ram
      (omega (arith, entry-word n i, apart m n i j p q h))

pub set_entry-same :
    (n i value : ℕ) (s : Vm) → (set_entry (n * 4096) i value s).ram (entry (n * 4096) i) ≡ value
set_entry-same n i value s = write-same (entry (n * 4096) i) value s.ram

pub clear_page-inside : (n j : ℕ) (s : Vm) → j < 512 → (clear_page (n * 4096) s).ram (word n j) ≡ 0
clear_page-inside n j s h =
    ap (λ a. (clear_page (n * 4096) s).ram a) start ∙ memset-inside 512 (n * 4096 / 8) 0 j s.ram h
  where
    start : word n j ≡ n * 4096 / 8 + j
    start = omega arith

pub clear_page-other :
    (m n j : ℕ) (s : Vm)
    → j < 512
    → m ≢ n
    → (clear_page (n * 4096) s).ram (word m j) ≡ s.ram (word m j)
clear_page-other m n j s h ne = memset-outside 512 (n * 4096 / 8) 0 (word m j) s.ram (omega arith)
