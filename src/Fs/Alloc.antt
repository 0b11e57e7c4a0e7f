-- ===== src/Fs/Alloc.antt =====
-- What `fs_alloc_file` returns.
use riscv_hobby_os.Base.{
  ℕ, ◌-◌, take, length, set, ◌<◌, ◌≡◌, ◌≢◌, refl, ◌∙◌, sym, ap, true, false, Option, none, some,
  done, arith, ◌>>◌, >>-done, get_elem?, find_index, find_index-some, find_index-first,
  find_index-none, pure, M,
}
use riscv_hobby_os.Kernel.{
  File, Kernel, file_at, set_file, with_ftable, acquire, release, change_file,
}
use riscv_hobby_os.Kernel.Locks.{lock_ftable}
use riscv_hobby_os.Fs.{table_files, unused, opened, fs_alloc_file}

-- The table is all of `files` but the last three, which are stdin, stdout and stderr. Its first file with a count of
-- zero now has a count of one, its position and its flags are cleared; or none is left.
abbrev pub Fresh : Kernel → Option ℕ → Kernel → Type 0
Fresh k none k' =
    (k' ≡ k)
    × ((j : ℕ) (f : File)
        → get_elem? (take (length k.files - 3) k.files) j ≡ some f
        → f.refcount ≢ 0)
Fresh k (some i) k' =
    (k' ≡ record k {
      files = set k.files i (record (file_at k i) {
        refcount = 1;
        position = 0;
        readable = false;
        writable = false;
        is_pipe = false;
      });
    })
    × ((f : File) × (get_elem? (take (length k.files - 3) k.files) i ≡ some f) × (f.refcount ≡ 0))
    × ((j : ℕ) (f : File)
        → j < i
        → get_elem? (take (length k.files - 3) k.files) j ≡ some f
        → f.refcount ≢ 0)

used : (f : File) → unused f ≡ false → f.refcount ≢ 0
used f e = ground (arith, e)

not_used : (f : File) → unused f ≡ true → f.refcount ≡ 0
not_used f e = ground (arith, e)

module _ (k : Kernel) (t : k.ftable_lock ≡ 0) where
  abbrev chosen : Option ℕ → M Kernel (Option ℕ)
  chosen o = elim o [
    | none ↦ with_ftable release >> pure none
    | some i ↦ change_file i opened >> (with_ftable release >> pure (some i))
  ]

  abbrev held : Kernel
  held = record k { ftable_lock = 1 }

  by_search :
      (o : Option ℕ)
      → find_index unused (table_files k) ≡ o
      → (k' : Kernel) × (chosen o held ≡ done o k') × Fresh k o k'
  by_search none e = (
    k,
    ap (λ v. done none (record k { ftable_lock = v })) (sym t),
    (refl, λ j f g. used f (find_index-none unused (table_files k) j e g)),
  )
  by_search (some i) e =
      let (f, g, h) = find_index-some unused (table_files k) i e in
      (
        set_file i (opened (file_at k i)) k,
        ap (λ v. done (some i) (record (set_file i (opened (file_at k i)) k) { ftable_lock = v }))
            (sym t),
        (
          refl,
          (f, g, not_used f h),
          λ j f' l g'. used f' (find_index-first unused (table_files k) i j e l g'),
        ),
      )

-- With the table unlocked, `fs_alloc_file` returns with it unlocked. It has found the first file
-- of the table whose reference count is zero, given it a count of one, set its position to 0 and cleared its flags, and
-- changed nothing else; or
-- every file has references, the result is none, and nothing has changed.
pub fs_alloc_file-Fresh :
    (k : Kernel)
    → k.ftable_lock ≡ 0
    → (o : Option ℕ) × (k' : Kernel) × (fs_alloc_file k ≡ done o k') × Fresh k o k'
unfolding fs_alloc_file
fs_alloc_file-Fresh k t =
    let (k', e, h) = by_search k t (find_index unused (table_files k)) refl in
    (
      find_index unused (table_files k),
      k',
      >>-done (with_ftable acquire) _ k (lock_ftable k t) e,
      h,
    )

-- The first file that nothing refers to is opened.
pub fs_alloc_file-found :
    (k : Kernel) (i : ℕ)
    → k.ftable_lock ≡ 0
    → find_index unused (table_files k) ≡ some i
    → fs_alloc_file k ≡ done (some i) (set_file i (opened (file_at k i)) k)
unfolding fs_alloc_file
fs_alloc_file-found k i t e = >>-done (with_ftable acquire) _ k (lock_ftable k t) (
    ap (λ o. chosen k t o (held k t)) e
    ∙ ap (λ v. done (some i) (record (set_file i (opened (file_at k i)) k) { ftable_lock = v }))
        (sym t))
