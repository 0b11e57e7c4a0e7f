-- ===== src/Proc/Fds/Dup.antt =====
-- `proc_dup` on every path.
use riscv_hobby_os.Base.{
  ℕ, ◌+◌, ◌^◌, ◌<◌, ◌≡◌, refl, ◌∙◌, ap, Option, none, some, done, M, arith, >>=-done, inl, inr,
  Option-cases, length, get_elem?, find_index, find_index-some, ℤ, pos, minus,
}
use riscv_hobby_os.Errno.{ebadf, emfile}
use riscv_hobby_os.Kernel.{Kernel, proc_at, file_at, set_file, write_word, myproc}
use riscv_hobby_os.Proc.Fds.{is_null, add_ref, fd_alloc, fd_file, dup_to, dup_file, proc_dup}
use riscv_hobby_os.Proc.Fds.Laws.{
  Balanced, with_fd, is_null-none, alloc_none, alloc_some, refs-with_fd, refcount-add_ref,
}

abbrev Runs : (M Kernel ℤ) → Kernel → Type 0
Runs m k = (r : ℤ) × (k' : Kernel) × (m k ≡ done r k') × Balanced k k'

-- An error number stands in no descriptor.
set_errno-Balanced :
    (proc code : ℕ) (k : Kernel) → Balanced k (write_word (proc_at k proc).perrno code k)
set_errno-Balanced proc code k g = refl

module _ (proc : ℕ) (k : Kernel) (l : proc < length k.procs) where
  dup-alloc :
      (f : ℕ)
      → f < length k.files
      → (file_at k f).refcount + 1 < 2 ^ 32
      → Runs (dup_file proc (some f)) k
  dup-alloc f h b = elim (Option-cases (find_index is_null (proc_at k proc).files)) [
    | inl e ↦ (
      minus 1,
      write_word (proc_at k proc).perrno emfile k,
      >>=-done (fd_alloc proc f) (dup_to proc f) k (alloc_none proc f k l e) refl,
      set_errno-Balanced proc emfile k,
    )
    | inr (i, e) ↦
        let (o, g, n) = find_index-some is_null (proc_at k proc).files i e in
        let free : get_elem? (proc_at k proc).files i ≡ some none =
          g ∙ ap some (is_null-none o n) in
        (
          pos i,
          set_file f (add_ref (file_at k f)) (with_fd proc i f k),
          >>=-done (fd_alloc proc f) (dup_to proc f) k (alloc_some proc f k l i e) refl,
          λ g'. omega (arith, refs-with_fd proc i f g' k l free, refcount-add_ref f g' k h b),
        )
  ]

  dup-file :
      (o : Option ℕ)
      → ((f : ℕ) → o ≡ some f → (f < length k.files) × ((file_at k f).refcount + 1 < 2 ^ 32))
      → Runs (dup_file proc o) k
  dup-file none valid =
      (minus 1, write_word (proc_at k proc).perrno ebadf k, refl, set_errno-Balanced proc ebadf k)
  dup-file (some f) valid = let (h, b) = valid f refl in dup-alloc f h b

-- At a descriptor number inside the process's table, whose file is one of the kernel's and has
-- fewer references than its counter holds, `dup` returns, whether it succeeds or fails, and each
-- file's reference count has moved by as much as the number of descriptors that refer to it.
pub proc_dup-Balanced :
    (k : Kernel) (proc fd : ℕ) (o : Option ℕ)
    → k.cur ≡ some proc
    → proc < length k.procs
    → get_elem? (proc_at k proc).files fd ≡ some o
    → ((f : ℕ) → o ≡ some f → (f < length k.files) × ((file_at k f).refcount + 1 < 2 ^ 32))
    → (r : ℤ) × (k' : Kernel) × (proc_dup fd k ≡ done r k') × Balanced k k'
unfolding proc_dup
proc_dup-Balanced k proc fd o c l e valid =
    let (r, k', run, b) = dup-file proc k l o valid in
    (
      r,
      k',
      >>=-done myproc _ k {a = proc} {s' = k} (rw c refl) (
          >>=-done (fd_file proc fd) (dup_file proc) k {a = o} {s' = k} (rw (e, fd_file) refl) run),
      b,
    )
