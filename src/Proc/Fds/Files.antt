-- ===== src/Proc/Fds/Files.antt =====
-- What `copy_files` does, all rounds of its loop.
use riscv_hobby_os.Base.{
  ℕ, zero, suc, ◌+◌, ◌≡◌, ◌≢◌, Option, none, some, List, M, done, ◌>>◌, get_or, set, points_to,
  if◌then◌else◌,
}
use riscv_hobby_os.Kernel.{File, Kernel, no_file, proc_at, change_proc}
use riscv_hobby_os.Proc.Wake.{for_slots}
use riscv_hobby_os.Proc.Fds.{set_fd, add_ref, add_ref_to, copy_fd}

Fd : Type 0
Fd = Option ℕ

-- The entries `i` up to `i + n` of one table over those of another.
overwrite : (n i : ℕ) → (fs ds : List (Option ℕ)) → List (Option ℕ)
overwrite zero i fs ds = ds
overwrite (suc n) i fs ds = overwrite n (i + 1) fs (set ds i (get_or fs i none))

-- How many of the entries refer to a file.
count_from : (n i : ℕ) → (fs : List (Option ℕ)) → (g : ℕ) → ℕ
count_from zero i fs g = 0
count_from (suc n) i fs g =
    (if points_to (get_or fs i none) g then 1 else 0) + count_from n (i + 1) fs g

-- The table of files when a reference has been added.
abbrev referred : Option ℕ → List File → List File
referred none files = files
referred (some f) files = set files f (add_ref (get_or files f no_file))

abbrev refcount_of : List File → ℕ → ℕ
refcount_of files g = (get_or files g no_file).refcount

module _ (dst src : ℕ) (ne : dst ≢ src) (fs : List (Option ℕ)) where
  abbrev after : (ds : List (Option ℕ)) → List File → Kernel → Kernel
  after ds files k = record k {
    procs = set k.procs dst (record (proc_at k dst) { files = ds });
    files = files;
  }

  -- One round.
  abbrev stepped : (i : ℕ) → Kernel → Kernel
  stepped i k =
      after (set (proc_at k dst).files i (get_or fs i none)) (referred (get_or fs i none) k.files) k

  abbrev store_fd : (i : ℕ) → Option ℕ → M Kernel (Unit {0})
  store_fd i pf = add_ref_to pf >> change_proc dst (set_fd i pf)

  -- `n` rounds from `i` on.
  abbrev Copies : (n i : ℕ) → Kernel → Type 0
  Copies n i k =
      (files : List File) × (for_slots n i (copy_fd dst src) k
        ≡ done tt (after (overwrite n i fs (proc_at k dst).files) files k))
      × ((g : ℕ) → refcount_of files g ≡ refcount_of k.files g + count_from n i fs g)
