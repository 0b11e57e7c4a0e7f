-- ===== src/Proc/Io/Whole.antt =====
-- What `open` leaves behind: a lost file, or one that can be read.
use riscv_hobby_os.Base.{
  ℕ, ◌+◌, ◌<◌, ◌≡◌, ap, none, some, List, done, arith, length, find_index, negsuc, minus,
}
use riscv_hobby_os.Errno.{emfile}
use riscv_hobby_os.Bifs.{bifs_open}
use riscv_hobby_os.Kernel.{Kernel, no_file, proc_at, set_proc, file_at, set_file, write_word}
use riscv_hobby_os.Proc.Fds.{is_null}
use riscv_hobby_os.Proc.Fds.Laws.{refs, refs-set}
use riscv_hobby_os.Proc.Table.Slots.{get_or-set}
use riscv_hobby_os.Fs.{unused, opened, table_files}
use riscv_hobby_os.Fs.Open.{Io}
use riscv_hobby_os.Proc.Io.{proc_open}
use riscv_hobby_os.Proc.Io.Open.{no_fd, not_opened, in_files}

-- Why an `open` fails behind the allocation of the file, and the error number for it.
pub data OpenFailure (proc : ℕ) (path : List ℕ) (k : Kernel) : ℕ → Type 0 where
  no_descriptor : find_index is_null (proc_at k proc).files ≡ none → OpenFailure proc path k emfile
  not_found :
      {fd n : ℕ}
      → find_index is_null (proc_at k proc).files ≡ some fd
      → bifs_open k.bifs path ≡ (negsuc n, none)
      → OpenFailure proc path k (n + 1)

-- The process is unlocked with an error number, and file `i` is taken.
abbrev pub lost : (proc i code : ℕ) → Kernel → Kernel
lost proc i code k =
    set_proc proc (record (proc_at k proc) { lock = 0 })
      (write_word (proc_at k proc).perrno code (set_file i (opened (file_at k i)) k))

module _ (site proc i : ℕ) (path : List ℕ) (k : Kernel) (e : k.cur ≡ some proc)
    (l : proc < length k.procs) (u : (proc_at k proc).lock ≡ 0) (t : k.ftable_lock ≡ 0)
    (f : find_index unused (table_files k) ≡ some i) where
  fails :
      (code : ℕ)
      → OpenFailure proc path k code
      → proc_open site (some path) k ≡ done (minus 1) (lost proc i code k)
  fails code (no_descriptor g) = no_fd site proc i path k e l u t f g
  fails code (not_found {fd} {n} g h) = not_opened site proc i path k e l u t f fd n g h

  -- An `open` that finds no free descriptor, or no such file, returns -1 with the error number in
  -- the process's word and the process unlocked, but loses a file of the table: its reference
  -- count is now 1, while no process has more descriptors that refer to any file than before.
  pub proc_open_loses :
      (code : ℕ)
      → OpenFailure proc path k code
      → let k' = lost proc i code k in
        proc_open site (some path) k ≡ done (minus 1) k'
        × (file_at k' i).refcount ≡ 1
        × ((g : ℕ) → refs g k'.procs ≡ refs g k.procs)
  proc_open_loses code o = (
    fails code o,
    ap (λ f. f.refcount)
        (get_or-set k.files i (opened (file_at k i)) no_file
          (in_files site proc i path k e l u t f)),
    λ g. omega (arith, refs-set g k.procs proc (record (proc_at k proc) { lock = 0 }) l),
  )
