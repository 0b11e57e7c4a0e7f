-- ===== src/Proc/Io/Tests.antt =====
-- Files of a process whose first descriptor is in use.
use riscv_hobby_os.Base.{ℕ, ◌≡◌, refl, none, some, [], ◌∷◌, done, minus, arith}
use riscv_hobby_os.Bifs.Tests.{some_bifs, readme_path}
use riscv_hobby_os.Errno.{emfile}
use riscv_hobby_os.Kernel.{running, bifs_io, bifs_obj, Kernel, no_proc, no_file, file_at}
use riscv_hobby_os.Kernel.Examples.{some_kernel}
use riscv_hobby_os.Proc.Fds.Laws.{refs}
use riscv_hobby_os.Fs.Open.{Io, read_bifs}
use riscv_hobby_os.Proc.Io.{proc_open}
use riscv_hobby_os.Proc.Io.Whole.{lost, no_descriptor, proc_open_loses}

-- Every pointer holds `bifs_read`, and nothing is written.
abbrev only_bifs : Io
only_bifs = record {
  read = λ h i position size k. read_bifs (λ p. []) position size (file_at k i).fs_file k;
  write = λ h i position bytes. λ k. done (minus 1) k;
}

abbrev with_hello : Kernel
with_hello = record some_kernel {
  procs = record no_proc { state = running; files = some 0 ∷ none ∷ [] } ∷ [];
  bifs = some_bifs;
}

-- The process has no descriptor left.
abbrev crowded : Kernel
crowded = record some_kernel {
  procs = record no_proc { state = running; files = some 0 ∷ some 0 ∷ [] } ∷ [];
}

proc_open_loses_example :
    (proc_open 5 (some readme_path) crowded ≡ done (minus 1) (lost 0 1 emfile crowded))
    × (file_at (lost 0 1 emfile crowded) 1).refcount ≡ 1
    × ((g : ℕ) → refs g (lost 0 1 emfile crowded).procs ≡ refs g crowded.procs)
proc_open_loses_example =
    proc_open_loses 5 0 1 readme_path crowded refl (omega arith) refl refl refl emfile
      (no_descriptor refl)

-- The first file of the table is open on "hello".
abbrev reading : Kernel
reading = record with_hello {
  files = record no_file { refcount = 1; read = bifs_io; fs_file = bifs_obj 0 } ∷ [];
}
