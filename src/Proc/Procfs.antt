-- ===== src/Proc/Procfs.antt =====
-- src/proc.c: `init_procfs_files`, the directory of a process under /proc. The name that the code keeps
-- in `piddir` is copied into the directory's entry here; a pid below 2 ^ 31 is assumed, since `itoa`
-- takes an `int`.
use riscv_hobby_os.Base.{
  ℕ, ◌+◌, Option, none, some, List, [], ◌∷◌, M, pure, get, modify, ◌>>=◌, ◌>>◌, if◌then◌else◌, take,
  set, replicate, ℤ, pos, minus, is_negative,
}
use riscv_hobby_os.Errno.{enfile, enobufs}
use riscv_hobby_os.Str.{itoa, kstrlen}
use riscv_hobby_os.Bifs.{
  BifsFile, Bifs, FileData, text, stats_query, bifs_file_at, bifs_allocate_file, bifs_readable,
  bifs_raw, bifs_tmpfile,
}
use riscv_hobby_os.Bifs.Dir.{bifs_mkdir, max_filename_len}
use riscv_hobby_os.Kernel.{Kernel, proc_at, change_proc}

abbrev pub change_bifs : {A : Type 0} → (Bifs → A × Bifs) → M Kernel A
change_bifs f = do k ← get; modify (λ k'. record k' { bifs = (f k.bifs).1 }); pure (f k.bifs).0

abbrev pub change_bifs_file : ℕ → (BifsFile → BifsFile) → M Kernel (Unit {0})
change_bifs_file i f = modify (λ k. record k {
  bifs = record (k.bifs) { files = set k.bifs.files i (f (bifs_file_at k.bifs i)) };
})

-- `proc->procfs_name_file->data`, for a name or none
abbrev pub name_text : Option (List ℕ) → FileData
name_text none = text []
name_text (some name) = text name

abbrev pub proc_path : List ℕ
proc_path = b'/' ∷ b'p' ∷ b'r' ∷ b'o' ∷ b'c' ∷ []

abbrev pub stats_name : List ℕ
stats_name = b's' ∷ b't' ∷ b'a' ∷ b't' ∷ b's' ∷ []

abbrev pub name_name : List ℕ
name_name = b'n' ∷ b'a' ∷ b'm' ∷ b'e' ∷ []

abbrev pub make_stats : (proc dir : ℕ) → Option ℕ → M Kernel ℤ
make_stats proc dir none = pure (minus enfile)
make_stats proc dir (some file) = do
  change_bifs_file file (λ f. record f {
    parent = some dir;
    flags = bifs_readable + bifs_raw + bifs_tmpfile;
    name = stats_name;
    dataquery = stats_query proc;
  })
  pure (pos 0)

abbrev pub make_name : (proc dir : ℕ) → (name : Option (List ℕ)) → Option ℕ → M Kernel ℤ
make_name proc dir name none =
    change_proc proc (λ p. record p { procfs_name_file = none }) >> pure (minus enfile)
make_name proc dir name (some file) = do
  change_proc proc (λ p. record p { procfs_name_file = some file })
  change_bifs_file file (λ f. record f {
    parent = some dir;
    flags = bifs_readable + bifs_raw;
    name = name_name;
    contents = name_text name;
  })
  stats ← change_bifs bifs_allocate_file
  make_stats proc dir stats

abbrev pub make_dir : (proc : ℕ) → (name : Option (List ℕ)) → Option ℕ → M Kernel ℤ
make_dir proc name none =
    change_proc proc (λ p. record p { procfs_dir = none }) >> pure (minus enfile)
make_dir proc name (some dir) = do
  change_proc proc (λ p. record p { procfs_dir = some dir })
  file ← change_bifs bifs_allocate_file
  make_name proc dir name file

-- What `itoa` has written, up to the terminator.
abbrev pub string_of : List ℕ → List ℕ
string_of buf = take (kstrlen buf) buf

-- Behind the call of `itoa`.
abbrev pub make_piddir : (proc : ℕ) → (name : Option (List ℕ)) → ℤ × List ℕ → M Kernel ℤ
make_piddir proc name (status, piddir) = if is_negative status then pure (minus enobufs) else (do
  dir ← change_bifs (λ b. bifs_mkdir b proc_path (string_of piddir))
  make_dir proc name dir)

pub init_procfs_files : (proc : ℕ) → (name : Option (List ℕ)) → M Kernel ℤ
init_procfs_files proc name = do
  k ← get
  make_piddir proc name (itoa (replicate max_filename_len 0) max_filename_len (proc_at k proc).pid)
