-- ===== src/Bifs/Init.antt =====
-- `bifs_init` of src/bakedinfs.c: the tree that the kernel starts with.
use riscv_hobby_os.Base.{ℕ, ◌+◌, Option, none, some, List, [], ◌∷◌, length, set, replicate}
use riscv_hobby_os.Bifs.{
  Bifs, no_data, text, sysmem_query, bin_lister, no_dir, no_bifs_file, dir_at, bifs_file_at,
  bifs_readable, bifs_raw, bifs_tmpfile, bifs_allocate_dir,
}

-- Both tables behind `memset`.
abbrev cleared : Bifs → Bifs
cleared b = record {
  dirs = replicate (length b.dirs) no_dir;
  files = replicate (length b.files) no_bifs_file;
}

-- A directory is taken and named, and the rest goes on with it. Where none is free, the code writes through a null
-- pointer, and there is no tree.
abbrev named_dir :
    (name : List ℕ) → (parent : Option ℕ) → (ℕ → Bifs → Option Bifs) → Option ℕ × Bifs → Option Bifs
named_dir name parent rest (none, b) = none
named_dir name parent rest (some i, b) =
    rest i (record b { dirs = set b.dirs i (record (dir_at b i) { name = name; parent = parent }) })

abbrev with_dir :
    (name : List ℕ) → (parent : Option ℕ) → (ℕ → Bifs → Option Bifs) → Bifs → Option Bifs
with_dir name parent rest b = named_dir name parent rest (bifs_allocate_dir b)

-- The fields that are set for each file.
abbrev put_file : (i dir : ℕ) → (name contents : List ℕ) → Bifs → Bifs
put_file i dir name contents b = record b {
  files = set b.files i (record (bifs_file_at b i) {
    flags = bifs_readable + bifs_raw;
    parent = some dir;
    name = name;
    contents = text contents;
  });
}

abbrev put_sysmem : (i dir : ℕ) → (name : List ℕ) → Bifs → Bifs
put_sysmem i dir name b = record b {
  files = set b.files i (record (bifs_file_at b i) {
    flags = bifs_readable + bifs_raw + bifs_tmpfile;
    parent = some dir;
    name = name;
    contents = no_data;
    dataquery = sysmem_query;
  });
}

-- The names
abbrev pub proc_name : List ℕ
proc_name = b'p' ∷ b'r' ∷ b'o' ∷ b'c' ∷ []

abbrev pub home_name : List ℕ
home_name = b'h' ∷ b'o' ∷ b'm' ∷ b'e' ∷ []

abbrev pub bin_name : List ℕ
bin_name = b'b' ∷ b'i' ∷ b'n' ∷ []

abbrev pub slash_name : List ℕ
slash_name = 47 ∷ []

abbrev pub readme_name : List ℕ
readme_name = b'r' ∷ b'e' ∷ b'a' ∷ b'd' ∷ b'm' ∷ b'e' ∷ 46 ∷ b't' ∷ b'x' ∷ b't' ∷ []

abbrev pub readme_text : List ℕ
readme_text =
    b'H' ∷ b'e' ∷ b'l' ∷ b'l' ∷ b'o' ∷ 44 ∷ 32 ∷ b'I' ∷ 32 ∷ b'a' ∷ b'm' ∷ 32 ∷ b'F' ∷ b'i' ∷ b'l'
    ∷ b'e' ∷ 32 ∷ b'Z' ∷ b'e' ∷ b'r' ∷ b'o' ∷ 46 ∷ 10 ∷ []

abbrev pub file_name : List ℕ
file_name = b'f' ∷ b'i' ∷ b'l' ∷ b'e' ∷ []

abbrev pub file_text : List ℕ
file_text =
    b'A' ∷ 32 ∷ b'v' ∷ b'e' ∷ b'r' ∷ b'y' ∷ 32 ∷ b's' ∷ b'h' ∷ b'o' ∷ b'r' ∷ b't' ∷ 32 ∷ b't' ∷ b'e'
    ∷ b'x' ∷ b't' ∷ 46 ∷ 10 ∷ []

abbrev pub read_me_name : List ℕ
read_me_name = b'r' ∷ b'e' ∷ b'a' ∷ b'd' ∷ 46 ∷ b'm' ∷ b'e' ∷ []

abbrev pub read_me_text : List ℕ
read_me_text =
    b'T' ∷ b'h' ∷ b'i' ∷ b's' ∷ 32 ∷ b'I' ∷ b's' ∷ 32 ∷ b'F' ∷ b'i' ∷ b'l' ∷ b'e' ∷ 32 ∷ b'O' ∷ b'n'
    ∷ b'e' ∷ 46 ∷ 32 ∷ b'F' ∷ b'i' ∷ b'l' ∷ b'e' ∷ 32 ∷ b'Z' ∷ b'e' ∷ b'r' ∷ b'o' ∷ 32 ∷ b'i' ∷ b's'
    ∷ 32 ∷ b'a' ∷ b't' ∷ 32 ∷ b'r' ∷ b'o' ∷ b'o' ∷ b't' ∷ 46 ∷ 10 ∷ []

abbrev pub smoke_test_name : List ℕ
smoke_test_name =
    b's' ∷ b'm' ∷ b'o' ∷ b'k' ∷ b'e' ∷ 45 ∷ b't' ∷ b'e' ∷ b's' ∷ b't' ∷ 46 ∷ b's' ∷ b'h' ∷ []

abbrev pub smoke_test_text : List ℕ
smoke_test_text =
    b'f' ∷ b'm' ∷ b't' ∷ 10 ∷ b's' ∷ b'y' ∷ b's' ∷ b'i' ∷ b'n' ∷ b'f' ∷ b'o' ∷ 10 ∷ b'p' ∷ b's' ∷ 10
    ∷ b'c' ∷ b'a' ∷ b't' ∷ 32 ∷ 47 ∷ b'r' ∷ b'e' ∷ b'a' ∷ b'd' ∷ b'm' ∷ b'e' ∷ 46 ∷ b't' ∷ b'x'
    ∷ b't' ∷ 32 ∷ 124 ∷ 32 ∷ b'w' ∷ b'c' ∷ 10 ∷ b'i' ∷ b't' ∷ b'e' ∷ b'r' ∷ 32 ∷ b'3' ∷ b'0' ∷ b'0'
    ∷ 32 ∷ 124 ∷ 32 ∷ b'w' ∷ b'c' ∷ 10 ∷ b't' ∷ b'e' ∷ b's' ∷ b't' ∷ b'p' ∷ b'r' ∷ b'i' ∷ b'n'
    ∷ b't' ∷ b'f' ∷ 10 ∷ b'e' ∷ b'c' ∷ b'h' ∷ b'o' ∷ 32 ∷ b'Q' ∷ b'U' ∷ b'I' ∷ b'T' ∷ 95 ∷ b'Q'
    ∷ b'E' ∷ b'M' ∷ b'U' ∷ []

abbrev pub daemon_test_name : List ℕ
daemon_test_name =
    b'd' ∷ b'a' ∷ b'e' ∷ b'm' ∷ b'o' ∷ b'n' ∷ 45 ∷ b't' ∷ b'e' ∷ b's' ∷ b't' ∷ 46 ∷ b's' ∷ b'h' ∷ []

abbrev pub daemon_test_text : List ℕ
daemon_test_text =
    b'f' ∷ b'i' ∷ b'b' ∷ b'd' ∷ 10 ∷ b'p' ∷ b's' ∷ 10 ∷ b'w' ∷ b'a' ∷ b'i' ∷ b't' ∷ 32 ∷ b'1' ∷ 32
    ∷ b'3' ∷ 10 ∷ b'f' ∷ b'i' ∷ b'b' ∷ 32 ∷ b'1' ∷ 10 ∷ b'w' ∷ b'a' ∷ b'i' ∷ b't' ∷ 32 ∷ b'1' ∷ 32
    ∷ b'1' ∷ 10 ∷ b'f' ∷ b'i' ∷ b'b' ∷ 32 ∷ b'1' ∷ 10 ∷ b'c' ∷ b'a' ∷ b't' ∷ 32 ∷ 47 ∷ b'p' ∷ b'r'
    ∷ b'o' ∷ b'c' ∷ 47 ∷ b'1' ∷ 47 ∷ b's' ∷ b't' ∷ b'a' ∷ b't' ∷ b's' ∷ 10 ∷ b's' ∷ b'y' ∷ b's'
    ∷ b'i' ∷ b'n' ∷ b'f' ∷ b'o' ∷ 10 ∷ b'e' ∷ b'c' ∷ b'h' ∷ b'o' ∷ 32 ∷ b'Q' ∷ b'U' ∷ b'I' ∷ b'T'
    ∷ 95 ∷ b'Q' ∷ b'E' ∷ b'M' ∷ b'U' ∷ []

abbrev pub ls_test_name : List ℕ
ls_test_name = b'l' ∷ b's' ∷ 45 ∷ b't' ∷ b'e' ∷ b's' ∷ b't' ∷ 46 ∷ b's' ∷ b'h' ∷ []

abbrev pub ls_test_text : List ℕ
ls_test_text =
    b'l' ∷ b's' ∷ 10 ∷ b'l' ∷ b's' ∷ 32 ∷ 47 ∷ b'h' ∷ b'o' ∷ b'm' ∷ b'e' ∷ 10 ∷ b'l' ∷ b's' ∷ 32
    ∷ 47 ∷ b'h' ∷ b'o' ∷ b'm' ∷ b'e' ∷ 47 ∷ 10 ∷ b'l' ∷ b's' ∷ 32 ∷ 47 ∷ b'b' ∷ b'i' ∷ b'n' ∷ 10
    ∷ b'l' ∷ b's' ∷ 32 ∷ 47 ∷ b'p' ∷ b'r' ∷ b'o' ∷ b'c' ∷ 10 ∷ b'c' ∷ b'a' ∷ b't' ∷ 32 ∷ 45 ∷ b'n'
    ∷ 32 ∷ 47 ∷ b'p' ∷ b'r' ∷ b'o' ∷ b'c' ∷ 47 ∷ b'0' ∷ 47 ∷ b'n' ∷ b'a' ∷ b'm' ∷ b'e' ∷ 10 ∷ b'e'
    ∷ b'c' ∷ b'h' ∷ b'o' ∷ 32 ∷ b'Q' ∷ b'U' ∷ b'I' ∷ b'T' ∷ 95 ∷ b'Q' ∷ b'E' ∷ b'M' ∷ b'U' ∷ []

abbrev pub leaky_test_name : List ℕ
leaky_test_name =
    b'l' ∷ b'e' ∷ b'a' ∷ b'k' ∷ b'y' ∷ 45 ∷ b't' ∷ b'e' ∷ b's' ∷ b't' ∷ 46 ∷ b's' ∷ b'h' ∷ []

abbrev pub leaky_test_text : List ℕ
leaky_test_text =
    b's' ∷ b'y' ∷ b's' ∷ b'i' ∷ b'n' ∷ b'f' ∷ b'o' ∷ 10 ∷ b'h' ∷ b'a' ∷ b'n' ∷ b'g' ∷ 10 ∷ b's'
    ∷ b'y' ∷ b's' ∷ b'i' ∷ b'n' ∷ b'f' ∷ b'o' ∷ 10 ∷ b'p' ∷ b's' ∷ 10 ∷ b'e' ∷ b'c' ∷ b'h' ∷ b'o'
    ∷ 32 ∷ b'Q' ∷ b'U' ∷ b'I' ∷ b'T' ∷ 95 ∷ b'Q' ∷ b'E' ∷ b'M' ∷ b'U' ∷ []

abbrev pub sysmem_name : List ℕ
sysmem_name = b's' ∷ b'y' ∷ b's' ∷ b'm' ∷ b'e' ∷ b'm' ∷ []

abbrev init_files : (root home procfs : ℕ) → Bifs → Bifs
init_files root home procfs b =
    let b0 = put_file 0 root readme_name readme_text b in
    let b1 = put_file 1 root file_name file_text b0 in
    let b2 = put_file 2 home read_me_name read_me_text b1 in
    let b3 = put_file 3 home smoke_test_name smoke_test_text b2 in
    let b4 = put_file 4 home daemon_test_name daemon_test_text b3 in
    let b5 = put_file 5 home ls_test_name ls_test_text b4 in
    let b6 = put_file 6 home leaky_test_name leaky_test_text b5 in
    put_sysmem 7 procfs sysmem_name b6

abbrev init_bin : (bin : ℕ) → Bifs → Bifs
init_bin bin b = record b { dirs = set b.dirs bin (record (dir_at b bin) { lsdir = bin_lister }) }

unfoldable pub bifs_init : Bifs → Option Bifs
bifs_init b =
    with_dir slash_name none
      (λ root. with_dir proc_name (some root) (λ procfs. with_dir home_name (some root) (λ home.
        with_dir bin_name (some root)
          (λ bin b. some (init_files root home procfs (init_bin bin b))))))
      (cleared b)
