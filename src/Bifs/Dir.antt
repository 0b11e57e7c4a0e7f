-- ===== src/Bifs/Dir.antt =====
-- Listing and making directories: `bifs_lsdir`, `bin_lsdir` and `bifs_mkdir`. The loops over the
-- tables run over what each entry adds to the list, `none` where the code says `continue`.
use riscv_hobby_os.Base.{
  ℕ, ◌+◌, ◌^◌, ◌<◌, ◌≡◌, false, Option, none, some, List, [], ◌∷◌, ◌++◌, map, ◌==◌, leb, points_to,
  is_some, if◌then◌else◌, get_or, set, count, ℤ, pos, minus, arith, ap, ◌∙◌,
}
use riscv_hobby_os.Errno.{enobufs}
use riscv_hobby_os.Str.{strncpy, kstrlen}
use riscv_hobby_os.Bifs.{BifsDir, BifsFile, Bifs, dir_at, bifs_opendirpath, bifs_allocate_dir}

pub record Dirent : Type 0 where
  pub flags : ℕ
  pub name : List ℕ

-- DIRENT_EXECUTABLE, DIRENT_DIRECTORY and MAX_FILENAME_LEN
abbrev pub dirent_executable : ℕ
dirent_executable = 4

abbrev pub dirent_directory : ℕ
dirent_directory = 2 ^ 16

abbrev pub max_filename_len : ℕ
max_filename_len = 16

abbrev pub no_dirent : Dirent
no_dirent = record { flags = 0; name = [] }

-- `de->flags = flags; strncpy(de->name, name, MAX_FILENAME_LEN)`
abbrev pub fill : Dirent → Dirent → Dirent
fill new de = record { flags = new.flags; name = strncpy de.name new.name max_filename_len }

-- The status, and the caller's array.
pub list_entries :
    (size : ℕ) → List (Option Dirent) → (de_index : ℕ) → List Dirent → ℤ × List Dirent
list_entries size [] de_index dirents = (pos de_index, dirents)
list_entries size (none ∷ rest) de_index dirents =
    if leb size de_index then (minus enobufs, dirents) else list_entries size rest de_index dirents
list_entries size (some new ∷ rest) de_index dirents =
    if leb size de_index
    then (minus enobufs, dirents)
    else list_entries size rest (de_index + 1)
        (set dirents de_index (fill new (get_or dirents de_index no_dirent)))

abbrev pub dir_entry : ℕ → BifsDir → Option Dirent
dir_entry dir d =
    if points_to d.parent dir
    then some (record { flags = dirent_directory; name = d.name })
    else none

abbrev pub file_entry : ℕ → BifsFile → Option Dirent
file_entry dir f =
    if points_to f.parent dir then some (record { flags = 0; name = f.name }) else none

abbrev pub entries_of : Bifs → ℕ → List (Option Dirent)
entries_of b dir = map (dir_entry dir) b.dirs ++ map (file_entry dir) b.files

pub bifs_lsdir : Bifs → (dir : ℕ) → List Dirent → (size : ℕ) → ℤ × List Dirent
bifs_lsdir b dir dirents size = list_entries size (entries_of b dir) 0 dirents

-- A program is its entry point, 0 for none, and its name.
abbrev pub program_entry : ℕ × List ℕ → Option Dirent
program_entry (entry_point, name) =
    if entry_point == 0 then none else some (record { flags = dirent_executable; name = name })

pub bin_lsdir : (userland_programs : List (ℕ × List ℕ)) → List Dirent → (size : ℕ) → ℤ × List Dirent
bin_lsdir userland_programs dirents size =
    list_entries size (map program_entry userland_programs) 0 dirents

-- `dir->name = name; dir->parent = parent`
abbrev pub name_dir : (parent : ℕ) → (name : List ℕ) → Option ℕ × Bifs → Option ℕ × Bifs
name_dir parent name (none, b) = (none, b)
name_dir parent name (some i, b) = (
  some i,
  record b { dirs = set b.dirs i (record (dir_at b i) { name = name; parent = some parent }) },
)

abbrev pub mkdir_in : Bifs → (name : List ℕ) → Option ℕ → Option ℕ × Bifs
mkdir_in b name none = (none, b)
mkdir_in b name (some parent) = name_dir parent name (bifs_allocate_dir b)

pub bifs_mkdir : Bifs → (parent_path name : List ℕ) → Option ℕ × Bifs
bifs_mkdir b parent_path name =
    mkdir_in b name (bifs_opendirpath b parent_path (kstrlen parent_path))

counted :
    (size : ℕ) (es : List (Option Dirent)) (i : ℕ) (ds : List Dirent)
    → count is_some es + i < size
    → (list_entries size es i ds).0 ≡ pos (count is_some es + i)
unfolding list_entries
counted size [] i ds h = ap pos (omega arith)
counted size (none ∷ es) i ds h = ground (arith, h, counted size es i ds)
counted size (some e ∷ es) i ds h =
    let room : leb size i ≡ false = ground (arith, h) in
    rw room (
      counted size es (i + 1) (set ds i (fill e (get_or ds i no_dirent))) (omega arith)
      ∙ ap pos (omega arith))

-- With room for more entries than the directory has, `bifs_lsdir` returns their number.
bifs_lsdir-count :
    (b : Bifs) (dir : ℕ) (dirents : List Dirent) (size : ℕ)
    → count is_some (entries_of b dir) < size
    → (bifs_lsdir b dir dirents size).0 ≡ pos (count is_some (entries_of b dir))
unfolding bifs_lsdir
bifs_lsdir-count b dir dirents size h =
    counted size (entries_of b dir) 0 dirents (omega (arith, h)) ∙ ap pos (omega arith)
