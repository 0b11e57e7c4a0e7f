-- ===== src/Bifs.antt =====
-- src/bakedinfs.c: the file system in memory, two tables of directories and files. A name is the
-- list of its bytes, and a path is read up to its terminator: `path[i]` behind the end is 0. The
-- text of `procfs_sysmem_data_func` is not modelled.

pub mod Words
pub mod Dir
pub mod Read
pub mod Resolve
pub mod Names
pub mod Init
pub mod Tests
use riscv_hobby_os.Base.{
  ℕ, zero, suc, ◌+◌, ◌-◌, ◌%◌, ◌^◌, Bool, true, false, not, ◌&&◌, ◌||◌, Option, none, some, List,
  [], ◌∷◌, ◌++◌, ◌==◌, ltb, leb, points_to, if◌then◌else◌, length, get_or, set, take, drop,
  find_index, ℤ, pos, negsuc, minus, is_zero,
}
use riscv_hobby_os.Errno.{enoent, enosys, enobufs}
use riscv_hobby_os.Str.{strncmp, strncpy, kstrlen}

-- BIFS_READABLE and the other bits of `flags`
abbrev pub bifs_readable : ℕ
bifs_readable = 1

abbrev pub bifs_raw : ℕ
bifs_raw = 4

abbrev pub bifs_tmpfile : ℕ
bifs_tmpfile = 16

-- The value of a `lsdir` pointer.
pub data Lister : Type 0 where
  bifs_lister bin_lister : Lister

pub record BifsDir : Type 0 where
  pub flags : ℕ
  pub name : List ℕ
  pub parent : Option ℕ
  pub lsdir : Lister

-- Where a file's `data` points to: nowhere, a text, or a page that an open file owns.
pub data FileData : Type 0 where
  no_data : FileData
  text : List ℕ → FileData
  tmp_page : ℕ → FileData

-- Which closure a file's `dataquery` holds, with the process that it asks.
pub data DataQuery : Type 0 where
  no_query sysmem_query : DataQuery
  stats_query : ℕ → DataQuery

pub record BifsFile : Type 0 where
  pub flags : ℕ
  pub name : List ℕ
  pub parent : Option ℕ
  pub contents : FileData
  pub dataquery : DataQuery

-- Entry 0 of `dirs` is the root.
pub record Bifs : Type 0 where
  pub dirs : List BifsDir
  pub files : List BifsFile

abbrev pub root : ℕ
root = 0

abbrev pub no_dir : BifsDir
no_dir = record { flags = 0; name = []; parent = none; lsdir = bifs_lister }

abbrev pub no_bifs_file : BifsFile
no_bifs_file = record {
  flags = 0;
  name = [];
  parent = none;
  contents = no_data;
  dataquery = no_query;
}

abbrev pub dir_at : Bifs → ℕ → BifsDir
dir_at b i = get_or b.dirs i no_dir

abbrev pub bifs_file_at : Bifs → ℕ → BifsFile
bifs_file_at b i = get_or b.files i no_bifs_file

abbrev pub free_dir : BifsDir → Bool
free_dir d = d.flags == 0

abbrev pub free_file : BifsFile → Bool
free_file f = f.flags == 0

abbrev take_dir : Bifs → Option ℕ → Option ℕ × Bifs
take_dir b none = (none, b)
take_dir b (some i) = (
  some i,
  record b {
    dirs = set b.dirs i (record (dir_at b i) { flags = bifs_readable; lsdir = bifs_lister });
  },
)

pub bifs_allocate_dir : Bifs → Option ℕ × Bifs
bifs_allocate_dir b = take_dir b (find_index free_dir b.dirs)

abbrev take_file : Bifs → Option ℕ → Option ℕ × Bifs
take_file b none = (none, b)
take_file b (some i) = (
  some i,
  record b { files = set b.files i (record (bifs_file_at b i) { flags = bifs_readable }) },
)

pub bifs_allocate_file : Bifs → Option ℕ × Bifs
bifs_allocate_file b = take_file b (find_index free_file b.files)

abbrev pub char_at : List ℕ → ℕ → ℕ
char_at path i = get_or path i 0

-- The loop of `next_slash`, over the path from `pos` on.
abbrev pub slash_from : List ℕ → ℕ → ℕ
slash_from [] i = i
slash_from (ch ∷ rest) i = if ch == b'/' then i else slash_from rest (i + 1)

pub next_slash : List ℕ → ℕ → ℕ
next_slash path i = slash_from (drop i path) i

-- `strncmp(d->name, name+start, end-start) == 0`
abbrev pub same_name : (entry path : List ℕ) (start end : ℕ) → Bool
same_name entry path start end =
    is_zero (strncmp entry (drop start path) ((end + 2 ^ 32 - start) % 2 ^ 32))

-- "assume root"
abbrev pub or_root : Option ℕ → ℕ
or_root none = root
or_root (some i) = i

abbrev pub behind_root : Option ℕ → Option ℕ
behind_root none = none
behind_root (some i) = some (i + 1)

-- The loop starts at entry 1, so it does not find the root.
unfoldable pub bifs_opendir : Bifs → Option ℕ → List ℕ → (start end : ℕ) → Option ℕ
bifs_opendir b parent path start end = behind_root (
    find_index (λ d. points_to d.parent (or_root parent) && same_name d.name path start end)
      (drop 1 b.dirs))

abbrev opened : Bifs → Option ℕ → ℤ × Option ℕ
opened b none = (minus enoent, none)
opened b (some i) = (pos (bifs_file_at b i).flags, some i)

-- The status is the file's flags; the file is the entry's index.
pub bifs_openfile : Bifs → Option ℕ → List ℕ → (start end : ℕ) → ℤ × Option ℕ
bifs_openfile b parent path start end = opened b (
    find_index (λ f. points_to f.parent (or_root parent) && same_name f.name path start end)
      b.files)

-- Behind the loop: the last word of the path, unless it is empty or lies behind `end`.
abbrev last_word : Bifs → (path : List ℕ) → (end prev_slash slash dir : ℕ) → Option ℕ
last_word b path end prev_slash slash dir =
    if not (char_at path (slash - 1) == b'/') && leb slash end
    then bifs_opendir b (some dir) path (prev_slash + 1) slash
    else some dir

-- `if (!*dir) return -ENOENT;`
abbrev pub and_open : Option ℕ → (ℕ → Option ℕ) → Option ℕ
and_open none next = none
and_open (some dir) next = next dir

-- The loop of `bifs_opendirpath`. A round moves `slash_pos` on, so the path's length is fuel enough.
walk_path : (fuel : ℕ) → Bifs → (path : List ℕ) → (end prev_slash slash dir : ℕ) → Option ℕ
walk_path zero b path end prev_slash slash dir = last_word b path end prev_slash slash dir
walk_path (suc fuel) b path end prev_slash slash dir =
    if not (char_at path slash == 0) && ltb slash end
    then and_open (bifs_opendir b (some dir) path (prev_slash + 1) slash)
        (λ next. walk_path fuel b path end slash (next_slash path (slash + 1)) next)
    else last_word b path end prev_slash slash dir

-- The directory, or `none` where the function returns -ENOENT.
pub bifs_opendirpath : Bifs → (path : List ℕ) → (end : ℕ) → Option ℕ
unfolding walk_path
bifs_opendirpath b path end = walk_path (length path) b path end 0 (next_slash path 1) root

-- `while (filepath[zero_pos] != 0) { last_slash_pos = zero_pos; zero_pos = next_slash(...); }`
last_slash : (fuel : ℕ) → List ℕ → (last_slash_pos zero_pos : ℕ) → ℕ × ℕ
last_slash zero path last_slash_pos zero_pos = (last_slash_pos, zero_pos)
last_slash (suc fuel) path last_slash_pos zero_pos =
    let more = last_slash fuel path zero_pos (next_slash path (zero_pos + 1)) in
    if char_at path zero_pos == 0 then (last_slash_pos, zero_pos) else more

pub bifs_open : Bifs → List ℕ → ℤ × Option ℕ
unfolding last_slash
bifs_open b path =
    if char_at path 0 == b'/'
    then (let (last_slash_pos, zero_pos) = last_slash (length path) path 0 0 in
        elim (bifs_opendirpath b path last_slash_pos) [
          | none ↦ (minus enoent, none)
          | some dir ↦ bifs_openfile b (some dir) path (last_slash_pos + 1) zero_pos
        ])
    else (minus enosys, none)

-- The loop of `bifs_read` over the data from `position` on: the bytes that go to the buffer.
abbrev pub read_text : List ℕ → (size : ℕ) → List ℕ
read_text [] size = []
read_text (ch ∷ rest) zero = []
read_text (ch ∷ rest) (suc size) = ch ∷ read_text rest size

unfoldable pub bifs_read : (content : List ℕ) → (position size : ℕ) → List ℕ
bifs_read content position size = read_text (drop position content) size

-- TODO in the source
pub bifs_write : ℤ
bifs_write = minus enosys
