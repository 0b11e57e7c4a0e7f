-- ===== src/Fs.antt =====
-- src/fs.c: the table of open files. MAX_FILES is the length of `files` without `stdin`, `stdout`
-- and `stderr`, which stand behind the table. `Open` has `fs_init` and what calls through a
-- file's pointers.
pub mod Alloc
pub mod Open
mod Tests
use riscv_hobby_os.Base.{
  ℕ, ◌+◌, ◌-◌, ◌%◌, ◌^◌, Bool, true, false, not, Option, none, some, List, M, pure, fails, get,
  modify, ◌>>=◌, ◌>>◌, and_then, null_deref, bad_cast, ◌==◌, if◌then◌else◌, length, take, set,
  find_index, ℤ,
}
use riscv_hobby_os.Page.{release_page}
use riscv_hobby_os.Bifs.{BifsFile, Bifs, no_data, bifs_file_at}
use riscv_hobby_os.Kernel.{
  Obj, null, uart0, pipe_obj, proc_obj, bifs_obj, File, Kernel, file_at, set_file, on_mem,
  with_ftable, acquire, release, change_file,
}
use riscv_hobby_os.PipeTable.{pipe_close_file}

-- stdin, stdout, stderr
abbrev pub std_files : ℕ
std_files = 3

abbrev pub table_files : Kernel → List File
table_files k = take (length k.files - std_files) k.files

abbrev pub unused : File → Bool
unused f = f.refcount == 0

abbrev pub opened : File → File
opened f = record f {
  refcount = 1;
  position = 0;
  readable = false;
  writable = false;
  is_pipe = false;
}

pub fs_alloc_file : M Kernel (Option ℕ)
fs_alloc_file = do
  with_ftable acquire
  k ← get
  elim (find_index unused (table_files k)) [
    | none ↦ with_ftable release >> pure none
    | some i ↦ do change_file i opened; with_ftable release; pure (some i)
  ]

-- `bf->data = 0`, where `fs_file` is taken for a file of bakedinfs.
abbrev pub clear_data : Obj → M Kernel (Unit {0})
clear_data (bifs_obj i) = modify (λ k. record k {
  bifs = record (k.bifs) {
    files = set k.bifs.files i (record (bifs_file_at k.bifs i) { contents = no_data });
  };
})
clear_data null = fails null_deref
clear_data _ = fails bad_cast

-- `refcount` is a `uint32_t`: it wraps around at 0.
abbrev pub unref : File → File
unref f = record f { refcount = (f.refcount + 2 ^ 32 - 1) % 2 ^ 32 }

abbrev pub free_tmpfile : ℕ → M Kernel (Unit {0})
free_tmpfile i = do
  k ← get
  on_mem (release_page (file_at k i).tmpfile_mem)
  change_file i (λ f. record f { tmpfile_mem = 0 })
  clear_data (file_at k i).fs_file

pub fs_free_file : ℕ → M Kernel (Unit {0})
fs_free_file i = do
  change_file i unref
  k ← get
  (if (file_at k i).is_pipe then pipe_close_file i >>= (λ _. pure tt) else pure tt)
  k' ← get
  if (file_at k' i).tmpfile_mem == 0 then pure tt else free_tmpfile i
