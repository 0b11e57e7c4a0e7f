-- ===== src/Fs/Open.antt =====
-- src/fs.c: `fs_init`, `fs_open`, `fs_read` and `fs_write`. What the function that a `read` or
-- `write` pointer holds does is a parameter, `Io`. A read's result is its status and the bytes that it puts in the
-- buffer. What a closure prints into the page of a temporary file is not modelled.
use Prim.Native.Nat.{bit_and}
use riscv_hobby_os.Base.{
  ℕ, ◌+◌, ◌-◌, Bool, true, false, not, Option, none, some, List, [], ◌∷◌, ◌++◌, M, done, fault,
  fails, null_deref, bad_cast, pure, get, modify, ◌>>=◌, ◌>>◌, ◌==◌, if◌then◌else◌, length, map,
  set, ℤ, pos, negsuc, minus, is_negative,
}
use riscv_hobby_os.Errno.{enomem, ebadfd}
use riscv_hobby_os.Page.{kalloc}
use riscv_hobby_os.Bifs.Init.{bifs_init}
use riscv_hobby_os.Bifs.{
  Bifs, FileData, no_data, text, tmp_page, bifs_tmpfile, bifs_file_at, bifs_open, bifs_read,
}
use riscv_hobby_os.Kernel.{
  Obj, null, bifs_obj, Handler, no_handler, uart_io, bifs_io, File, Kernel, proc_at, file_at,
  on_mem, change_file, myproc,
}
use riscv_hobby_os.Fs.{table_files, std_files}

abbrev pub as_stdin : File → File
as_stdin f = record f {
  readable = true;
  writable = false;
  is_pipe = false;
  fs_file = null;
  read = uart_io;
  write = no_handler;
}

-- stdout and stderr
abbrev pub as_stdout : File → File
as_stdout f = record f {
  readable = false;
  writable = true;
  is_pipe = false;
  fs_file = null;
  read = no_handler;
  write = uart_io;
}

abbrev pub console : Kernel → ℕ
console k = length k.files - std_files

abbrev pub unreferred : File → File
unreferred f = record f { refcount = 0 }

abbrev init_ftable : Kernel → Kernel
init_ftable k = record k {
  ftable_lock = 0;
  files =
      map unreferred (table_files k)
      ++ (as_stdin (file_at k (console k))
          ∷ as_stdout (file_at k (console k + 1))
          ∷ as_stdout (file_at k (console k + 2))
          ∷ []);
}

abbrev put_tree : Option Bifs → M Kernel (Unit {0})
put_tree none = fails null_deref
put_tree (some tree) = modify (λ k. record k { bifs = tree })

pub fs_init : M Kernel (Unit {0})
fs_init = do modify init_ftable; k ← get; put_tree (bifs_init k.bifs)

abbrev pub as_bifs : File → File
as_bifs f = record f { read = bifs_io; write = bifs_io }

-- `bf->data = f->tmpfile_mem`
abbrev pub set_data : (mem : ℕ) → Obj → M Kernel (Unit {0})
set_data mem (bifs_obj b) = modify (λ k. record k {
  bifs = record (k.bifs) {
    files = set k.bifs.files b (record (bifs_file_at k.bifs b) { contents = tmp_page mem });
  };
})
set_data mem null = λ k. fault null_deref
set_data mem _ = λ k. fault bad_cast

-- Behind the allocation of a temporary file's page.
abbrev pub with_tmpfile : (i mem : ℕ) → M Kernel ℤ
with_tmpfile i mem = do
  change_file i (λ f. record f { tmpfile_mem = mem })
  k ← get
  if mem == 0
      then pure (minus enomem)
      else (do set_data mem (file_at k i).fs_file; change_file i as_bifs; pure (pos 0))

abbrev pub open_tmpfile : (site i : ℕ) → M Kernel ℤ
open_tmpfile site i = do
  proc ← myproc
  k ← get
  mem ← on_mem (kalloc site (proc_at k proc).pid)
  with_tmpfile i mem

-- `status & BIFS_TMPFILE`, of a status that is not negative
abbrev pub is_tmpfile : ℤ → Bool
is_tmpfile (pos n) = not (bit_and n bifs_tmpfile == 0)
is_tmpfile (negsuc n) = false

-- `bifs_open` writes through its pointer where it finds a file.
abbrev pub set_fs_file : (i : ℕ) → Option ℕ → M Kernel (Unit {0})
set_fs_file i none = pure tt
set_fs_file i (some b) = change_file i (λ f. record f { fs_file = bifs_obj b })

-- Behind the call of `bifs_open`.
abbrev pub opened_file : (site i : ℕ) → ℤ × Option ℕ → M Kernel ℤ
opened_file site i (status, b) = do
  set_fs_file i b
  if is_negative status
      then pure status
      else if is_tmpfile status
      then open_tmpfile site i
      else change_file i as_bifs >> pure (pos 0)

unfoldable pub fs_open : (site i : ℕ) → (filepath : List ℕ) → M Kernel ℤ
fs_open site i filepath = do k ← get; opened_file site i (bifs_open k.bifs filepath)

-- The functions that the pointers hold: of a file, from a position, a size or the bytes.
pub record Io : Type 0 where
  pub read : Handler → (i position size : ℕ) → M Kernel (ℤ × List ℕ)
  pub write : Handler → (i position : ℕ) → List ℕ → M Kernel ℤ

abbrev pub is_no_handler : Handler → Bool
is_no_handler no_handler = true
is_no_handler _ = false

unfoldable pub fs_read : Io → (i position size : ℕ) → M Kernel (ℤ × List ℕ)
fs_read io i position size k =
    if is_no_handler (file_at k i).read
    then done (minus ebadfd, []) k
    else io.read (file_at k i).read i position size k

pub fs_write : Io → (i position : ℕ) → List ℕ → M Kernel ℤ
fs_write io i position bytes k =
    if is_no_handler (file_at k i).write
    then done (minus ebadfd) k
    else io.write (file_at k i).write i position bytes k

-- What a file's `data` points to; `page_text` is the text in a page.
abbrev pub content_of : (page_text : ℕ → List ℕ) → FileData → Option (List ℕ)
content_of page_text no_data = none
content_of page_text (text t) = some t
content_of page_text (tmp_page p) = some (page_text p)

abbrev pub read_data : (position size : ℕ) → Option (List ℕ) → M Kernel (ℤ × List ℕ)
read_data position size none k = fault null_deref
read_data position size (some t) k =
    let bytes = bifs_read t position size in done (pos (length bytes), bytes) k

-- `bifs_read` of an open file.
abbrev pub read_bifs : (page_text : ℕ → List ℕ) → (position size : ℕ) → Obj → M Kernel (ℤ × List ℕ)
read_bifs page_text position size (bifs_obj b) k =
    read_data position size (content_of page_text (bifs_file_at k.bifs b).contents) k
read_bifs page_text position size null k = fault null_deref
read_bifs page_text position size _ k = fault bad_cast
