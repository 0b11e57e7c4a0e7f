-- ===== src/Proc/Io/Open.antt =====
-- Opening a file, where it fails and where it does not.
use riscv_hobby_os.Base.{
  ℕ, ◌+◌, ◌-◌, ◌<◌, ◌≡◌, refl, ◌∙◌, ap, Bool, false, none, some, List, done, arith, M, Run, ◌>>=◌,
  ◌>>◌, pure, >>=-done, >>-done, if◌then◌else◌, length, length-set, get_elem?, find_index,
  find_index-some, get_elem?-lt, get_elem?-set_self, length-take, ℤ, pos, negsuc, minus,
}
use riscv_hobby_os.Errno.{emfile}
use riscv_hobby_os.Bifs.{bifs_file_at, bifs_open}
use riscv_hobby_os.Kernel.{
  bifs_obj, File, Process, Kernel, no_proc, no_file, proc_at, set_proc, file_at, set_file,
  with_proc, acquire, release, write_word, change_file, change_proc, myproc,
}
use riscv_hobby_os.Kernel.Locks.{lock_proc}
use riscv_hobby_os.Proc.Table.Slots.{set-set, get_or-set}
use riscv_hobby_os.Proc.Sched.Laws.{change_again}
use riscv_hobby_os.Proc.Fds.Laws.{is_null-none, set-set_same, alloc_none, alloc_some}
use riscv_hobby_os.Proc.Fds.{is_null, set_fd, fd_alloc}
use riscv_hobby_os.Fs.{std_files, unused, opened, table_files, fs_alloc_file}
use riscv_hobby_os.Fs.Alloc.{fs_alloc_file-found}
use riscv_hobby_os.Fs.Open.{
  content_of, as_bifs, set_fs_file, open_tmpfile, opened_file, fs_open, is_tmpfile,
}
use riscv_hobby_os.Proc.Io.Read.{IsOpen}
use riscv_hobby_os.Proc.Io.{open_at, open_done, open_file, open_path, refuse_locked, proc_open}

module _ (site proc i : ℕ) (path : List ℕ) (k : Kernel) (e : k.cur ≡ some proc)
    (l : proc < length k.procs) (u : (proc_at k proc).lock ≡ 0) (t : k.ftable_lock ≡ 0)
    (f : find_index unused (table_files k) ≡ some i) where
  abbrev taken : Kernel
  taken = set_file i (opened (file_at k i)) k

  abbrev caller : Process
  caller = record (proc_at k proc) { lock = 1 }

  -- Up to the call of `fd_alloc`.
  up_to_fd :
      {r : Run Kernel ℤ}
      → (fd_alloc proc i >>= open_at site proc i path) (set_proc proc caller taken) ≡ r
      → proc_open site (some path) k ≡ r
  unfolding proc_open
  up_to_fd g =
      >>=-done myproc (λ proc. open_path site proc (some path)) k {a = proc} {s' = k} (rw e refl)
        (>>=-done fs_alloc_file (open_file site proc path) k {a = some i} {s' = taken}
          (fs_alloc_file-found k i t f)
          (>>-done (with_proc proc acquire) (fd_alloc proc i >>= open_at site proc i path) taken
            (lock_proc proc taken u) g))

  abbrev locked_state : Kernel
  locked_state = set_proc proc caller taken

  here : proc_at locked_state proc ≡ caller
  here = get_or-set k.procs proc caller no_proc l

  inside : proc < length locked_state.procs
  inside = omega (arith, l, length-set k.procs proc caller)

  -- With descriptor `fd` referring to the file.
  abbrev attached : (fd : ℕ) → Process
  attached fd = set_fd fd (some i) caller

  attaches :
      (fd : ℕ)
      → find_index is_null (proc_at k proc).files ≡ some fd
      → fd_alloc proc i locked_state ≡ done (pos fd) (set_proc proc (attached fd) taken)
  attaches fd g =
      alloc_some proc i locked_state inside fd (ap (λ p. find_index is_null p.files) here ∙ g)
      ∙ ap (λ p. done (pos fd) (set_proc proc (set_fd fd (some i) p) locked_state)) here
      ∙ ap (λ ps. done (pos fd) (record taken { procs = ps }))
          (set-set k.procs proc caller (attached fd))

  -- The error number and the lock, on the way out of a failure.
  refuses :
      (q : Process) (code : ℕ) (K : Kernel)
      → proc < length K.procs
      → refuse_locked proc code (set_proc proc q K)
        ≡ done (minus 1) (set_proc proc (record q { lock = 0 }) (write_word q.perrno code K))
  refuses q code K m =
      ap
        (λ p.
          (with_proc proc release >> pure (minus 1)) (write_word p.perrno code (set_proc proc q K)))
        (get_or-set K.procs proc q no_proc m)
      ∙ >>-done (with_proc proc release) (pure (minus 1))
          (write_word q.perrno code (set_proc proc q K))
          (change_again proc (write_word q.perrno code K) m (λ p. record p { lock = 0 }) q) refl

  -- Where `open` fails behind the allocation of the file: the file stays taken.
  abbrev failed : (code : ℕ) → Kernel
  failed code =
      set_proc proc (record (proc_at k proc) { lock = 0 })
        (write_word (proc_at k proc).perrno code taken)

  pub no_fd :
      find_index is_null (proc_at k proc).files ≡ none
      → proc_open site (some path) k ≡ done (minus 1) (failed emfile)
  no_fd g = up_to_fd (
      >>=-done (fd_alloc proc i) (open_at site proc i path) locked_state {a = minus 1}
        {s' = locked_state}
        (alloc_none proc i locked_state inside (ap (λ p. find_index is_null p.files) here ∙ g))
        (refuses caller emfile taken l))

  pub not_opened :
      (fd n : ℕ)
      → find_index is_null (proc_at k proc).files ≡ some fd
      → bifs_open k.bifs path ≡ (negsuc n, none)
      → proc_open site (some path) k ≡ done (minus 1) (failed (n + 1))
  unfolding fs_open
  not_opened fd n g h = up_to_fd (
      >>=-done (fd_alloc proc i) (open_at site proc i path) locked_state (attaches fd g) (
        >>=-done (fs_open site i path) (open_done proc fd) (set_proc proc (attached fd) taken)
          {a = negsuc n} {s' = set_proc proc (attached fd) taken}
          (ap (λ r. opened_file site i r (set_proc proc (attached fd) taken)) h)
          (>>-done (change_proc proc (set_fd fd none)) (refuse_locked proc (n + 1))
            (set_proc proc (attached fd) taken)
            (change_again proc taken l (set_fd fd none) (attached fd))
            (refuses (set_fd fd none (attached fd)) (n + 1) taken l
              ∙ ap
                  (λ fs. done (minus 1) (
                    set_proc proc (record (proc_at k proc) { lock = 0; files = fs })
                      (write_word (proc_at k proc).perrno (n + 1) taken)))
                  (set-set_same (proc_at k proc).files fd none (some i) was_null)))))
    where
      was_null : get_elem? (proc_at k proc).files fd ≡ some none
      was_null =
          let (o, a, b) = find_index-some is_null (proc_at k proc).files fd g in
          a ∙ ap some (is_null-none o b)

  change_file_again :
      (g : File → File) (a : File) (K : Kernel)
      → i < length K.files
      → change_file i g (set_file i a K) ≡ done tt (set_file i (g a) K)
  change_file_again g a K m =
      ap (λ p. done tt (set_file i (g p) (set_file i a K))) (get_or-set K.files i a no_file m)
      ∙ ap (λ fs. done tt (record K { files = fs })) (set-set K.files i a (g a))

  pub in_files : i < length k.files
  in_files =
      let (o, a, b) = find_index-some unused (table_files k) i f in
      omega
        (arith, get_elem?-lt (table_files k) i a, length-take (length k.files - std_files) k.files)

  -- The file as it is opened.
  abbrev pub open_file_of : (b : ℕ) → File
  open_file_of b = as_bifs (record (opened (file_at k i)) { fs_file = bifs_obj b })

  abbrev pub opened_state : (fd b : ℕ) → Kernel
  opened_state fd b =
      set_proc proc (record (attached fd) { lock = 0 }) (set_file i (open_file_of b) k)

  becomes_bifs :
      (fd b n : ℕ)
      → is_tmpfile (pos n) ≡ false
      → opened_file site i (pos n, some b) (set_proc proc (attached fd) taken)
        ≡ done (pos 0) (set_file i (open_file_of b) (set_proc proc (attached fd) k))
  becomes_bifs fd b n m =
      >>-done (set_fs_file i (some b)) (with_status (is_tmpfile (pos n)))
        (set_proc proc (attached fd) taken)
        (change_file_again (λ f. record f { fs_file = bifs_obj b }) (opened (file_at k i))
          (set_proc proc (attached fd) k) in_files)
        (ap (λ c. with_status c (set_file i with_entry (set_proc proc (attached fd) k))) m
          ∙ >>-done (change_file i as_bifs) (pure (pos 0))
              (set_file i with_entry (set_proc proc (attached fd) k))
              (change_file_again as_bifs with_entry (set_proc proc (attached fd) k) in_files) refl)
    where
      with_status : Bool → M Kernel ℤ
      with_status c = if c then open_tmpfile site i else change_file i as_bifs >> pure (pos 0)

      with_entry : File
      with_entry = record (opened (file_at k i)) { fs_file = bifs_obj b }

  pub opens :
      (fd b n : ℕ)
      → find_index is_null (proc_at k proc).files ≡ some fd
      → bifs_open k.bifs path ≡ (pos n, some b)
      → is_tmpfile (pos n) ≡ false
      → proc_open site (some path) k ≡ done (pos fd) (opened_state fd b)
  unfolding fs_open
  opens fd b n g h m = up_to_fd (
      >>=-done (fd_alloc proc i) (open_at site proc i path) locked_state (attaches fd g) (
        >>=-done (fs_open site i path) (open_done proc fd) (set_proc proc (attached fd) taken)
          {a = pos 0} {s' = set_file i (open_file_of b) (set_proc proc (attached fd) k)}
          (ap (λ r. opened_file site i r (set_proc proc (attached fd) taken)) h
            ∙ becomes_bifs fd b n m)
          (>>-done (with_proc proc release) (pure (pos fd))
            (set_file i (open_file_of b) (set_proc proc (attached fd) k))
            (change_again proc (set_file i (open_file_of b) k) l (λ p. record p { lock = 0 })
              (attached fd))
            refl)))

  pub opened-IsOpen :
      (page_text : ℕ → List ℕ) (fd b : ℕ) (text : List ℕ)
      → find_index is_null (proc_at k proc).files ≡ some fd
      → content_of page_text (bifs_file_at k.bifs b).contents ≡ some text
      → IsOpen page_text proc fd i b text (opened_state fd b)
  opened-IsOpen page_text fd b text g c = record {
    runs = e;
    fd_open =
        ap (λ p. get_elem? p.files fd) at_proc
        ∙ get_elem?-set_self (proc_at k proc).files fd (some i) fd_in;
    in_table = omega (arith, in_files, length-set k.files i (open_file_of b));
    reads = ap (λ f. f.read) at_file;
    entry = ap (λ f. f.fs_file) at_file;
    content = c;
  }
    where
      at_proc : proc_at (opened_state fd b) proc ≡ record (attached fd) { lock = 0 }
      at_proc = get_or-set k.procs proc (record (attached fd) { lock = 0 }) no_proc l

      at_file : file_at (opened_state fd b) i ≡ open_file_of b
      at_file = get_or-set k.files i (open_file_of b) no_file in_files

      fd_in : fd < length (proc_at k proc).files
      fd_in =
          let (o, a, b) = find_index-some is_null (proc_at k proc).files fd g in
          get_elem?-lt (proc_at k proc).files fd a
