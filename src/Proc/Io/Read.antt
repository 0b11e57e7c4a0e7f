-- ===== src/Proc/Io/Read.antt =====
-- Reading an open file through its descriptor.
use riscv_hobby_os.Base.{
  ℕ, ◌%◌, ◌^◌, ◌<◌, ◌≡◌, ◌≢◌, refl, ◌∙◌, ap, Option, none, some, List, done, fault, bad_index,
  arith, M, Run, ◌>>=◌, ◌>>◌, pure, get, >>=-done, ◌==◌, if◌then◌else◌, length, false, [], minus,
  get_elem?, ℤ, pos,
}
use riscv_hobby_os.Errno.{einval, ebadfd}
use riscv_hobby_os.Bifs.{bifs_file_at, bifs_read}
use riscv_hobby_os.Kernel.{bifs_io, bifs_obj, Kernel, proc_at, file_at, set_file, set_errno, myproc}
use riscv_hobby_os.Proc.Fds.{fd_file}
use riscv_hobby_os.Fs.Open.{Io, is_no_handler, read_data, fs_read, content_of, read_bifs}
use riscv_hobby_os.Proc.Io.{move_by, read_done, read_file, proc_read}

-- Descriptor `fd` of the current process is open on file `i`, whose data is the text `t`.
pub record IsOpen (page_text : ℕ → List ℕ) (proc fd i b : ℕ) (t : List ℕ) (k : Kernel)
    : Type 0 where
  pub runs : k.cur ≡ some proc
  pub fd_open : get_elem? (proc_at k proc).files fd ≡ some (some i)
  pub in_table : i < length k.files
  pub reads : (file_at k i).read ≡ bifs_io
  pub entry : (file_at k i).fs_file ≡ bifs_obj b
  pub content : content_of page_text (bifs_file_at k.bifs b).contents ≡ some t

-- The pointer `bifs_read` holds that function.
abbrev pub ReadsBifs : (page_text : ℕ → List ℕ) → Io → Type 0
ReadsBifs page_text io =
    (i position size : ℕ) (k : Kernel)
    → io.read bifs_io i position size k ≡ read_bifs page_text position size (file_at k i).fs_file k

abbrev fd_result : Kernel → Option (Option ℕ) → Run Kernel (Option ℕ)
fd_result k none = fault bad_index
fd_result k (some f) = done f k

module _ (page_text : ℕ → List ℕ) (io : Io) (h : ReadsBifs page_text io) (proc fd i b buf : ℕ)
    (t : List ℕ) (n0 : buf ≢ 0) where
  fs_read-text :
      (size : ℕ) (k : Kernel)
      → IsOpen page_text proc fd i b t k
      → let bytes = bifs_read t (file_at k i).position size in
        fs_read io i (file_at k i).position size k ≡ done (pos (length bytes), bytes) k
  unfolding fs_read
  fs_read-text size k o =
      ap
        (λ f.
          if is_no_handler f
          then done (minus ebadfd, []) k
          else io.read f i (file_at k i).position size k)
        o.reads
      ∙ h i (file_at k i).position size k
      ∙ ap (λ e. read_bifs page_text (file_at k i).position size e k) o.entry
      ∙ ap (λ c. read_data (file_at k i).position size c k) o.content

  abbrev pub moved : (n : ℕ) → Kernel → Kernel
  moved n k = set_file i (move_by n (file_at k i)) k

  pub read_once :
      (size : ℕ) (k : Kernel)
      → IsOpen page_text proc fd i b t k
      → length (bifs_read t (file_at k i).position size) < 2 ^ 32
      → let bytes = bifs_read t (file_at k i).position size in
        proc_read io fd buf size k ≡ done (pos (length bytes), bytes) (moved (length bytes) k)
  unfolding proc_read
  read_once size k o l = >>=-done myproc _ k {a = proc} {s' = k} (rw (o.runs) refl) (
      >>=-done (fd_file proc fd) (read_file io proc buf size) k {a = some i} {s' = k}
        (ap (fd_result k) o.fd_open)
        (ap (λ c. (if c then refused else reading) k) not_null
          ∙ >>=-done (fs_read io i (file_at k i).position size) (read_done proc i) k
              (fs_read-text size k o)
              (ap (λ n. done (pos (length bytes), bytes) (moved n k)) small)))
    where
      bytes : List ℕ
      bytes = bifs_read t (file_at k i).position size

      refused : M Kernel (ℤ × List ℕ)
      refused = set_errno proc einval >> pure (minus 1, [])

      reading : M Kernel (ℤ × List ℕ)
      reading = do k ← get; r ← fs_read io i (file_at k i).position size; read_done proc i r

      not_null : (buf == 0) ≡ false
      not_null = ground (arith, n0)

      small : length bytes % 2 ^ 32 ≡ length bytes
      small = omega (arith, l)
