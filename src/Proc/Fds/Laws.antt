-- ===== src/Proc/Fds/Laws.antt =====
-- Descriptors and the files that they refer to.
use riscv_hobby_os.Base.{
  ℕ, zero, suc, ◌+◌, ◌^◌, ◌<◌, ◌≡◌, refl, ◌∙◌, ap, true, false, Option, none, some, List, [], ◌∷◌,
  done, fault, bad_index, arith, length, get_elem?, get_elem?-lt, get_elem?-set_self, get_or, set,
  find_index, find_index-some, find_index-first, count, count-set, points_to, ◌==◌, if◌then◌else◌,
  pos, minus, get_or-set_ne,
}
use native.Mathlib.Decide.{ℕ_discrete}
use riscv_hobby_os.Kernel.{Process, Kernel, no_proc, no_file, proc_at, set_proc, file_at, set_file}
use riscv_hobby_os.Proc.Table.Slots.{set-set, set-get_or, get_or-set}
use riscv_hobby_os.Proc.Fds.{is_null, set_fd, take_fd, fd_alloc, fd_file, fd_free, add_ref}

-- How many descriptors of the processes refer to a file.
abbrev pub refs : ℕ → List Process → ℕ
refs g [] = 0
refs g (p ∷ rest) = count (λ o. points_to o g) p.files + refs g rest

-- From one state to the other a file's reference count moves as the descriptors that refer to it.
abbrev pub Balanced : Kernel → Kernel → Type 0
Balanced k k' =
    (g : ℕ) → refs g k'.procs + (file_at k g).refcount ≡ refs g k.procs + (file_at k' g).refcount

pub refs-set :
    (g : ℕ) (ps : List Process) (i : ℕ) (p : Process)
    → i < length ps
    → refs g (set ps i p) + count (λ o. points_to o g) (get_or ps i no_proc).files
      ≡ refs g ps + count (λ o. points_to o g) p.files
refs-set g [] i p h = elim h [ ]
refs-set g (q ∷ ps) zero p h = omega arith
refs-set g (q ∷ ps) (suc i) p h = omega (arith, refs-set g ps i p (omega arith))

pub is_null-none : (o : Option ℕ) → is_null o ≡ true → o ≡ none
is_null-none none e = refl
is_null-none (some f) e = ground arith

not_null : (f : ℕ) (o : Option ℕ) → o ≡ some f → is_null o ≡ false
not_null f o e = rw e refl

-- The state in which descriptor `fd` of a process refers to a file.
abbrev pub with_fd : (proc fd f : ℕ) → Kernel → Kernel
with_fd proc fd f k = set_proc proc (set_fd fd (some f) (proc_at k proc)) k

module _ {ℓ} {A : Type ℓ} where
  set-same : (xs : List A) (i : ℕ) (a : A) → get_elem? xs i ≡ some a → set xs i a ≡ xs
  set-same [] i a e = refl
  set-same (x ∷ xs) zero a e = ground arith
  set-same (x ∷ xs) (suc i) a e = ap (λ r. x ∷ r) (set-same xs i a e)

  pub set-set_same :
      (xs : List A) (i : ℕ) (a b : A) → get_elem? xs i ≡ some a → set (set xs i b) i a ≡ xs
  set-set_same xs i a b e = set-set xs i b a ∙ set-same xs i a e

module _ (proc f : ℕ) (k : Kernel) (l : proc < length k.procs) where
  abbrev fds : List (Option ℕ)
  fds = (proc_at k proc).files

  pub alloc_none : find_index is_null fds ≡ none → fd_alloc proc f k ≡ done (minus 1) k
  unfolding fd_alloc
  alloc_none e = ap (λ o. take_fd proc f o k) e

  pub alloc_some :
      (i : ℕ)
      → find_index is_null fds ≡ some i
      → fd_alloc proc f k ≡ done (pos i) (with_fd proc i f k)
  unfolding fd_alloc
  alloc_some i e = ap (λ o. take_fd proc f o k) e

  proc_at-with_fd : (i : ℕ) → proc_at (with_fd proc i f k) proc ≡ set_fd i (some f) (proc_at k proc)
  proc_at-with_fd i = get_or-set k.procs proc _ no_proc l

  freed : (i : ℕ) → get_elem? fds i ≡ some none → fd_free proc i (with_fd proc i f k) ≡ done tt k
  unfolding fd_free
  freed i e =
      ap (λ p. done tt (set_proc proc (set_fd i none p) (with_fd proc i f k))) (proc_at-with_fd i)
      ∙ ap
          (λ fs.
            done tt (set_proc proc (record (proc_at k proc) { files = fs }) (with_fd proc i f k)))
          (set-set_same fds i none (some f) e)
      ∙ ap (λ ps. done tt (record k { procs = ps }))
          (set-set k.procs proc _ (proc_at k proc) ∙ set-get_or k.procs proc no_proc)

  read_back :
      (i : ℕ)
      → get_elem? fds i ≡ some none
      → fd_file proc i (with_fd proc i f k) ≡ done (some f) (with_fd proc i f k)
  read_back i e =
      ap (λ o. elim o [ none ↦ fault bad_index | some f' ↦ done f' (with_fd proc i f k) ])
        (ap (λ p. get_elem? p.files i) (proc_at-with_fd i)
          ∙ get_elem?-set_self fds i (some f) (get_elem?-lt fds i e))

-- A descriptor that `fd_alloc` returns is the lowest free one of the process and refers to the
-- file; freeing it gives back the state before.
fd_alloc-fd_free :
    (proc f : ℕ) (k : Kernel) (i : ℕ)
    → proc < length k.procs
    → find_index is_null (proc_at k proc).files ≡ some i
    → (k' : Kernel) × (fd_alloc proc f k ≡ done (pos i) k')
      × (fd_file proc i k' ≡ done (some f) k')
      × (fd_free proc i k' ≡ done tt k)
      × ((j : ℕ) (o : Option ℕ)
          → j < i
          → get_elem? (proc_at k proc).files j ≡ some o
          → is_null o ≡ false)
fd_alloc-fd_free proc f k i l e =
    let (o, g, h) = find_index-some is_null (proc_at k proc).files i e in
    let free : get_elem? (proc_at k proc).files i ≡ some none = g ∙ ap some (is_null-none o h) in
    (
      with_fd proc i f k,
      alloc_some proc f k l i e,
      read_back proc f k l i free,
      freed proc f k l i free,
      λ j o' m g'. find_index-first is_null (proc_at k proc).files i j e m g',
    )

-- The two changes that a successful `dup` makes.
pub refs-with_fd :
    (proc i f g : ℕ) (k : Kernel)
    → proc < length k.procs
    → get_elem? (proc_at k proc).files i ≡ some none
    → refs g (with_fd proc i f k).procs ≡ refs g k.procs + (if f == g then 1 else 0)
refs-with_fd proc i f g k l e = omega (
  arith,
  refs-set g k.procs proc (set_fd i (some f) (proc_at k proc)) l,
  count-set (λ o. points_to o g) (proc_at k proc).files i (some f) e,
)

pub refcount-add_ref :
    (f g : ℕ) (k : Kernel)
    → f < length k.files
    → (file_at k f).refcount + 1 < 2 ^ 32
    → (file_at (set_file f (add_ref (file_at k f)) k) g).refcount
      ≡ (file_at k g).refcount + (if f == g then 1 else 0)
refcount-add_ref f g k l b = elim (ℕ_discrete f g) [
  | yes e ↦
      ground
        (arith, e, ap (λ x. x.refcount) (get_or-set k.files f (add_ref (file_at k f)) no_file l))
  | no n ↦
      ground
        (arith, n, ap (λ x. x.refcount) (get_or-set_ne k.files (add_ref (file_at k f)) no_file n))
]
