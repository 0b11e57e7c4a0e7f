-- ===== src/Proc/Exec/Argv/Inject.antt =====
-- `inject_argv` of src/proc.c: the arguments of the first process, at the end of its stack's page.
use native.Mathlib.Nat.{suc-mul}
use riscv_hobby_os.Base.{
  ℕ, zero, suc, ◌+◌, ◌-◌, ◌*◌, ◌^◌, ◌<◌, ◌≤◌, ◌≡◌, ◌∙◌, sym, ap, subst, ◌⊎◌, inl, inr, arith, List,
  [], ◌∷◌, length, get_elem?, some,
}
use riscv_hobby_os.Proc.Fork.{stk_round}
use riscv_hobby_os.Proc.Exec.Argv.{Bytes, store_byte, store_word, load_word, SpArgv}
use riscv_hobby_os.Proc.Exec.Argv.Memory.{
  pow_zero, pow_suc, store_byte-other, store_byte-same, store_word-other, load_word-Same,
  load_word-store_word,
}
use riscv_hobby_os.Proc.Exec.Argv.Copied.{ReadsText, slot_at, slot_at-le, slot_at-mul, from_some}

-- `strncpy` of a text of `len` characters with a size of `len + 1`
abbrev pub copy_text : (str : List ℕ) → (p : ℕ) → Bytes → Bytes
copy_text [] p m = store_byte p 0 m
copy_text (c ∷ str) p m = copy_text str (suc p) (store_byte p c m)

-- The loop over the arguments, and the null behind it: `stack_bottom`, and the memory.
abbrev pub inject_args :
    (word_size : ℕ) → (argv : List (List ℕ)) → (slot bottom : ℕ) → Bytes → ℕ × Bytes
inject_args w [] slot bottom m = (bottom, store_word w slot 0 m)
inject_args w (str ∷ argv) slot bottom m =
    let p = bottom - (length str + 1) in
    inject_args w argv (slot + w) p (store_word w slot p (copy_text str p m))

-- `perrno` is the address of errno's word. The registers that are set come with the memory.
pub inject_argv : (word_size perrno : ℕ) → (argv : List (List ℕ)) → Bytes → SpArgv × Bytes
inject_argv w perrno argv m =
    let new_argv = perrno - (length argv + 1) * w in
    let (bottom, m') = inject_args w argv new_argv new_argv m in
    (record { new_sp = stk_round bottom; new_argv = new_argv }, m')

copy_text-outside :
    (str : List ℕ) (p b : ℕ) (m : Bytes)
    → (b < p) ⊎ (p + length str < b)
    → copy_text str p m b ≡ m b
copy_text-outside [] p b m o = store_byte-other p 0 b m (ground arith)
copy_text-outside (c ∷ str) p b m o =
    copy_text-outside str (suc p) b (store_byte p c m) (ground arith)
    ∙ store_byte-other p c b m (ground arith)

copy_text-ReadsText : (str : List ℕ) (p : ℕ) (m : Bytes) → ReadsText (copy_text str p m) p str
copy_text-ReadsText [] p m zero h = ap (store_byte p 0 m) (omega arith) ∙ store_byte-same p 0 m
copy_text-ReadsText [] p m (suc i) h = absurd (omega arith)
copy_text-ReadsText (c ∷ str) p m zero h =
    copy_text-outside str (suc p) (p + 0) (store_byte p c m) (inl (omega arith))
    ∙ ap (store_byte p c m) (omega arith)
    ∙ store_byte-same p c m
copy_text-ReadsText (c ∷ str) p m (suc i) h =
    ap (copy_text str (suc p) (store_byte p c m)) (omega arith)
    ∙ copy_text-ReadsText str (suc p) (store_byte p c m) i (omega arith)

-- How many bytes the texts take, with their zeros.
abbrev pub texts_size : List (List ℕ) → ℕ
texts_size [] = 0
texts_size (str ∷ argv) = length str + 1 + texts_size argv

pow_pos : (w : ℕ) → 0 < 256 ^ w
pow_pos zero = omega (arith, pow_zero)
pow_pos (suc w) = omega (arith, pow_suc w, pow_pos w)

module _ (w : ℕ) where
  -- The state in which the first argument is copied.
  abbrev behind_text : (str : List ℕ) (slot p : ℕ) → Bytes → Bytes
  behind_text str slot p m = store_word w slot p (copy_text str p m)

  behind_text-outside :
      (str : List ℕ) (slot p b : ℕ) (m : Bytes)
      → (b < p) ⊎ (p + length str < b)
      → (b < slot) ⊎ (slot + w ≤ b)
      → behind_text str slot p m b ≡ m b
  behind_text-outside str slot p b m o o' =
      store_word-other w slot p b (copy_text str p m) o' ∙ copy_text-outside str p b m o

  inject_args-outside :
      (argv : List (List ℕ)) (slot bottom b : ℕ) (m : Bytes)
      → texts_size argv ≤ bottom
      → bottom ≤ slot
      → (b < bottom - texts_size argv)
        ⊎ ((bottom ≤ b × b < slot) ⊎ (slot_at w slot (length argv) + w ≤ b))
      → (inject_args w argv slot bottom m).1 b ≡ m b
  inject_args-outside [] slot bottom b m h l (inl u) =
      store_word-other w slot 0 b m (inl (omega arith))
  inject_args-outside [] slot bottom b m h l (inr (inl (u, v))) =
      store_word-other w slot 0 b m (inl v)
  inject_args-outside [] slot bottom b m h l (inr (inr u)) = store_word-other w slot 0 b m (inr u)
  inject_args-outside (str ∷ argv) slot bottom b m h l (inl u) =
      inject_args-outside argv (slot + w) (bottom - (length str + 1)) b _ (omega arith)
        (omega arith) (inl (omega arith))
      ∙ behind_text-outside str slot (bottom - (length str + 1)) b m (inl (omega arith))
          (inl (omega arith))
  inject_args-outside (str ∷ argv) slot bottom b m h l (inr (inl (u, v))) =
      inject_args-outside argv (slot + w) (bottom - (length str + 1)) b _ (omega arith)
        (omega arith) (inr (inl (omega arith, omega arith)))
      ∙ behind_text-outside str slot (bottom - (length str + 1)) b m (inr (omega arith)) (inl v)
  inject_args-outside (str ∷ argv) slot bottom b m h l (inr (inr u)) =
      let f = slot_at-le w (slot + w) (length argv) in
      inject_args-outside argv (slot + w) (bottom - (length str + 1)) b _ (omega arith)
        (omega arith) (inr (inr u))
      ∙ behind_text-outside str slot (bottom - (length str + 1)) b m (inr (omega arith))
          (inr (omega arith))

  inject_args-bottom :
      (argv : List (List ℕ)) (slot bottom : ℕ) (m : Bytes)
      → (inject_args w argv slot bottom m).0 ≡ bottom - texts_size argv
  inject_args-bottom [] slot bottom m = omega arith
  inject_args-bottom (str ∷ argv) slot bottom m =
      inject_args-bottom argv (slot + w) (bottom - (length str + 1)) _ ∙ omega arith

  inject_args-null :
      (argv : List (List ℕ)) (slot bottom : ℕ) (m : Bytes)
      → load_word w (slot_at w slot (length argv)) ((inject_args w argv slot bottom m).1) ≡ 0
  inject_args-null [] slot bottom m = load_word-store_word w slot 0 m (pow_pos w)
  inject_args-null (str ∷ argv) slot bottom m =
      inject_args-null argv (slot + w) (bottom - (length str + 1)) _

  -- A pointer to a copy of the argument.
  abbrev pub IsCopy : (lo hi slot : ℕ) → Bytes → List ℕ → Type 0
  IsCopy lo hi slot m str =
      (p : ℕ) × (load_word w slot m ≡ p) × ReadsText m p str × lo ≤ p × p + length str < hi

  inject_args-first :
      (top : ℕ) (str : List ℕ) (argv : List (List ℕ)) (slot bottom : ℕ) (m : Bytes)
      → top ≤ 256 ^ w
      → texts_size (str ∷ argv) ≤ bottom
      → bottom ≤ top
      → top ≤ slot
      → IsCopy
          (bottom - texts_size (str ∷ argv))
          top
          slot
          ((inject_args w (str ∷ argv) slot bottom m).1)
          str
  inject_args-first top str argv slot bottom m r h l t = (
    bottom - (length str + 1),
    load_word-Same w slot (behind_text str slot (bottom - (length str + 1)) m) _
          (λ b u v. kept b (omega arith) v)
        ∙ load_word-store_word w slot (bottom - (length str + 1))
            (copy_text str (bottom - (length str + 1)) m) (omega arith),
    λ i u.
        kept (bottom - (length str + 1) + i) (omega arith) (omega arith)
        ∙ store_word-other w slot _ _ (copy_text str (bottom - (length str + 1)) m)
            (inl (omega arith))
        ∙ copy_text-ReadsText str (bottom - (length str + 1)) m i u,
    omega arith,
    omega arith,
  )
    where
      kept :
          (b : ℕ)
          → bottom - (length str + 1) ≤ b
          → b < slot + w
          → (inject_args w (str ∷ argv) slot bottom m).1 b
            ≡ behind_text str slot (bottom - (length str + 1)) m b
      kept b u v =
          inject_args-outside argv (slot + w) (bottom - (length str + 1)) b _ (omega arith)
            (omega arith) (inr (inl (u, v)))

  inject_args-IsCopy :
      (top : ℕ) (argv : List (List ℕ)) (slot bottom i : ℕ) (str : List ℕ) (m : Bytes)
      → top ≤ 256 ^ w
      → texts_size argv ≤ bottom
      → bottom ≤ top
      → top ≤ slot
      → get_elem? argv i ≡ some str
      → IsCopy
          (bottom - texts_size argv)
          top
          (slot_at w slot i)
          ((inject_args w argv slot bottom m).1)
          str
  inject_args-IsCopy top [] slot bottom i str m r h l t e = absurd (ground (arith, e))
  inject_args-IsCopy top (str' ∷ argv) slot bottom zero str m r h l t e =
      subst
        (λ s.
          IsCopy (bottom - texts_size (str' ∷ argv)) top slot
            ((inject_args w (str' ∷ argv) slot bottom m).1) s)
        (ap (from_some str') e) (inject_args-first top str' argv slot bottom m r h l t)
  inject_args-IsCopy top (str' ∷ argv) slot bottom (suc i) str m r h l t e =
      let (p, a, b, c, d) =
        inject_args-IsCopy top argv (slot + w) (bottom - (length str' + 1)) i str _ r (omega arith)
          (omega arith) (omega arith) e in
      (p, a, b, omega arith, d)

-- With room below errno's word, the arguments that `inject_argv` copies can be read back from `new_argv` on, the
-- copies lie between the new stack pointer and `new_argv`, the word behind the last pointer is null, and nothing
-- changes from errno's word on.
pub inject_argv-IsCopy :
    (w perrno i : ℕ) (argv : List (List ℕ)) (str : List ℕ) (m : Bytes)
    → perrno ≤ 256 ^ w
    → texts_size argv + (length argv + 1) * w ≤ perrno
    → get_elem? argv i ≡ some str
    → let (at, m') = inject_argv w perrno argv m in
      IsCopy w at.new_sp at.new_argv (at.new_argv + i * w) m' str
      × load_word w (at.new_argv + length argv * w) m' ≡ 0
      × ((b : ℕ) → perrno ≤ b → m' b ≡ m b)
unfolding inject_argv
inject_argv-IsCopy w perrno i argv str m r h e =
    let new_argv = perrno - (length argv + 1) * w in
    let size = suc-mul (length argv) w in
    let (p, a, b, c, d) =
      inject_args-IsCopy w new_argv argv new_argv new_argv i str m (omega arith) (omega arith)
        (omega arith) (omega arith) e in
    let bottom = inject_args-bottom w argv new_argv new_argv m in
    (
      (
        p,
        ap (λ slot. load_word w slot ((inject_args w argv new_argv new_argv m).1))
              (sym (slot_at-mul w new_argv i))
            ∙ a,
        b,
        omega arith,
        d,
      ),
      ap (λ slot. load_word w slot ((inject_args w argv new_argv new_argv m).1))
            (sym (slot_at-mul w new_argv (length argv)))
          ∙ inject_args-null w argv new_argv new_argv m,
      λ b u. inject_args-outside w argv new_argv new_argv b m (omega arith) (omega arith) (
          inr (
            inr (omega (arith, slot_at-mul w new_argv (length argv), suc-mul (length argv) w, u)))),
    )
