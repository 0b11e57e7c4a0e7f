-- ===== src/Proc/Exec/Argv/Copied.antt =====
-- The arguments can be read back from the new stack.
use riscv_hobby_os.Base.{
  ℕ, zero, suc, ◌+◌, ◌-◌, ◌*◌, ◌^◌, ◌<◌, ◌≤◌, ◌≡◌, refl, ◌∙◌, sym, ap, subst, ◌⊎◌, inl, inr, arith,
  Option, some, none, List, [], ◌∷◌, length, get_or, get_elem?,
}
use native.Mathlib.Nat.{suc-mul}
use native.Mathlib.Decide.{ℕ_discrete}
use riscv_hobby_os.Proc.Fork.{stk_round}
use riscv_hobby_os.Proc.Exec.Argv.{
  Bytes, store_byte, store_word, load_word, copy_down, push_arg, push_args, argv_at, copy_argv,
}
use riscv_hobby_os.Proc.Exec.Argv.Memory.{
  store_byte-other, store_byte-same, store_word-other, load_word-Same, load_word-store_word,
}

-- The text and its zero stand in the memory.
abbrev pub ReadsText : (m : Bytes) → (p : ℕ) → (str : List ℕ) → Type 0
ReadsText m p str = (i : ℕ) → i ≤ length str → m (p + i) ≡ get_or str i 0

copy_down-spc : (str : List ℕ) (j spc : ℕ) (m : Bytes) → (copy_down str j spc m).0 ≡ spc - suc j
copy_down-spc str zero spc m = refl
copy_down-spc str (suc j) spc m = copy_down-spc str j (spc - 1) _ ∙ omega arith

copy_down-outside :
    (str : List ℕ) (j spc b : ℕ) (m : Bytes)
    → j < spc
    → (b + j < spc) ⊎ (spc < b)
    → (copy_down str j spc m).1 b ≡ m b
copy_down-outside str zero spc b m h o = store_byte-other spc _ b m (ground arith)
copy_down-outside str (suc j) spc b m h o =
    copy_down-outside str j (spc - 1) b (store_byte spc (get_or str (suc j) 0) m) (omega arith)
      (ground arith)
    ∙ store_byte-other spc _ b m (ground arith)

copy_down-copies :
    (str : List ℕ) (j spc i : ℕ) (m : Bytes)
    → j < spc
    → i ≤ j
    → (copy_down str j spc m).1 (spc - j + i) ≡ get_or str i 0
copy_down-copies str zero spc zero m h l =
    ap (store_byte spc (get_or str 0 0) m) (omega arith) ∙ store_byte-same spc (get_or str 0 0) m
copy_down-copies str zero spc (suc i) m h l = absurd (omega arith)
copy_down-copies str (suc j) spc i m h l = elim (ℕ_discrete i (suc j)) [
  | yes e ↦
      (copy_down-outside str j (spc - 1) (spc - suc j + i) (store_byte spc last m) (omega arith)
          (inr (omega arith))
        ∙ ap (store_byte spc last m) (omega arith)
        ∙ store_byte-same spc last m
        ∙ ap (λ i. get_or str i 0) (sym e))
  | no n ↦
      (ap ((copy_down str j (spc - 1) (store_byte spc last m)).1) (omega arith)
        ∙ copy_down-copies str j (spc - 1) i (store_byte spc last m) (omega arith) (omega arith))
]
  where
    last : ℕ
    last = get_or str (suc j) 0

get_or-length : (str : List ℕ) → get_or str (length str) 0 ≡ 0
get_or-length [] = refl
get_or-length (c ∷ str) = get_or-length str

-- One argument: where its text stands, and what stays.
module _ (str : List ℕ) (spc : ℕ) (m : Bytes) (h : length str + 1 < spc) where
  push_arg-spc : (push_arg str spc m).0 ≡ spc - (length str + 2)
  push_arg-spc = copy_down-spc str (length str) (spc - 1) (store_byte spc 0 m) ∙ omega arith

  push_arg-ReadsText : ReadsText (push_arg str spc m).1 (suc ((push_arg str spc m).0)) str
  push_arg-ReadsText i l =
      ap ((push_arg str spc m).1) (omega (arith, push_arg-spc))
      ∙ copy_down-copies str (length str) (spc - 1) i (store_byte spc 0 m) (omega arith) l

  push_arg-outside :
      (b : ℕ) → (b ≤ (push_arg str spc m).0) ⊎ (spc < b) → (push_arg str spc m).1 b ≡ m b
  push_arg-outside b (inl l) =
      let e = push_arg-spc in
      copy_down-outside str (length str) (spc - 1) b (store_byte spc 0 m) (omega arith)
        (inl (omega arith))
      ∙ store_byte-other spc 0 b m (omega arith)
  push_arg-outside b (inr l) =
      copy_down-outside str (length str) (spc - 1) b (store_byte spc 0 m) (omega arith)
        (inr (omega arith))
      ∙ store_byte-other spc 0 b m (omega arith)

-- How many bytes the texts take, with two zeros each.
abbrev pub text_bytes : List (List ℕ) → ℕ
text_bytes [] = 0
text_bytes (str ∷ argv) = length str + 2 + text_bytes argv

-- The address of `sp[i]`
abbrev pub slot_at : (word_size slot i : ℕ) → ℕ
slot_at w slot zero = slot
slot_at w slot (suc i) = slot_at w (slot + w) i

pub slot_at-le : (w slot i : ℕ) → slot ≤ slot_at w slot i
slot_at-le w slot zero = omega arith
slot_at-le w slot (suc i) = omega (arith, slot_at-le w (slot + w) i)

-- A pointer to the text stands in the slot, and the text between the two bounds.
abbrev pub IsArg : (w lo hi slot : ℕ) → (m : Bytes) → List ℕ → Type 0
IsArg w lo hi slot m str =
    (p : ℕ) × (load_word w slot m ≡ p) × ReadsText m p str × lo < p × p + length str < hi

abbrev pub from_some : List ℕ → Option (List ℕ) → List ℕ
from_some d none = d
from_some d (some s) = s

module _ (w : ℕ) where
  -- Where the first argument is copied.
  abbrev behind_arg : (str : List ℕ) (slot spc : ℕ) → Bytes → Bytes
  behind_arg str slot spc m =
      store_word w slot (suc ((push_arg str spc m).0)) ((push_arg str spc m).1)

  behind_arg-outside :
      (str : List ℕ) (slot spc b : ℕ) (m : Bytes)
      → length str + 1 < spc
      → (b ≤ (push_arg str spc m).0) ⊎ (spc < b)
      → (b < slot) ⊎ (slot + w ≤ b)
      → behind_arg str slot spc m b ≡ m b
  behind_arg-outside str slot spc b m h o o' =
      store_word-other w slot _ b ((push_arg str spc m).1) o' ∙ push_arg-outside str spc m h b o

  push_args-spc :
      (argv : List (List ℕ)) (slot spc : ℕ) (m : Bytes)
      → text_bytes argv < spc
      → (push_args w argv slot spc m).0 ≡ spc - text_bytes argv
  push_args-spc [] slot spc m h = omega arith
  push_args-spc (str ∷ argv) slot spc m h =
      let e = push_arg-spc str spc m (omega arith) in
      push_args-spc argv (slot + w) ((push_arg str spc m).0) (behind_arg str slot spc m)
        (omega arith)
      ∙ omega arith

  push_args-outside :
      (argv : List (List ℕ)) (slot spc b : ℕ) (m : Bytes)
      → text_bytes argv < spc
      → spc < slot
      → (b ≤ spc - text_bytes argv) ⊎ ((spc < b × b < slot) ⊎ (slot_at w slot (length argv) ≤ b))
      → (push_args w argv slot spc m).1 b ≡ m b
  push_args-outside [] slot spc b m h l o = refl
  push_args-outside (str ∷ argv) slot spc b m h l (inl u) =
      let e = push_arg-spc str spc m (omega arith) in
      push_args-outside argv (slot + w) ((push_arg str spc m).0) b (behind_arg str slot spc m)
        (omega arith) (omega arith) (inl (omega arith))
      ∙ behind_arg-outside str slot spc b m (omega arith) (inl (omega arith)) (inl (omega arith))
  push_args-outside (str ∷ argv) slot spc b m h l (inr (inl (u, v))) =
      let e = push_arg-spc str spc m (omega arith) in
      push_args-outside argv (slot + w) ((push_arg str spc m).0) b (behind_arg str slot spc m)
        (omega arith) (omega arith) (inr (inl (omega arith, omega arith)))
      ∙ behind_arg-outside str slot spc b m (omega arith) (inr u) (inl v)
  push_args-outside (str ∷ argv) slot spc b m h l (inr (inr u)) =
      let e = push_arg-spc str spc m (omega arith) in
      let f = slot_at-le w (slot + w) (length argv) in
      push_args-outside argv (slot + w) ((push_arg str spc m).0) b (behind_arg str slot spc m)
        (omega arith) (omega arith) (inr (inr u))
      ∙ behind_arg-outside str slot spc b m (omega arith) (inr (omega arith)) (inr (omega arith))

  -- The first argument stays as it is copied.
  push_args-first :
      (top : ℕ) (str : List ℕ) (argv : List (List ℕ)) (slot spc : ℕ) (m : Bytes)
      → top ≤ 256 ^ w
      → text_bytes (str ∷ argv) < spc
      → spc < top
      → top ≤ slot
      → IsArg w
          (spc - text_bytes (str ∷ argv))
          top
          slot
          ((push_args w (str ∷ argv) slot spc m).1)
          str
  push_args-first top str argv slot spc m r h l t =
      let e = push_arg-spc str spc m (omega arith) in
      (
        suc ((push_arg str spc m).0),
        load_word-Same w slot (behind_arg str slot spc m) _ (λ b u v. kept b (omega arith) v)
            ∙ load_word-store_word w slot (suc ((push_arg str spc m).0)) ((push_arg str spc m).1)
                (omega arith),
        λ i u.
            kept (suc ((push_arg str spc m).0) + i) (omega arith) (omega arith)
            ∙ store_word-other w slot _ _ ((push_arg str spc m).1) (inl (omega arith))
            ∙ push_arg-ReadsText str spc m (omega arith) i u,
        omega arith,
        omega arith,
      )
    where
      kept :
          (b : ℕ)
          → (push_arg str spc m).0 < b
          → b < slot + w
          → (push_args w (str ∷ argv) slot spc m).1 b ≡ behind_arg str slot spc m b
      kept b u v =
          let e = push_arg-spc str spc m (omega arith) in
          push_args-outside argv (slot + w) ((push_arg str spc m).0) b (behind_arg str slot spc m)
            (omega arith) (omega arith) (inr (inl (u, v)))

  push_args-IsArg :
      (top : ℕ) (argv : List (List ℕ)) (slot spc i : ℕ) (str : List ℕ) (m : Bytes)
      → top ≤ 256 ^ w
      → text_bytes argv < spc
      → spc < top
      → top ≤ slot
      → get_elem? argv i ≡ some str
      → IsArg w (spc - text_bytes argv) top (slot_at w slot i) ((push_args w argv slot spc m).1) str
  push_args-IsArg top [] slot spc i str m r h l t e = absurd (ground (arith, e))
  push_args-IsArg top (str' ∷ argv) slot spc zero str m r h l t e =
      subst
        (λ s.
          IsArg w (spc - text_bytes (str' ∷ argv)) top slot
            ((push_args w (str' ∷ argv) slot spc m).1) s)
        (ap (from_some str') e) (push_args-first top str' argv slot spc m r h l t)
  push_args-IsArg top (str' ∷ argv) slot spc (suc i) str m r h l t e =
      let f = push_arg-spc str' spc m (omega arith) in
      let (p, a, b, c, d) =
        push_args-IsArg top argv (slot + w) ((push_arg str' spc m).0) i str
          (behind_arg str' slot spc m) r (omega arith) (omega arith) (omega arith) e in
      (p, a, b, omega arith, d)

pub slot_at-mul : (w slot i : ℕ) → slot_at w slot i ≡ slot + i * w
slot_at-mul w slot zero = omega arith
slot_at-mul w slot (suc i) = slot_at-mul w (slot + w) i ∙ omega (arith, suc-mul i w)

-- There is room below `sp` for the pointers, the null behind them and the texts.
abbrev pub HasRoom : (w sp : ℕ) → List (List ℕ) → Type 0
HasRoom w sp argv = text_bytes argv + 2 + w + length argv * w ≤ sp

module _ (w sp : ℕ) (argv : List (List ℕ)) (m : Bytes) (h : HasRoom w sp argv) where
  abbrev argv_slot : ℕ
  argv_slot = argv_at w sp (length argv)

  -- What the loop leaves.
  abbrev copied : ℕ × Bytes
  copied = push_args w argv argv_slot (argv_slot - 1) (store_word w sp 0 m)

  copied-spc : copied.0 ≡ argv_slot - 1 - text_bytes argv
  copied-spc = push_args-spc w argv argv_slot (argv_slot - 1) (store_word w sp 0 m) (omega arith)

  copied-IsArg :
      (i : ℕ) (str : List ℕ)
      → sp ≤ 256 ^ w
      → get_elem? argv i ≡ some str
      → IsArg w (stk_round copied.0) argv_slot (argv_slot + i * w) copied.1 str
  copied-IsArg i str r e =
      let f = copied-spc in
      let (p, a, b, c, d) =
        push_args-IsArg w argv_slot argv argv_slot (argv_slot - 1) i str (store_word w sp 0 m)
          (omega arith) (omega arith) (omega arith) (omega arith) e in
      (
        p,
        ap (λ slot. load_word w slot copied.1) (sym (slot_at-mul w argv_slot i)) ∙ a,
        b,
        omega arith,
        d,
      )

  -- The words from the last pointer on are those that stood there, apart from the null at `sp`.
  copied-outside :
      (b : ℕ) → argv_slot + length argv * w ≤ b → (b < sp) ⊎ (sp + w ≤ b) → copied.1 b ≡ m b
  copied-outside b u o =
      push_args-outside w argv argv_slot (argv_slot - 1) b (store_word w sp 0 m) (omega arith)
        (omega arith) (inr (inr (omega (arith, slot_at-mul w argv_slot (length argv)))))
      ∙ store_word-other w sp 0 b m o

-- With room for them, the arguments that `copy_argv` puts on the new stack can be read back: every
-- word from `new_argv` on is a pointer to a copy of its argument with its zero, and the
-- copies lie between the new stack pointer and `new_argv`. From `sp + word_size` on nothing changes.
pub copy_argv-IsArg :
    (w sp i : ℕ) (argv : List (List ℕ)) (str : List ℕ) (m : Bytes)
    → sp ≤ 256 ^ w
    → HasRoom w sp argv
    → get_elem? argv i ≡ some str
    → let (at, m') = copy_argv w sp argv m in
      IsArg w at.new_sp at.new_argv (at.new_argv + i * w) m' str
      × ((b : ℕ) → sp + w ≤ b → m' b ≡ m b)
unfolding copy_argv
copy_argv-IsArg w sp i [] str m r h e = absurd (ground (arith, e))
copy_argv-IsArg w sp i (s ∷ argv) str m r h e = (
  copied-IsArg w sp (s ∷ argv) m h i str r e,
  λ b u. copied-outside w sp (s ∷ argv) m h b (omega arith) (inr u),
)

-- The null that `copy_argv` stores is not the word behind the last pointer but the one after: the word
-- that a program finds at `argv[argc]` is what the page held before.
pub copy_argv_unterminated :
    (w sp : ℕ) (str : List ℕ) (argv : List (List ℕ)) (m : Bytes)
    → HasRoom w sp (str ∷ argv)
    → let (at, m') = copy_argv w sp (str ∷ argv) m in
      load_word w (at.new_argv + suc (length argv) * w) m' ≡ load_word w (sp - w) m
unfolding copy_argv
copy_argv_unterminated w sp str argv m h =
    ap (λ a. load_word w a (copied w sp (str ∷ argv) m h).1) (omega arith)
    ∙ load_word-Same w (sp - w) m _
        (λ b u v. copied-outside w sp (str ∷ argv) m h b (omega arith) (inl (omega arith)))
