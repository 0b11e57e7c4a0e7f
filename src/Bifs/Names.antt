-- ===== src/Bifs/Names.antt =====
-- The directory that a path names, by the table's names and parents.
use mathlib.Core.List.{append_assoc}
use riscv_hobby_os.Base.{
  ℕ, suc, ◌+◌, ◌-◌, ◌%◌, ◌^◌, ◌<◌, ◌≡◌, refl, ◌∙◌, sym, ap, ap₂, fun_ext, Bool, true, false, ◌&&◌,
  Option, none, some, List, [], ◌∷◌, ◌++◌, ◌==◌, find_index, if◌then◌else◌, is_zero, length, drop,
  arith, length-append, points_to, next_index,
}
use riscv_hobby_os.Str.{strncmp}
use riscv_hobby_os.Str.Compare.{same_prefix, strncmp-same_prefix}
use riscv_hobby_os.Bifs.{
  Bifs, BifsDir, root, bifs_opendir, bifs_opendirpath, and_open, same_name, behind_root,
}
use riscv_hobby_os.Bifs.Words.{AreWords, path_of, drop-append}
use riscv_hobby_os.Bifs.Resolve.{resolve, bifs_opendirpath-resolve}

-- Does the name begin with the word?
abbrev pub begins : (word name : List ℕ) → Bool
begins [] name = true
begins (c ∷ w) [] = false
begins (c ∷ w) (x ∷ name) = if x == c then begins w name else false

-- The first entry from index `i` on that has this parent and whose name begins with the word.
abbrev pub first_child : (dir : ℕ) → (word : List ℕ) → (i : ℕ) → List BifsDir → Option ℕ
first_child dir w i [] = none
first_child dir w i (d ∷ ds) =
    if points_to d.parent dir && begins w d.name then some i else first_child dir w (i + 1) ds

-- The root, entry 0, is no child.
abbrev pub child : Bifs → (dir : ℕ) → (word : List ℕ) → Option ℕ
child b dir w = first_child dir w 1 (drop 1 b.dirs)

-- From a directory down, one child for each word.
abbrev pub descend : Bifs → (dir : ℕ) → (words : List (List ℕ)) → Option ℕ
descend b dir [] = some dir
descend b dir (w ∷ ws) = elim (child b dir w) [ none ↦ none | some next ↦ descend b next ws ]

-- No word has 2^32 characters.
abbrev pub AreShort : List (List ℕ) → Type 0
AreShort [] = Unit {0}
AreShort (w ∷ ws) = (length w < 2 ^ 32) × AreShort ws

same_prefix-begins :
    (w rest name : List ℕ) → same_prefix (length w) name (w ++ rest) ≡ begins w name
same_prefix-begins [] rest name = refl
same_prefix-begins (c ∷ w) rest [] = refl
same_prefix-begins (c ∷ w) rest (x ∷ name) =
    ap (λ b. if x == c then b else false) (same_prefix-begins w rest name)

abbrev shift : ℕ → Option ℕ → Option ℕ
shift i none = none
shift i (some j) = some (i + j)

shift-next : (i : ℕ) (o : Option ℕ) → shift (i + 1) o ≡ shift i (next_index o)
shift-next i none = refl
shift-next i (some j) = ap some (omega arith)

behind_root-shift : (o : Option ℕ) → behind_root o ≡ shift 1 o
behind_root-shift none = refl
behind_root-shift (some i) = ap some (omega arith)

-- A search with a test that agrees with `begins`.
find_index-first_child :
    (dir i : ℕ) (w : List ℕ) (same : BifsDir → Bool) (ds : List BifsDir)
    → ((d : BifsDir) → same d ≡ begins w d.name)
    → shift i (find_index (λ d. points_to d.parent dir && same d) ds) ≡ first_child dir w i ds
find_index-first_child dir i w same [] h = refl
find_index-first_child dir i w same (d ∷ ds) h =
    by_test (find_index-first_child dir (i + 1) w same ds h) (points_to d.parent dir && same d)
    ∙ ap (λ b. if points_to d.parent dir && b then some i else first_child dir w (i + 1) ds) (h d)
  where
    rest : Option ℕ
    rest = find_index (λ d. points_to d.parent dir && same d) ds

    by_test :
        shift (i + 1) rest ≡ first_child dir w (i + 1) ds
        → (b : Bool)
        → shift i (if b then some 0 else next_index rest)
          ≡ (if b then some i else first_child dir w (i + 1) ds)
    by_test later true = ap some (omega arith)
    by_test later false = sym (shift-next i rest) ∙ later

-- The word between two slashes of a path.
same_name-begins :
    (front w rest name : List ℕ)
    → 0 < length w
    → length w < 2 ^ 32
    → same_name name (front ++ b'/' ∷ (w ++ rest)) (length front + 1) (length front + 1 + length w)
      ≡ begins w name
same_name-begins front [] rest name p s = elim p [ ]
same_name-begins front (c ∷ w) rest name p s =
    ap₂ (λ t n. is_zero (strncmp name t n)) behind count
    ∙ strncmp-same_prefix name ((c ∷ w) ++ rest) (length w) s
    ∙ same_prefix-begins (c ∷ w) rest name
  where
    here : length front + 1 ≡ length (front ++ b'/' ∷ [])
    here = omega (arith, length-append front (b'/' ∷ []))

    behind : drop (length front + 1) (front ++ b'/' ∷ ((c ∷ w) ++ rest)) ≡ (c ∷ w) ++ rest
    behind =
        ap₂ drop here (sym (append_assoc front (b'/' ∷ []) ((c ∷ w) ++ rest)))
        ∙ drop-append (front ++ b'/' ∷ []) ((c ∷ w) ++ rest)

    count :
        (length front + 1 + length (c ∷ w) + 2 ^ 32 - (length front + 1)) % 2 ^ 32 ≡ suc (length w)
    count = omega (arith, s)

bifs_opendir-child :
    (b : Bifs) (front w rest : List ℕ) (dir : ℕ)
    → 0 < length w
    → length w < 2 ^ 32
    → bifs_opendir b
        (some dir)
        (front ++ b'/' ∷ (w ++ rest))
        (length front + 1)
        (length front + 1 + length w)
      ≡ child b dir w
unfolding bifs_opendir
bifs_opendir-child b front w rest dir p s =
    behind_root-shift _
    ∙ find_index-first_child dir 1 w _ (drop 1 b.dirs)
        (λ d. same_name-begins front w rest d.name p s)

resolve-descend :
    (b : Bifs) (front : List ℕ) (ws : List (List ℕ)) (dir : ℕ)
    → AreWords ws
    → AreShort ws
    → resolve b (front ++ path_of ws) (length front) dir ws ≡ descend b dir ws
unfolding resolve
resolve-descend b front [] dir h s = refl
resolve-descend b front (w ∷ ws) dir (p, n, h) (short, s) =
    ap₂ and_open (bifs_opendir-child b front w (path_of ws) dir p short) (
      fun_ext λ next.
        ap₂ (λ path i. resolve b path i next ws) (sym (append_assoc front (b'/' ∷ w) (path_of ws)))
          (omega (arith, length-append front (b'/' ∷ w)))
        ∙ resolve-descend b (front ++ b'/' ∷ w) ws next h s)
    ∙ opened (child b dir w)
  where
    opened :
        (o : Option ℕ)
        → and_open o (λ next. descend b next ws)
          ≡ elim o [ none ↦ none | some next ↦ descend b next ws ]
    opened none = refl
    opened (some next) = refl

-- A path of one or more words names the directory that is reached from the root word by word, where each word leads to
-- the first directory of the table, behind the root, whose parent is the one before and whose name begins with the
-- word: `bifs_opendirpath` ends, and returns that directory, or none where a word leads nowhere. No word is empty, holds
-- a slash or a terminator, or has 2^32 characters.
pub bifs_opendirpath-descend :
    (b : Bifs) (w : List ℕ) (ws : List (List ℕ))
    → AreWords (w ∷ ws)
    → AreShort (w ∷ ws)
    → let p = path_of (w ∷ ws) in bifs_opendirpath b p (length p) ≡ descend b root (w ∷ ws)
bifs_opendirpath-descend b w ws h s =
    bifs_opendirpath-resolve b w ws h ∙ resolve-descend b [] (w ∷ ws) root h s
