-- ===== src/Lcd/Terminal.antt =====
-- The LCD's buffer is a terminal that scrolls.
use native.Mathlib.Decide.{ℕ_discrete}
use riscv_hobby_os.Base.{
  ℕ, zero, suc, ◌+◌, ◌%◌, ◌^◌, ◌<◌, ◌≡◌, ◌≢◌, refl, ◌∙◌, sym, ap, ap₂, subst, Bool, true, false,
  List, [], ◌∷◌, ◌++◌, arith, inl, inr, Bool-cases, ◌==◌, if◌then◌else◌, length, length-set, get_or,
  get_or-set_self, get_or-set_ne, set, drop,
}
use riscv_hobby_os.Lcd.{Buffer, num_rows, num_cols, blank_line}
use riscv_hobby_os.Lcd.Print.{
  line_at, newline, next_line, put_char, wrap_screen, clear_line_if_full, advances, print_char,
  printn_to_buf, next_buf_line,
}

-- Four rows: three above the one that is typed into, and the column in it.
pub record Terminal : Type 0 where
  pub above : List (List ℕ)
  pub row : List ℕ
  pub col : ℕ

abbrev pub scroll : Terminal → Terminal
scroll t = record { above = drop 1 t.above ++ t.row ∷ []; row = blank_line; col = 0 }

abbrev pub place : (c : ℕ) → Terminal → Terminal
place c t = record t { row = set t.row t.col c; col = t.col + 1 }

-- Whether the character scrolls the terminal, and the terminal behind it.
abbrev pub type_on : (c : ℕ) → Terminal → Bool × Terminal
type_on c t =
    if c == newline
    then (true, scroll t)
    else if t.col + 1 == num_cols
    then (true, scroll (place c t))
    else (false, place c t)

-- How often the text scrolls the terminal, and the terminal behind it.
abbrev pub type_text : (text : List ℕ) → Terminal → ℕ × Terminal
type_text [] t = (0, t)
type_text (c ∷ text) t =
    let (scrolled, t') = type_on c t in
    let (n, t'') = type_text text t' in ((if scrolled then n + 1 else n), t'')

-- The buffer as a terminal: its lines from the one below the current line on.
abbrev pub terminal : Buffer → Terminal
terminal b =
    let i = next_buf_line b.curr_line in
    let j = next_buf_line i in
    record {
      above = line_at b i ∷ line_at b j ∷ line_at b (next_buf_line j) ∷ [];
      row = line_at b b.curr_line;
      col = b.pos;
    }

-- Four lines of twenty characters; as long as the screen is not full, the lines below the current one are blank.
abbrev pub IsBuffer : Buffer → Type 0
IsBuffer b =
    length b.lines ≡ 4
    × ((i : ℕ) → i < 4 → length (line_at b i) ≡ 20)
    × b.curr_line < 4
    × b.pos < 20
    × (b.screen_is_full ≡ false → (i : ℕ) → b.curr_line < i → i < 4 → line_at b i ≡ blank_line)

abbrev at_column : (above : List (List ℕ)) → (row : List ℕ) → (col : ℕ) → Terminal
at_column above row col = record { above = above; row = row; col = col }

next_column : {pos : ℕ} → pos < 20 → (pos + 1) % 2 ^ 8 ≡ pos + 1
next_column h = omega arith

four_lines :
    (ls : List (List ℕ))
    → length ls ≡ 4
    → (w : List ℕ) × (x : List ℕ) × (y : List ℕ) × (z : List ℕ) × (ls ≡ w ∷ x ∷ y ∷ z ∷ [])
four_lines (w ∷ x ∷ y ∷ z ∷ []) h = (w, x, y, z, refl)
four_lines (w ∷ x ∷ y ∷ z ∷ v ∷ ls) h = absurd (omega arith)
four_lines (w ∷ x ∷ y ∷ []) h = absurd (omega arith)
four_lines (w ∷ x ∷ []) h = absurd (omega arith)
four_lines (w ∷ []) h = absurd (omega arith)
four_lines [] h = absurd (omega arith)

abbrev advance : Buffer → Buffer
advance b = clear_line_if_full (wrap_screen (next_line b))

module _ (w x y z : List ℕ) (pos : ℕ) where
  abbrev at : (full : Bool) → ℕ → Buffer
  at full i = record { lines = w ∷ x ∷ y ∷ z ∷ []; curr_line = i; pos = pos; screen_is_full = full }

  full-scroll : (i : ℕ) → i < 4 → terminal (advance (at true i)) ≡ scroll (terminal (at true i))
  full-scroll zero h = refl
  full-scroll (suc zero) h = refl
  full-scroll (suc (suc zero)) h = refl
  full-scroll (suc (suc (suc zero))) h = refl
  full-scroll (suc (suc (suc (suc i)))) h = absurd (omega arith)

  open-scroll :
      (i : ℕ)
      → i < 4
      → ((j : ℕ) → i < j → j < 4 → line_at (at false i) j ≡ blank_line)
      → terminal (advance (at false i)) ≡ scroll (terminal (at false i))
  open-scroll zero h e =
      ap (λ r. record { above = y ∷ z ∷ w ∷ []; row = r; col = 0 })
        (e 1 (omega arith) (omega arith))
  open-scroll (suc zero) h e =
      ap (λ r. record { above = z ∷ w ∷ x ∷ []; row = r; col = 0 })
        (e 2 (omega arith) (omega arith))
  open-scroll (suc (suc zero)) h e =
      ap (λ r. record { above = w ∷ x ∷ y ∷ []; row = r; col = 0 })
        (e 3 (omega arith) (omega arith))
  open-scroll (suc (suc (suc zero))) h e = refl
  open-scroll (suc (suc (suc (suc i)))) h e = absurd (omega arith)

  put-place :
      (full : Bool) (c i : ℕ)
      → i < 4
      → pos < 20
      → terminal (put_char c (at full i)) ≡ place c (terminal (at full i))
  put-place full c zero h p = ap (at_column (x ∷ y ∷ z ∷ []) (set w pos c)) (next_column p)
  put-place full c (suc zero) h p = ap (at_column (y ∷ z ∷ w ∷ []) (set x pos c)) (next_column p)
  put-place full c (suc (suc zero)) h p =
      ap (at_column (z ∷ w ∷ x ∷ []) (set y pos c)) (next_column p)
  put-place full c (suc (suc (suc zero))) h p =
      ap (at_column (w ∷ x ∷ y ∷ []) (set z pos c)) (next_column p)
  put-place full c (suc (suc (suc (suc i)))) h p = absurd (omega arith)

abbrev with_lines : (pos i : ℕ) → (full : Bool) → List (List ℕ) → Buffer
with_lines pos i full ls = record { lines = ls; curr_line = i; pos = pos; screen_is_full = full }

abbrev BlankBelow : Buffer → Type 0
BlankBelow b = (i : ℕ) → b.curr_line < i → i < 4 → line_at b i ≡ blank_line

some-scroll :
    (pos i : ℕ) (full : Bool) (ls : List (List ℕ))
    → length ls ≡ 4
    → i < 4
    → (full ≡ false → BlankBelow (with_lines pos i full ls))
    → terminal (advance (with_lines pos i full ls)) ≡ scroll (terminal (with_lines pos i full ls))
some-scroll pos i true ls l h e =
    let (w, x, y, z, f) = four_lines ls l in rw f (full-scroll w x y z pos i h)
some-scroll pos i false ls l h e =
    let (w, x, y, z, f) = four_lines ls l in
    subst
      (λ ls.
        BlankBelow (with_lines pos i false ls)
        → terminal (advance (with_lines pos i false ls))
          ≡ scroll (terminal (with_lines pos i false ls)))
      (sym f) (open-scroll w x y z pos i h) (e refl)

-- Behind a character that is put, `pos` may be 20.
abbrev IsPut : Buffer → Type 0
IsPut b =
    length b.lines ≡ 4
    × ((i : ℕ) → i < 4 → length (line_at b i) ≡ 20)
    × b.curr_line < 4
    × (b.screen_is_full ≡ false → BlankBelow b)

advance-scroll : (b : Buffer) → IsPut b → terminal (advance b) ≡ scroll (terminal b)
advance-scroll b (l, r, c, e) = some-scroll b.pos b.curr_line b.screen_is_full b.lines l c e

put_char-place : (c : ℕ) (b : Buffer) → IsBuffer b → terminal (put_char c b) ≡ place c (terminal b)
put_char-place c b (l, r, i, p, e) =
    let (w, x, y, z, f) = four_lines b.lines l in
    subst
      (λ ls.
        terminal (put_char c (with_lines b.pos b.curr_line b.screen_is_full ls))
        ≡ place c (terminal (with_lines b.pos b.curr_line b.screen_is_full ls)))
      (sym f) (put-place w x y z b.pos b.screen_is_full c b.curr_line i p)

set-line :
    (P : List ℕ → Type 0) (ls : List (List ℕ)) (i j : ℕ) (r : List ℕ)
    → j < length ls
    → P r
    → P (get_or ls j [])
    → P (get_or (set ls i r) j [])
set-line P ls i j r h new old = elim (ℕ_discrete i j) [
  | yes e ↦
      subst (λ k. P (get_or (set ls i r) k [])) e
        (subst P (sym (get_or-set_self ls i r [] (subst (λ k. k < length ls) (sym e) h))) new)
  | no n ↦ subst P (sym (get_or-set_ne ls r [] n)) old
]

abbrev Rows : List (List ℕ) → Type 0
Rows ls = (i : ℕ) → i < 4 → length (get_or ls i []) ≡ 20

Rows-set :
    (ls : List (List ℕ)) (i : ℕ) (r : List ℕ)
    → length ls ≡ 4
    → Rows ls
    → length r ≡ 20
    → Rows (set ls i r)
Rows-set ls i r l rows h j q = set-line (λ r. length r ≡ 20) ls i j r (omega arith) h (rows j q)

put_char-IsPut : (c : ℕ) (b : Buffer) → IsBuffer b → IsPut (put_char c b)
put_char-IsPut c b (l, r, h, p, e) = (
  length-set b.lines b.curr_line typed ∙ l,
  Rows-set b.lines b.curr_line typed l r
      (length-set (line_at b b.curr_line) b.pos c ∙ r b.curr_line h),
  h,
  λ f i q m. get_or-set_ne b.lines typed [] (omega arith) ∙ e f i q m,
)
  where
    typed : List ℕ
    typed = set (line_at b b.curr_line) b.pos c

cleared-IsBuffer :
    (ls : List (List ℕ)) (i : ℕ)
    → length ls ≡ 4
    → Rows ls
    → i < 4
    → IsBuffer (with_lines 0 i true (set ls i blank_line))
cleared-IsBuffer ls i l r h = (
  length-set ls i blank_line ∙ l,
  Rows-set ls i blank_line l r refl,
  h,
  omega arith,
  λ f. absurd (ground (arith, f)),
)

kept-IsBuffer :
    (ls : List (List ℕ)) (pos i : ℕ)
    → i < 3
    → IsPut (with_lines pos i false ls)
    → IsBuffer (with_lines 0 (suc i) false ls)
kept-IsBuffer ls pos i h (l, r, c, e) =
    (l, r, omega arith, omega arith, λ f j q m. e f j (omega arith) m)

some-IsBuffer :
    (pos i : ℕ) (full : Bool) (ls : List (List ℕ))
    → IsPut (with_lines pos i full ls)
    → IsBuffer (advance (with_lines pos i full ls))
some-IsBuffer pos zero true ls (l, r, c, e) = cleared-IsBuffer ls 1 l r (omega arith)
some-IsBuffer pos (suc zero) true ls (l, r, c, e) = cleared-IsBuffer ls 2 l r (omega arith)
some-IsBuffer pos (suc (suc zero)) true ls (l, r, c, e) = cleared-IsBuffer ls 3 l r (omega arith)
some-IsBuffer pos (suc (suc (suc zero))) true ls (l, r, c, e) =
    cleared-IsBuffer ls 0 l r (omega arith)
some-IsBuffer pos zero false ls p = kept-IsBuffer ls pos 0 (omega arith) p
some-IsBuffer pos (suc zero) false ls p = kept-IsBuffer ls pos 1 (omega arith) p
some-IsBuffer pos (suc (suc zero)) false ls p = kept-IsBuffer ls pos 2 (omega arith) p
some-IsBuffer pos (suc (suc (suc zero))) false ls (l, r, c, e) =
    cleared-IsBuffer ls 0 l r (omega arith)
some-IsBuffer pos (suc (suc (suc (suc i)))) full ls (l, r, c, e) = absurd (omega arith)

advance-IsBuffer : (b : Buffer) → IsPut b → IsBuffer (advance b)
advance-IsBuffer b h = some-IsBuffer b.pos b.curr_line b.screen_is_full b.lines h

IsBuffer-IsPut : (b : Buffer) → IsBuffer b → IsPut b
IsBuffer-IsPut b (l, r, h, p, e) = (l, r, h, e)

-- What a character does, by whether it ends its line.
module _ (c : ℕ) (b : Buffer) (h : IsBuffer b) where
  abbrev Typed : Type 0
  Typed =
      IsBuffer (print_char c b) × (advances c b, terminal (print_char c b)) ≡ type_on c (terminal b)

  typed :
      (b' : Buffer) (s : Bool)
      → print_char c b ≡ b'
      → advances c b ≡ s
      → IsBuffer b'
      → (s, terminal b') ≡ type_on c (terminal b)
      → Typed
  typed b' s e f h' g = (subst IsBuffer (sym e) h', ap₂ (λ s b. (s, terminal b)) f e ∙ g)

  feeds : (c == newline) ≡ true → Typed
  feeds n =
      typed (advance b) true (rw n refl) (rw n refl) (advance-IsBuffer b (IsBuffer-IsPut b h))
        (rw n (ap (λ t. (true, t)) (advance-scroll b (IsBuffer-IsPut b h))))

  fills : (c == newline) ≡ false → b.pos + 1 ≡ 20 → Typed
  fills n m =
      typed (advance (put_char c b)) true (rw n (rw wraps refl)) (rw n wraps)
        (advance-IsBuffer (put_char c b) (put_char-IsPut c b h))
        (rw n (
          rw full (
            ap (λ t. (true, t))
              (advance-scroll (put_char c b) (put_char-IsPut c b h)
                ∙ ap scroll (put_char-place c b h)))))
    where
      wraps : ((b.pos + 1) % 2 ^ 8 == num_cols) ≡ true
      wraps = ground arith

      full : (b.pos + 1 == num_cols) ≡ true
      full = ground arith

  stays : (c == newline) ≡ false → b.pos + 1 ≢ 20 → Typed
  stays n m =
      typed (put_char c b) false (rw n (rw wraps (rw inside refl))) (rw n wraps)
        (let (l, r, i, e) = put_char-IsPut c b h in (l, r, i, ground arith, e))
        (rw n (rw full (ap (λ t. (false, t)) (put_char-place c b h))))
    where
      wraps : ((b.pos + 1) % 2 ^ 8 == num_cols) ≡ false
      wraps = ground arith

      full : (b.pos + 1 == num_cols) ≡ false
      full = ground arith

      inside : (b.curr_line == num_rows) ≡ false
      inside = ground arith

  types : Typed
  types = elim (Bool-cases (c == newline)) [
    | inl n ↦ feeds n
    | inr n ↦ elim (ℕ_discrete (b.pos + 1) 20) [ yes m ↦ fills n m | no m ↦ stays n m ]
  ]

-- On a well-formed buffer, printing a text is typing it on a terminal of four rows that scrolls:
-- the buffer stays well-formed, so that no character is written outside its line, the rows on the
-- terminal are the buffer's lines, and `lines_advanced` is how often the terminal has scrolled.
pub printn_to_buf-terminal :
    (text : List ℕ) (b : Buffer)
    → IsBuffer b
    → IsBuffer ((printn_to_buf text b).1)
      × ((printn_to_buf text b).0, terminal ((printn_to_buf text b).1))
        ≡ type_text text (terminal b)
unfolding printn_to_buf
printn_to_buf-terminal [] b h = (h, refl)
printn_to_buf-terminal (c ∷ text) b h =
    let (h', e) = types c b h in
    let (h'', f) = printn_to_buf-terminal text (print_char c b) h' in
    (h'', ap (count (advances c b)) f ∙ ap (λ (s, t). count s (type_text text t)) e)
  where
    count : Bool → ℕ × Terminal → ℕ × Terminal
    count s (n, t) = ((if s then n + 1 else n), t)
