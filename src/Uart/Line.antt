-- ===== src/Uart/Line.antt =====
-- A line that is typed, and the places of the receive buffer's ring.
use riscv_hobby_os.Base.{
  ℕ, ◌+◌, ◌≡◌, ◌≢◌, refl, ◌∙◌, ap, Bool, false, List, [], ◌∷◌, ◌++◌, ◌==◌, arith, if◌then◌else◌,
  inl, inr, Bool-cases, length, get_or, count, pos,
}
use riscv_hobby_os.Pipe.{Ring}
use riscv_hobby_os.Pipe.Moves.{used, IsValid, window, contents}
use riscv_hobby_os.Pipe.Queue.{advance, window-append, length-window, used-le}
use riscv_hobby_os.Uart.{uart_buf_sz, ascii_del, newline, carriage_return, Enqueue, step_back}

abbrev pub is_newline : ℕ → Bool
is_newline ch = ch == newline

-- A backspace takes away the last character, unless a line ends there.
abbrev pub rubbed : List ℕ → List ℕ
rubbed [] = []
rubbed (x ∷ []) = if is_newline x then x ∷ [] else []
rubbed (x ∷ y ∷ rest) = x ∷ rubbed (y ∷ rest)

-- A carriage return ends the line. A buffer that is full stays as it is.
abbrev pub typed : ℕ → List ℕ → List ℕ
typed ch xs =
    if length xs == uart_buf_sz
    then xs
    else if ch == ascii_del
    then rubbed xs
    else xs ++ (if ch == carriage_return then newline else ch) ∷ []

abbrev pub typed_all : List ℕ → List ℕ → List ℕ
typed_all [] xs = xs
typed_all (ch ∷ chs) xs = typed_all chs (typed ch xs)

-- The buffer with the writer where the loop has it.
abbrev pub line : Enqueue → Ring
line s = record (s.uart.rx) { wpos = s.wpos }

pub rubbed-append :
    (xs : List ℕ) (c : ℕ) → rubbed (xs ++ c ∷ []) ≡ (if is_newline c then xs ++ c ∷ [] else xs)
rubbed-append [] c = refl
rubbed-append (x ∷ []) c = elim (Bool-cases (is_newline c)) [
  | inl e ↦ rw e refl
  | inr e ↦ rw e refl
]
rubbed-append (x ∷ y ∷ xs) c = elim (Bool-cases (is_newline c)) [
  | inl e ↦ rw e (ap (λ r. x ∷ r) (rw e at (rubbed-append (y ∷ xs) c)))
  | inr e ↦ rw e (ap (λ r. x ∷ r) (rw e at (rubbed-append (y ∷ xs) c)))
]

-- One place back.
abbrev pub back : Ring → Ring
back r = record r { wpos = step_back r.wpos; full = false }

module _ (r : Ring) (v : IsValid uart_buf_sz r) (some_left : r.wpos ≢ r.rpos) where
  pub back-IsValid : IsValid uart_buf_sz (back r)
  back-IsValid = record {
    wpos_in = ground (arith, v.wpos_in);
    rpos_in = v.rpos_in;
    fits = v.fits;
    meet = λ e. ground arith;
  }

  pub not_full : r.full ≡ false
  not_full = ground (arith, v.meet)

  pub used-back : used uart_buf_sz r ≡ used uart_buf_sz (back r) + 1
  used-back = ground (arith, not_full, v.wpos_in, v.rpos_in)

  pub at_back : advance uart_buf_sz r.rpos (used uart_buf_sz (back r)) ≡ step_back r.wpos
  at_back = ground (arith, v.wpos_in, v.rpos_in)

  pub contents-back :
      contents uart_buf_sz r
      ≡ contents uart_buf_sz (back r) ++ get_or r.page (step_back r.wpos) 0 ∷ []
  contents-back =
      ap (window uart_buf_sz r.page r.rpos) used-back
      ∙ window-append uart_buf_sz r.page (used uart_buf_sz (back r)) 1 r.rpos v.rpos_in
          (used-le uart_buf_sz (back r) back-IsValid)
      ∙ ap (λ i. contents uart_buf_sz (back r) ++ get_or r.page i 0 ∷ []) at_back

pub full_iff :
    (r : Ring) → IsValid uart_buf_sz r → (length (contents uart_buf_sz r) == uart_buf_sz) ≡ r.full
full_iff r v =
    let n : length (contents uart_buf_sz r) ≡ used uart_buf_sz r =
      length-window uart_buf_sz r.page (used uart_buf_sz r) r.rpos in
    ground (arith, n, v.wpos_in, v.rpos_in, v.meet)

pub count-append_one :
    (xs : List ℕ) (y : ℕ)
    → count is_newline (xs ++ y ∷ []) ≡ count is_newline xs + (if is_newline y then 1 else 0)
count-append_one [] y = omega arith
count-append_one (x ∷ xs) y = omega (arith, count-append_one xs y)

pub count-rubbed : (xs : List ℕ) → count is_newline (rubbed xs) ≡ count is_newline xs
count-rubbed [] = refl
count-rubbed (x ∷ []) = ground arith
count-rubbed (x ∷ y ∷ rest) = omega (arith, count-rubbed (y ∷ rest))

abbrev pub Counted : Enqueue → Type 0
Counted s = s.uart.rx_num_newlines ≡ pos (count is_newline (contents uart_buf_sz (line s)))

-- What one character does.
pub record Types (ch : ℕ) (s s' : Enqueue) : Type 0 where
  pub valid : IsValid uart_buf_sz (line s')
  pub now : contents uart_buf_sz (line s') ≡ typed ch (contents uart_buf_sz (line s))
  pub lines : ch ≢ newline → Counted s → Counted s'
