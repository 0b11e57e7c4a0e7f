-- ===== src/Uart/Readline.antt =====
-- What `uart_readline` takes from the receive buffer.
use riscv_hobby_os.Base.{
  ℕ, zero, suc, ◌+◌, ◌-◌, ◌<◌, ◌≤◌, ◌≡◌, List, [], ◌∷◌, if◌then◌else◌, length, get_or, count, ℤ,
  pos,
}
use riscv_hobby_os.Pipe.Moves.{window}
use riscv_hobby_os.Pipe.Queue.{advance}
use riscv_hobby_os.Uart.{uart_buf_sz, Uart}
use riscv_hobby_os.Uart.Line.{is_newline}

abbrev pub cons_first : ℕ → List ℕ × List ℕ → List ℕ × List ℕ
cons_first x (front, rest) = (x ∷ front, rest)

-- The characters up to the first line feed, which is dropped, but no more than `n`; and the rest.
abbrev pub split_line : ℕ → List ℕ → List ℕ × List ℕ
split_line zero xs = ([], xs)
split_line (suc n) [] = ([], [])
split_line (suc n) (x ∷ xs) = if is_newline x then ([], xs) else cons_first x (split_line n xs)

-- What the loop has done when `k` characters were ahead of it.
record Reads (u : Uart) (left rpos k : ℕ) (out : List ℕ × ℕ × ℤ) : Type 0 where
  rest : ℕ
  fewer : rest ≤ k
  stopped : out.1 ≡ advance uart_buf_sz rpos (k - rest)
  split :
      split_line left (window uart_buf_sz u.rx.page rpos k)
      ≡ (out.0, window uart_buf_sz u.rx.page out.1 rest)
  lines :
      u.rx_num_newlines ≡ pos (count is_newline (window uart_buf_sz u.rx.page rpos k))
      → out.2 ≡ pos (count is_newline (window uart_buf_sz u.rx.page out.1 rest))
  progress : 0 < left → 0 < k → rest < k
  consumed : k ≤ rest + length out.0 + 1

module _ (u : Uart) where
  module _ (left rpos k : ℕ) (h : rpos < uart_buf_sz) (b : suc k ≤ uart_buf_sz) where
    abbrev ch : ℕ
    ch = get_or u.rx.page rpos 0
