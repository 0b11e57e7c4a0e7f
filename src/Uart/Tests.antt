-- ===== src/Uart/Tests.antt =====
-- The console at a concrete buffer.
use riscv_hobby_os.Base.{ℕ, ◌≡◌, refl, false, List, [], ◌∷◌, replicate, count, pos, arith}
use riscv_hobby_os.Pipe.Moves.{IsValid, contents}
use riscv_hobby_os.Uart.{uart_buf_sz, Uart, uart_enqueue_chars}
use riscv_hobby_os.Uart.Line.{is_newline, typed_all}
use riscv_hobby_os.Uart.Edit.{NoNewline, uart_enqueue_chars-typed}

abbrev fresh : Uart
fresh = record {
  rx = record { page = replicate 64 0; full = false; wpos = 0; rpos = 0 };
  rx_num_newlines = pos 0;
}

fresh-IsValid : IsValid uart_buf_sz fresh.rx
fresh-IsValid = record {
  wpos_in = omega arith;
  rpos_in = omega arith;
  fits = omega arith;
  meet = λ e. ground arith;
}

-- `ls`, a backspace, `s`, and the return key
abbrev keys : List ℕ
keys = b'l' ∷ b'x' ∷ 127 ∷ b's' ∷ 13 ∷ []

typed_test : typed_all keys [] ≡ b'l' ∷ b's' ∷ 10 ∷ []
typed_test = refl

uart_enqueue_chars-typed_example :
    let u' = (uart_enqueue_chars keys fresh).0 in
    IsValid uart_buf_sz u'.rx
    × (contents uart_buf_sz u'.rx ≡ typed_all keys (contents uart_buf_sz fresh.rx))
    × (NoNewline keys
        → fresh.rx_num_newlines ≡ pos (count is_newline (contents uart_buf_sz fresh.rx))
        → u'.rx_num_newlines ≡ pos (count is_newline (contents uart_buf_sz u'.rx)))
uart_enqueue_chars-typed_example = uart_enqueue_chars-typed keys fresh fresh-IsValid

-- `l`, a line feed, `s`
abbrev two_lines : Uart
two_lines = record {
  rx = record { page = b'l' ∷ 10 ∷ b's' ∷ replicate 61 0; full = false; wpos = 3; rpos = 0 };
  rx_num_newlines = pos 1;
}
