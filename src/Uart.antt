-- ===== src/Uart.antt =====
-- src/drivers/uart/uart.c: the receive buffer of the console and its line editing. What the receive
-- FIFO holds until `uart_rx_num_avail` returns 0 is an argument, since uart-*.c read it from device
-- registers; what is echoed, and the wake-ups of readers, are the list of `effects`. The
-- configuration is one without an LCD, and the unused transmit buffer is left out.
pub mod Line
pub mod Edit
pub mod Readline
mod Tests
use riscv_hobby_os.Base.{
  ℕ, zero, suc, ◌+◌, ◌-◌, ◌^◌, Bool, true, false, not, ◌&&◌, ◌||◌, List, [], ◌∷◌, ◌++◌, ◌==◌, ltb,
  leb, if◌then◌else◌, length, get_or, set, replicate, ℤ, pos, negsuc, M, pure, ◌>>◌,
}
use riscv_hobby_os.Pipe.{Ring, bump}
use riscv_hobby_os.Kernel.{uart0, Kernel}
use riscv_hobby_os.Proc.Wake.{proc_mark_for_wakeup}

abbrev pub uart_buf_sz : ℕ
uart_buf_sz = 64

abbrev pub ascii_del : ℕ
ascii_del = 127

abbrev pub newline : ℕ
newline = 10

abbrev pub carriage_return : ℕ
carriage_return = 13

-- `rx` is `rxbuf` with `rx_wpos`, `rx_rpos` and `rx_buff_full`.
pub record Uart : Type 0 where
  pub rx : Ring
  pub rx_num_newlines : ℤ

-- `uart_writechar(ch)`, and `proc_mark_for_wakeup(&uart0)`
pub data Effect : Type 0 where
  writes_char : ℕ → Effect
  wakes : Effect

-- The variables of `uart_enqueue_chars`; `rx_wpos` is written back at its end.
pub record Enqueue : Type 0 where
  pub uart : Uart
  pub wpos : ℕ
  pub num_enqueued : ℕ
  pub effects : List Effect

pub uart_init : List ℕ → Uart
uart_init rxbuf = record {
  rx = record { page = rxbuf; full = false; wpos = 0; rpos = 0 };
  rx_num_newlines = pos 0;
}

-- `n++` and `n--`, on an `int` that does not overflow
abbrev pub increment : ℤ → ℤ
increment (pos n) = pos (n + 1)
increment (negsuc zero) = pos 0
increment (negsuc (suc n)) = negsuc n

abbrev pub decrement : ℤ → ℤ
decrement (pos zero) = negsuc 0
decrement (pos (suc n)) = pos n
decrement (negsuc n) = negsuc (n + 1)

-- `wpos--; if (wpos < 0) wpos = UART_BUF_SZ - 1;`
abbrev pub step_back : ℕ → ℕ
step_back wpos = if wpos == 0 then uart_buf_sz - 1 else wpos - 1

pub decrement_wpos : Ring → ℕ → ℕ
decrement_wpos r wpos =
    if wpos == r.rpos
    then wpos
    else if get_or r.page (step_back wpos) 0 == newline
    then wpos
    else step_back wpos

-- A backspace, whose new position is `new_wpos`.
abbrev pub rub_out : ℕ → Enqueue → Enqueue
rub_out new_wpos s = if new_wpos == s.wpos then s else record s {
  wpos = new_wpos;
  effects = s.effects ++ writes_char 8 ∷ writes_char 32 ∷ writes_char 8 ∷ [];
  uart = record (s.uart) { rx = record (s.uart.rx) { full = false } };
}

-- `wpos++; if (wpos >= UART_BUF_SZ) wpos = 0;`
abbrev pub next_wpos : ℕ → ℕ
next_wpos wpos = if leb uart_buf_sz (wpos + 1) then 0 else wpos + 1

abbrev pub store : ℕ → Enqueue → Enqueue
store ch s = record s {
  uart = record (s.uart) {
    rx = record (s.uart.rx) {
      page = set s.uart.rx.page s.wpos ch;
      full = (if next_wpos s.wpos == s.uart.rx.rpos then true else s.uart.rx.full);
    };
  };
  wpos = next_wpos s.wpos;
  num_enqueued = s.num_enqueued + 1;
  effects = s.effects ++ writes_char ch ∷ [];
}

abbrev pub wake_readers : Enqueue → Enqueue
wake_readers s = record s { effects = s.effects ++ wakes ∷ [] }

-- A carriage return: one more line.
abbrev pub count_line : Enqueue → Enqueue
count_line s =
    wake_readers
      (record s { uart = record (s.uart) { rx_num_newlines = increment s.uart.rx_num_newlines } })

-- One round of the loop of `uart_enqueue_chars`.
pub enqueue_char : ℕ → Enqueue → Enqueue
unfolding decrement_wpos
enqueue_char ch s =
    if ch == ascii_del
    then rub_out (decrement_wpos s.uart.rx s.wpos) s
    else if s.uart.rx.full
    then wake_readers s
    else if ch == carriage_return
    then store newline (count_line s)
    else store ch s

pub enqueue_loop : List ℕ → Enqueue → Enqueue
enqueue_loop [] s = s
enqueue_loop (ch ∷ fifo) s = enqueue_loop fifo (enqueue_char ch s)

abbrev pub enqueue_start : Uart → Enqueue
enqueue_start u = record { uart = u; wpos = u.rx.wpos; num_enqueued = 0; effects = [] }

-- `uart0.rx_wpos = wpos`
abbrev pub enqueue_end : Enqueue → Uart
enqueue_end s = record (s.uart) { rx = record (s.uart.rx) { wpos = s.wpos } }

-- The buffer, the number of characters, and what was done outside.
pub uart_enqueue_chars : List ℕ → Uart → Uart × ℕ × List Effect
uart_enqueue_chars fifo u =
    let s = enqueue_loop fifo (enqueue_start u) in (enqueue_end s, s.num_enqueued, s.effects)

-- The wake-ups; a character that is written leaves the kernel's state alone.
run_effects : List Effect → M Kernel (Unit {0})
run_effects [] = pure tt
run_effects (writes_char ch ∷ rest) = run_effects rest
run_effects (wakes ∷ rest) = proc_mark_for_wakeup uart0 >> run_effects rest

pub uart_handle_interrupt : List ℕ → Uart → M Kernel Uart
unfolding run_effects
uart_handle_interrupt fifo u =
    let (u', nenq, effects) = uart_enqueue_chars fifo u in run_effects effects >> pure u'

abbrev pub is_positive : ℤ → Bool
is_positive (pos zero) = false
is_positive (pos (suc n)) = true
is_positive (negsuc n) = false

pub can_read_from : Uart → Bool
can_read_from u = is_positive u.rx_num_newlines || u.rx.full

abbrev pub cons_char : ℕ → List ℕ × ℕ × ℤ → List ℕ × ℕ × ℤ
cons_char ch (bytes, rpos, newlines) = (ch ∷ bytes, rpos, newlines)

-- The loop of `uart_readline`, with room for `left` more characters: those that it copies, the
-- reader's position, and the number of lines.
pub readline_loop : (left nread rpos : ℕ) → Uart → List ℕ × ℕ × ℤ
readline_loop zero nread rpos u = ([], rpos, u.rx_num_newlines)
readline_loop (suc left) nread rpos u =
    let ch = get_or u.rx.page rpos 0 in
    let more = cons_char ch (readline_loop left (nread + 1) (bump uart_buf_sz rpos) u) in
    if rpos == u.rx.wpos && ltb 0 nread
    then ([], rpos, u.rx_num_newlines)
    else if ch == newline
    then ([], bump uart_buf_sz rpos, decrement u.rx_num_newlines)
    else more

abbrev pub read_to : Uart → List ℕ × ℕ × ℤ → List ℕ × Uart
read_to u (bytes, rpos, newlines) = (
  bytes,
  record u {
    rx = record (u.rx) {
      rpos = rpos;
      full = (if not (u.rx.rpos == rpos) || ltb 0 (length bytes) then false else u.rx.full);
    };
    rx_num_newlines = newlines;
  },
)

-- Behind the wait for `can_read_from`.
pub uart_readline : Uart → (bufsize : ℕ) → List ℕ × Uart
uart_readline u bufsize = read_to u (readline_loop bufsize 0 u.rx.rpos u)
