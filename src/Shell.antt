-- ===== src/Shell.antt =====
-- user/src/shell.c: trimming a line, the pool of commands, and parsing a line into piped commands.
-- Texts are lists of characters without their terminator, so the end of a list reads as 0.
pub mod Words
pub mod Layout
pub mod Steps
pub mod Loop
pub mod Parse
mod Tests
use riscv_hobby_os.Base.{
  ℕ, zero, suc, ◌+◌, ◌-◌, Bool, true, false, ◌||◌, Option, none, some, List, [], ◌∷◌, ◌++◌, M, done,
  fault, pure, fails, get, modify, ◌>>=◌, ◌>>◌, bad_index, deadlock, null_deref, ◌==◌, ltb,
  if◌then◌else◌, length, get_or, set, get_elem?, replicate, drop, map,
}
use riscv_hobby_os.Str.{kstrlen}

abbrev pub space : ℕ
space = 32

abbrev pub bar : ℕ
bar = 124

abbrev pub is_blank : ℕ → Bool
is_blank ch = ch == 13 || (ch == 10 || (ch == 9 || ch == space))

-- The second loop of `trimright`; `i` is one more than the code's. The buffer, and the new length.
pub trim_loop : (i : ℕ) → (str : List ℕ) → List ℕ × ℕ
trim_loop zero str = (str, 0)
trim_loop (suc i) str =
    let rest = trim_loop i (set str i 0) in if is_blank (get_or str i 0) then rest else (str, suc i)

pub trimright : (str : List ℕ) → List ℕ × ℕ
trimright str = trim_loop (kstrlen str) str

-- A null pointer, a pointer into the command's own `buf`, or one to a slot of the pool.
pub data Pointer : Type 0 where
  null : Pointer
  char_at cmd_at : ℕ → Pointer

abbrev pub argv_buf_size : ℕ
argv_buf_size = 4

abbrev pub cmd_buf_size : ℕ
cmd_buf_size = 32

-- `buf` is what has been written, which goes from the start upwards. The pointer behind `args` is
-- `next`, as the structure lays them out: `args[ARGV_BUF_SIZE]` is `next`.
pub record Cmd : Type 0 where
  pub buf : List ℕ
  pub pointers : List Pointer

abbrev pub next : Cmd → Pointer
next c = get_or c.pointers argv_buf_size null

pub sh_init_cmd : Cmd
sh_init_cmd = record { buf = []; pointers = replicate (argv_buf_size + 1) null }

pub record CmdBuf : Type 0 where
  pub pool : List Cmd
  pub count : ℕ

pub sh_init_cmd_slots : (count : ℕ) → CmdBuf
sh_init_cmd_slots count = record { pool = replicate count sh_init_cmd; count = count }

abbrev take_slot : ℕ → M CmdBuf (Option ℕ)
take_slot zero = pure none
take_slot (suc n) = modify (λ p. record p { count = n }) >> pure (some n)

pub sh_alloc_cmd : M CmdBuf (Option ℕ)
sh_alloc_cmd = do p ← get; take_slot p.count

abbrev pub cmd_of : CmdBuf → ℕ → Cmd
cmd_of p i = get_or p.pool i sh_init_cmd

abbrev pub set_cmd : ℕ → Cmd → CmdBuf → CmdBuf
set_cmd i c p = record p { pool = set p.pool i c }

-- One slot is freed.
abbrev free_cmd : ℕ → CmdBuf → CmdBuf
free_cmd i p = record p { pool = set p.pool i sh_init_cmd; count = p.count + 1 }

-- `fuel` bounds the length of the chain.
pub sh_free_cmd_chain : (fuel : ℕ) → (chain : Pointer) → M CmdBuf (Unit {0})
sh_free_cmd_chain zero chain = fails deadlock
sh_free_cmd_chain (suc fuel) null = pure tt
sh_free_cmd_chain (suc fuel) (char_at o) = fails bad_index
sh_free_cmd_chain (suc fuel) (cmd_at i) = do
  p ← get
  modify (free_cmd i)
  sh_free_cmd_chain fuel (next (cmd_of p i))

-- `*buf = ch; buf++`
abbrev pub put_char : ℕ → M Cmd (Unit {0})
put_char ch c =
    if ltb (length c.buf) cmd_buf_size
    then done tt (record c { buf = c.buf ++ ch ∷ [] })
    else fault bad_index

-- `dst->args[i] = p`; `i` is at most ARGV_BUF_SIZE.
abbrev pub set_arg : ℕ → Pointer → Cmd → Cmd
set_arg i p c = record c { pointers = set c.pointers i p }

pub skip_spaces : List ℕ → List ℕ
skip_spaces [] = []
skip_spaces (ch ∷ input) = if ch == space then skip_spaces input else ch ∷ input

-- `argc++; dst->args[argc] = buf`
abbrev pub start_word : (argc : ℕ) → M Cmd (Unit {0})
start_word argc = modify (λ c. set_arg argc (char_at (length c.buf)) c)

-- The loop of `parse_command`: the count of arguments and where the loop stops. `fuel` is more than
-- the length of the input.
pub parse_loop : (fuel : ℕ) → (input : List ℕ) → (argc : ℕ) → M Cmd (ℕ × List ℕ)
parse_loop zero input argc = fails deadlock
parse_loop (suc fuel) [] argc = pure (argc, [])
parse_loop (suc fuel) (ch ∷ input) argc =
    if ch == bar
    then pure (argc, ch ∷ input)
    else if ch == space
    then (do
      put_char 0
      start_word (argc + 1)
      if ltb (argv_buf_size - 1) (argc + 1)
          then pure (argc + 1, skip_spaces input)
          else parse_loop fuel (skip_spaces input) (argc + 1))
    else (do
      put_char ch
      if ltb (argv_buf_size - 1) argc then pure (argc, input) else parse_loop fuel input argc)

-- `dst->args[argc][0] != '\0'`
abbrev pub first_of : Pointer → M Cmd ℕ
first_of null = fails null_deref
first_of (char_at o) = do c ← get; pure (get_or c.buf o 0)
first_of (cmd_at i) = fails bad_index

-- Behind the loop.
abbrev pub end_args : ℕ × List ℕ → M Cmd (List ℕ)
end_args (argc, input) = do
  put_char 0
  c ← get
  ch ← first_of (get_or c.pointers argc null)
  modify (set_arg (if ch == 0 then argc else argc + 1) null)
  pure input

-- From a command whose buffer starts anew.
pub parse_command : (input : List ℕ) → M Cmd (List ℕ)
unfolding parse_loop skip_spaces
parse_command input = do
  modify (λ c. set_arg 0 (char_at 0) (record c { buf = [] }))
  r ← parse_loop (length (skip_spaces input) + 1) (skip_spaces input) 0
  end_args r

abbrev on_cmd : {A : Type 0} → ℕ → M Cmd A → M CmdBuf A
on_cmd i m p = elim (m (cmd_of p i)) [ done a c ↦ done a (set_cmd i c p) | fault f ↦ fault f ]

-- The loop of `parse` for the command in slot `tail`; each round takes a slot, so that their number
-- bounds the rounds.

abbrev link : (tail next : ℕ) → M CmdBuf (Unit {0})
link tail n = modify (λ p. set_cmd tail (set_arg argv_buf_size (cmd_at n) (cmd_of p tail)) p)

-- `none` where the loop ends, and the rest of the input and the new tail where it goes on.
abbrev after_command : (tail : ℕ) → (stopped_at : List ℕ) → M CmdBuf (Option (List ℕ × ℕ))
after_command tail [] = pure none
after_command tail (ch ∷ input) = do
  o ← sh_alloc_cmd
  elim o [ none ↦ pure none | some n ↦ link tail n >> pure (some (input, n)) ]

parse_rest : (fuel : ℕ) → Option (List ℕ × ℕ) → M CmdBuf (Unit {0})
parse_rest fuel none = pure tt
parse_rest zero (some (input, tail)) = fails deadlock
parse_rest (suc fuel) (some (input, tail)) = do
  stopped_at ← on_cmd tail (parse_command input)
  o ← after_command tail stopped_at
  parse_rest fuel o

abbrev parse_from : (input : List ℕ) → Option ℕ → M CmdBuf Pointer
parse_from input none = pure null
parse_from input (some head) = do
  p ← get
  parse_rest (p.count + 1) (some (input, head))
  pure (cmd_at head)

pub parse : (input : List ℕ) → M CmdBuf Pointer
unfolding parse_rest
parse input = sh_alloc_cmd >>= parse_from input
