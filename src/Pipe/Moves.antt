-- ===== src/Pipe/Moves.antt =====
-- What the two loops do to the ring, whatever is in it.
use riscv_hobby_os.Base.{
  ℕ, zero, suc, ◌+◌, ◌-◌, ◌≤◌, ◌<◌, ◌≡◌, true, List, [], ◌∷◌, leb, if◌then◌else◌, length, get_or,
}
use riscv_hobby_os.Pipe.{Ring, bump}

-- How many bytes the ring holds.
abbrev pub used : ℕ → Ring → ℕ
used buf_size r =
    if r.full
    then buf_size
    else if leb r.rpos r.wpos
    then r.wpos - r.rpos
    else buf_size - r.rpos + r.wpos

-- Both positions lie in the buffer, the buffer in the page, and a full ring's positions meet.
pub record IsValid (buf_size : ℕ) (r : Ring) : Type 0 where
  pub wpos_in : r.wpos < buf_size
  pub rpos_in : r.rpos < buf_size
  pub fits : buf_size ≤ length r.page
  pub meet : r.full ≡ true → r.wpos ≡ r.rpos

-- The `k` bytes of the page from index `i` on.
abbrev pub bytes_at : List ℕ → ℕ → ℕ → List ℕ
bytes_at page i zero = []
bytes_at page i (suc k) = get_or page i 0 ∷ bytes_at page (i + 1) k

-- The bytes in the ring, in the order in which a reader of a ring buffer sees them: up to the end
-- of the buffer, and on from its start.
abbrev pub window : (buf_size : ℕ) → List ℕ → ℕ → ℕ → List ℕ
window buf_size page i zero = []
window buf_size page i (suc k) = get_or page i 0 ∷ window buf_size page (bump buf_size i) k

abbrev pub contents : ℕ → Ring → List ℕ
contents buf_size r = window buf_size r.page r.rpos (used buf_size r)
