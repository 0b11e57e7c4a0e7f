-- ===== src/Bifs/Read.antt =====
-- Reading a file piece by piece.
use riscv_hobby_os.Base.{
  ℕ, zero, suc, ◌+◌, ◌≡◌, refl, ◌∙◌, sym, ap, List, [], ◌∷◌, ◌++◌, length, drop, arith, drop-nil,
}
use riscv_hobby_os.Bifs.{read_text, bifs_read}

read_text-append :
    (xs : List ℕ) (n m : ℕ)
    → read_text xs n ++ read_text (drop (length (read_text xs n)) xs) m ≡ read_text xs (n + m)
read_text-append [] n m = refl
read_text-append (x ∷ xs) zero m = ap (read_text (x ∷ xs)) (omega arith)
read_text-append (x ∷ xs) (suc n) m =
    ap (λ r. x ∷ r) (read_text-append xs n m) ∙ ap (read_text (x ∷ xs)) one_more
  where
    one_more : suc (n + m) ≡ suc n + m
    one_more = omega arith

drop-drop : (p q : ℕ) (xs : List ℕ) → drop (p + q) xs ≡ drop q (drop p xs)
drop-drop p q [] = drop-nil (p + q) ∙ sym (drop-nil q) ∙ ap (drop q) (sym (drop-nil p))
drop-drop zero q (x ∷ xs) = ap (λ n. drop n (x ∷ xs)) (omega arith)
drop-drop (suc p) q (x ∷ xs) = ap (λ n. drop n (x ∷ xs)) one_more ∙ drop-drop p q xs
  where
    one_more : suc p + q ≡ suc (p + q)
    one_more = omega arith

read_all : (xs : List ℕ) → read_text xs (length xs) ≡ xs
read_all [] = refl
read_all (x ∷ xs) = ap (λ r. x ∷ r) (read_all xs)

-- A read, followed by one from the position behind what it returned, gives what one larger read
-- would have given; and a read of the file's size from its start gives the whole file.
pub bifs_read-append :
    (content : List ℕ) (position n m : ℕ)
    → (bifs_read content position n
          ++ bifs_read content (position + length (bifs_read content position n)) m
        ≡ bifs_read content position (n + m))
      × (bifs_read content 0 (length content) ≡ content)
unfolding bifs_read
bifs_read-append content position n m = (
  ap (λ r. read_text (drop position content) n ++ read_text r m)
        (drop-drop position (length (read_text (drop position content) n)) content)
      ∙ read_text-append (drop position content) n m,
  read_all content,
)
