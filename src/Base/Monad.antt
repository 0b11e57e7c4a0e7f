-- ===== src/Base/Monad.antt =====
-- A function over a mutable state: it returns with a new state, or it faults.
use mathlib.Core.Path.{◌≡◌}

-- `deadlock`: `acquire` of a lock that is held, on the one hart that runs the kernel.
-- `null_deref`: an access through a null pointer. `bad_index`: an access outside an array.
-- `bad_cast`: a pointer read as one to another type. `panicked`: a call of `panic`.
pub data Fault : Type 0 where
  deadlock null_deref bad_index bad_cast panicked : Fault

pub data Run (S : Type 0) (A : Type 0) : Type 0 where
  done : A → S → Run S A
  fault : Fault → Run S A

abbrev pub M : Type 0 → Type 0 → Type 0
M S A = S → Run S A

module _ {S : Type 0} where
  abbrev pub and_then : {A B : Type 0} → Run S A → (A → M S B) → Run S B
  and_then (done a s) k = k a s
  and_then (fault f) k = fault f

  abbrev pub pure : {A : Type 0} → A → M S A
  pure a s = done a s

  abbrev pub fails : {A : Type 0} → Fault → M S A
  fails f s = fault f

  abbrev pub get : M S S
  get s = done s s

  abbrev pub modify : (S → S) → M S (Unit {0})
  modify f s = done tt (f s)

  infixl 5 ◌>>=◌ ◌>>◌
  abbrev pub ◌>>=◌ : {A B : Type 0} → M S A → (A → M S B) → M S B
  ◌>>=◌ m k s = and_then (m s) k

  abbrev pub ◌>>◌ : {B : Type 0} → M S (Unit {0}) → M S B → M S B
  ◌>>◌ m k s = and_then (m s) (λ _. k)

module _ {S T : Type 0} where
  abbrev put_back : {A : Type 0} → (T → S → S) → S → Run T A → Run S A
  put_back put s (done a t) = done a (put t s)
  put_back put s (fault f) = fault f

  -- A function over one part of the state.
  abbrev pub zoom : {A : Type 0} → (S → T) → (T → S → S) → M T A → M S A
  zoom get put m s = put_back put s (m (get s))

-- A step that is done is followed by the rest.
pub >>-done :
    {S B : Type 0} (m : M S (Unit {0})) (n : M S B) (s : S) {s' : S} {r : Run S B}
    → m s ≡ done tt s'
    → n s' ≡ r
    → (m >> n) s ≡ r
>>-done m n s e f = rw e f

pub >>=-done :
    {S A B : Type 0} (m : M S A) (n : A → M S B) (s : S) {a : A} {s' : S} {r : Run S B}
    → m s ≡ done a s'
    → n a s' ≡ r
    → (m >>= n) s ≡ r
>>=-done m n s e f = rw e f
