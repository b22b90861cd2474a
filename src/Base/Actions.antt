-- ===== src/Base/Actions.antt =====
-- Methods that take `&mut` state and return a `Result`.
use embassy_zephyr_n_rf.Base.Results.{Outcome, ok, err, panic}
use mathlib.Core.Path.{◌≡◌, refl}

abbrev pub Action : Type 0 → Type 0 → Type 0 → Type 0
Action S E A = S → S × Outcome E A

module _ {S E A B : Type 0} where
  abbrev pub continue_with : (A → Action S E B) → S × Outcome E A → S × Outcome E B
  continue_with f (s, ok a) = f a s
  continue_with f (s, err e) = (s, err e)
  continue_with f (s, panic) = (s, panic)

infixl 5 ◌>>=◌ ◌>>◌
-- `?` after a call that may change the state, also when it fails.
abbrev pub ◌>>=◌ : {S E A B : Type 0} → Action S E A → (A → Action S E B) → Action S E B
(m >>= f) s = continue_with f (m s)

abbrev pub ◌>>◌ : {S E B : Type 0} → Action S E (Unit {0}) → Action S E B → Action S E B
m >> k = m >>= λ _. k

-- A computation that does not touch the state.
abbrev pub pure : {S E A : Type 0} → Outcome E A → Action S E A
pure r s = (s, r)

-- `map_err` behind an action.
abbrev pub mapped : {S E F A : Type 0} → (E → F) → S × Outcome E A → S × Outcome F A
mapped f (s, ok a) = (s, ok a)
mapped f (s, err e) = (s, err (f e))
mapped f (s, panic) = (s, panic)

abbrev pub map_error : {S E F A : Type 0} → (E → F) → Action S E A → Action S F A
map_error f act s = mapped f (act s)

-- `Q` holds of the state and the value when the call returns `Ok`.
abbrev pub Then : {S E A : Type 0} → (S → A → Type 0) → S × Outcome E A → Type 0
Then Q (s, ok a) = Q s a
Then Q (s, err e) = Unit {0}
Then Q (s, panic) = Unit {0}

pub Then-bind :
    {S E A B : Type 0} (Q : S → A → Type 0) (R : S → B → Type 0) (f : A → Action S E B)
    (r : S × Outcome E A)
    → Then Q r
    → ((s : S) (a : A) → Q s a → Then R (f a s))
    → Then R (continue_with f r)
Then-bind Q R f (s, ok a) q k = k s a q
Then-bind Q R f (s, err e) q k = tt
Then-bind Q R f (s, panic) q k = tt

-- After a computation that does not touch the state.
pub Then-pure :
    {S E A B : Type 0} (R : S → B → Type 0) (f : A → Action S E B) (s : S) (o : Outcome E A)
    → ((a : A) → o ≡ ok a → Then R (f a s))
    → Then R (continue_with f (s, o))
Then-pure R f s (ok a) k = k a refl
Then-pure R f s (err e) k = tt
Then-pure R f s panic k = tt

pub Then-ok :
    {S E A : Type 0} (Q : S → A → Type 0) (s : S) (o : Outcome E A)
    → ((a : A) → o ≡ ok a → Q s a)
    → Then Q (s, o)
Then-ok Q s (ok a) k = k a refl
Then-ok Q s (err e) k = tt
Then-ok Q s panic k = tt
