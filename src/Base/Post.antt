-- ===== src/Base/Post.antt =====
-- What holds of the value of a call that does not panic, and how it passes through `?`.
use Prim.Native.Nat.{ℕ, ◌+◌}
use mathlib.Core.Path.{◌≡◌, refl, subst}
use mathlib.Core.Bool.{Bool, true, false}
use native.Mathlib.Omega.{arith}
use embassy_zephyr_n_rf.Base.Tests.{checked_add}
use embassy_zephyr_n_rf.Base.Results.{Outcome, ok, err, panic, ◌>>=◌, Returns, reject_if, ok_or}

-- The call does not panic, and `Q` holds of the value that it returns.
abbrev pub Post {ℓ κ} : {E : Type ℓ} {A : Type κ} → (A → Type 0) → Outcome E A → Type 0
Post Q (ok a) = Q a
Post Q (err e) = Unit {0}
Post Q panic = ⊥

module _ {ℓ κ μ} {E : Type ℓ} {A : Type κ} {B : Type μ} where
  pub Post-bind :
      (Q : A → Type 0) (R : B → Type 0) (m : Outcome E A) (f : A → Outcome E B)
      → Post Q m
      → ((a : A) → Q a → Post R (f a))
      → Post R (m >>= f)
  Post-bind Q R (ok a) f q k = k a q
  Post-bind Q R (err e) f q k = tt
  Post-bind Q R panic f q k = q

module _ {ℓ} {E : Type ℓ} {A : Type 0} where
  pub Post-Returns : (Q : A → Type 0) (m : Outcome E A) → Post Q m → Returns m
  Post-Returns Q (ok a) h = tt
  Post-Returns Q (err e) h = tt
  Post-Returns Q panic h = h

  pub Post-ok : (Q : A → Type 0) (m : Outcome E A) (a : A) → Post Q m → m ≡ ok a → Q a
  Post-ok Q m a h e = subst (Post Q) e h

-- The values that a call returns may be described in another way.
pub Post-map {ℓ κ} :
    {E : Type ℓ} {A : Type κ} (Q R : A → Type 0) (m : Outcome E A)
    → ((a : A) → Q a → R a)
    → Post Q m
    → Post R m
Post-map Q R (ok a) f q = f a q
Post-map Q R (err e) f q = tt
Post-map Q R panic f q = q

pub reject_if-Post {ℓ} : {E : Type ℓ} (b : Bool) (e : E) → Post (λ _. b ≡ false) (reject_if b e)
reject_if-Post true e = tt
reject_if-Post false e = refl

-- A check before the rest.
pub reject_if_then-Post {ℓ κ} :
    {E : Type ℓ} {A : Type κ} (b : Bool) (e : E) (m : Outcome E A) (R : A → Type 0)
    → (b ≡ false → Post R m)
    → Post R (reject_if b e >>= λ _. m)
reject_if_then-Post true e m R f = tt
reject_if_then-Post false e m R f = f refl

pub checked_add-Post {ℓ} :
    {E : Type ℓ} (a b : ℕ) (e : E) → Post (λ s. s ≡ a + b) (ok_or (checked_add a b) e)
checked_add-Post a b e = ground arith
