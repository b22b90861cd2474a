-- ===== src/Base/Results.antt =====
-- The outcome of fallible code: `Ok`, `Err`, or a panic, which slice indexing out of range is.
use mathlib.Core.Path.{◌≡◌, refl}
use mathlib.Core.Logic.{◌⊎◌, inl, inr}
use mathlib.Core.Bool.{Bool, true, false}
use mathlib.Core.Option.{Option, none, some}

pub data Outcome {ℓ κ} (E : Type ℓ) (A : Type κ) : Type (ℓ ⊔ κ) where
  ok : A → Outcome E A
  err : E → Outcome E A
  panic : Outcome E A

infixl 5 ◌>>=◌ ◌>>◌
-- `?`
abbrev pub ◌>>=◌ {ℓ κ μ} :
    {E : Type ℓ} {A : Type κ} {B : Type μ} → Outcome E A → (A → Outcome E B) → Outcome E B
ok a >>= f = f a
err e >>= f = err e
panic >>= f = panic

abbrev pub ◌>>◌ {ℓ μ} : {E : Type ℓ} {B : Type μ} → Outcome E (Unit {0}) → Outcome E B → Outcome E B
m >> k = m >>= λ _. k

-- `if b { return Err(e) }`
abbrev pub reject_if {ℓ} : {E : Type ℓ} → Bool → E → Outcome E (Unit {0})
reject_if true e = err e
reject_if false e = ok tt

-- `ok_or`
abbrev pub ok_or {ℓ κ} : {E : Type ℓ} {A : Type κ} → Option A → E → Outcome E A
ok_or none e = err e
ok_or (some a) e = ok a

abbrev pub map_err {ℓ κ μ} :
    {E : Type ℓ} {F : Type κ} {A : Type μ} → (E → F) → Outcome E A → Outcome F A
map_err f (ok a) = ok a
map_err f (err e) = err (f e)
map_err f panic = panic

-- The call returns: it does not panic.
abbrev pub Returns {ℓ κ} : {E : Type ℓ} {A : Type κ} → Outcome E A → Type 0
Returns (ok a) = Unit {0}
Returns (err e) = Unit {0}
Returns panic = ⊥

-- The call returns `Ok`.
abbrev pub Succeeds {ℓ κ} : {E : Type ℓ} {A : Type κ} → Outcome E A → Type 0
Succeeds (ok a) = Unit {0}
Succeeds (err e) = ⊥
Succeeds panic = ⊥

pub Outcome-cases {ℓ κ} :
    {E : Type ℓ} {A : Type κ} (m : Outcome E A)
    → ((a : A) × (m ≡ ok a)) ⊎ ((e : E) × (m ≡ err e)) ⊎ (m ≡ panic)
Outcome-cases (ok a) = inl (a, refl)
Outcome-cases (err e) = inr (inl (e, refl))
Outcome-cases panic = inr (inr refl)
