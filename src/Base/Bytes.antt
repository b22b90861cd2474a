-- ===== src/Base/Bytes.antt =====
-- Byte slices: indexing and slicing with the panics of the source, and little-endian integers.
-- codec.rs, the readers.
use Prim.Native.Nat.{ℕ, zero, suc, ◌+◌, ◌-◌, ◌*◌, ◌/◌, ◌%◌, ◌^◌, ◌≤◌, ◌<◌}
use mathlib.Core.Path.{◌≡◌, refl}
use mathlib.Core.Bool.{false, true, Bool, ◌&&◌}
use mathlib.Core.List.{List, [], ◌∷◌, ◌++◌}
use native.Mathlib.Omega.{arith}
use embassy_zephyr_n_rf.Base.Tests.{◌==◌, leb, if◌then◌else◌, le→leb}
use embassy_zephyr_n_rf.Base.Lists.{length, get_or, take, drop}
use embassy_zephyr_n_rf.Base.Results.{Outcome, ok, panic, ◌>>=◌}

abbrev pub IsByte : ℕ → Type 0
IsByte b = b < 256

-- `==` on byte arrays
unfoldable pub bytes_eq : List ℕ → List ℕ → Bool
bytes_eq [] [] = true
bytes_eq [] (b ∷ bs) = false
bytes_eq (a ∷ as') [] = false
bytes_eq (a ∷ as') (b ∷ bs) = a == b && bytes_eq as' bs

pub bytes_eq→≡ : (xs ys : List ℕ) → bytes_eq xs ys ≡ true → xs ≡ ys
unfolding bytes_eq
bytes_eq→≡ [] [] h = refl
bytes_eq→≡ [] (y ∷ ys) h = ground arith
bytes_eq→≡ (x ∷ xs) [] h = ground arith
bytes_eq→≡ (x ∷ xs) (y ∷ ys) h = ground (arith, bytes_eq→≡ xs ys)

pub bytes_eq_refl : (xs : List ℕ) → bytes_eq xs xs ≡ true
unfolding bytes_eq
bytes_eq_refl [] = refl
bytes_eq_refl (x ∷ xs) = ground (arith, bytes_eq_refl xs)

-- `bytes[i]`
unfoldable pub index {ℓ κ} : {E : Type ℓ} {A : Type κ} → List A → ℕ → Outcome E A
index [] i = panic
index (x ∷ xs) zero = ok x
index (x ∷ xs) (suc i) = index xs i

-- `&bytes[a..b]`
unfoldable pub slice {ℓ κ} : {E : Type ℓ} {A : Type κ} → List A → ℕ → ℕ → Outcome E (List A)
slice xs a b = if leb a b && leb b (length xs) then ok (take (b - a) (drop a xs)) else panic

-- `&bytes[a..]`
unfoldable pub slice_from {ℓ κ} : {E : Type ℓ} {A : Type κ} → List A → ℕ → Outcome E (List A)
slice_from xs a = if leb a (length xs) then ok (drop a xs) else panic

abbrev pub le_u16 : ℕ → ℕ → ℕ
le_u16 b0 b1 = b0 + b1 * 2 ^ 8

abbrev pub le_u32 : ℕ → ℕ → ℕ → ℕ → ℕ
le_u32 b0 b1 b2 b3 = b0 + b1 * 2 ^ 8 + b2 * 2 ^ 16 + b3 * 2 ^ 24

-- `from_be_bytes` of two bytes
abbrev pub be_u16 : ℕ → ℕ → ℕ
be_u16 b0 b1 = b0 * 2 ^ 8 + b1

-- `to_le_bytes`
abbrev pub u16_bytes : ℕ → List ℕ
u16_bytes x = x % 2 ^ 8 ∷ x / 2 ^ 8 % 2 ^ 8 ∷ []

abbrev pub u32_bytes : ℕ → List ℕ
u32_bytes x = x % 2 ^ 8 ∷ x / 2 ^ 8 % 2 ^ 8 ∷ x / 2 ^ 16 % 2 ^ 8 ∷ x / 2 ^ 24 % 2 ^ 8 ∷ []

abbrev pub u64_bytes : ℕ → List ℕ
u64_bytes x = u32_bytes (x % 2 ^ 32) ++ u32_bytes (x / 2 ^ 32 % 2 ^ 32)

unfoldable pub read_u16 {ℓ} : {E : Type ℓ} → List ℕ → ℕ → Outcome E ℕ
read_u16 bytes offset = do b0 ← index bytes offset; b1 ← index bytes (offset + 1); ok (le_u16 b0 b1)

-- An `i32` is kept as its bit pattern, so `read_i32` reads the same number.
unfoldable pub read_u32 {ℓ} : {E : Type ℓ} → List ℕ → ℕ → Outcome E ℕ
read_u32 bytes offset = do
  b0 ← index bytes offset
  b1 ← index bytes (offset + 1)
  b2 ← index bytes (offset + 2)
  b3 ← index bytes (offset + 3)
  ok (le_u32 b0 b1 b2 b3)

unfoldable pub read_u64 {ℓ} : {E : Type ℓ} → List ℕ → ℕ → Outcome E ℕ
read_u64 bytes offset = do
  low ← read_u32 bytes offset
  high ← read_u32 bytes (offset + 4)
  ok (low + high * 2 ^ 32)

-- The values that the readers return within range.
abbrev pub u16_at : List ℕ → ℕ → ℕ
u16_at bs i = le_u16 (get_or bs i 0) (get_or bs (i + 1) 0)

abbrev pub u32_at : List ℕ → ℕ → ℕ
u32_at bs i =
    le_u32 (get_or bs i 0) (get_or bs (i + 1) 0) (get_or bs (i + 2) 0) (get_or bs (i + 3) 0)

pub index_lem {ℓ κ} :
    {E : Type ℓ} {A : Type κ} (xs : List A) (i : ℕ) (d : A)
    → i < length xs
    → index {E = E} xs i ≡ ok (get_or xs i d)
unfolding index
index_lem [] i d h = absurd (omega arith)
index_lem (x ∷ xs) zero d h = refl
index_lem (x ∷ xs) (suc i) d h = index_lem xs i d (omega arith)

pub read_u16_lem {ℓ} :
    {E : Type ℓ} (bs : List ℕ) (i : ℕ)
    → i + 2 ≤ length bs
    → read_u16 {E = E} bs i ≡ ok (u16_at bs i)
unfolding read_u16
read_u16_lem bs i h = rw (index_lem bs i 0 (omega arith), index_lem bs (i + 1) 0 (omega arith))

pub read_u32_lem {ℓ} :
    {E : Type ℓ} (bs : List ℕ) (i : ℕ)
    → i + 4 ≤ length bs
    → read_u32 {E = E} bs i ≡ ok (u32_at bs i)
unfolding read_u32
read_u32_lem bs i h = rw (
  index_lem bs i 0 (omega arith),
  index_lem bs (i + 1) 0 (omega arith),
  index_lem bs (i + 2) 0 (omega arith),
  index_lem bs (i + 3) 0 (omega arith),
)

pub slice_lem {ℓ κ} :
    {E : Type ℓ} {A : Type κ} (xs : List A) (a b : ℕ)
    → a ≤ b
    → b ≤ length xs
    → slice {E = E} xs a b ≡ ok (take (b - a) (drop a xs))
unfolding slice
slice_lem xs a b h k = rw (le→leb a b h, le→leb b (length xs) k)

pub slice_from_lem {ℓ κ} :
    {E : Type ℓ} {A : Type κ} (xs : List A) (a : ℕ)
    → a ≤ length xs
    → slice_from {E = E} xs a ≡ ok (drop a xs)
unfolding slice_from
slice_from_lem xs a h = rw (le→leb a (length xs) h)
