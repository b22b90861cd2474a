-- ===== src/Memory/Rpu/Flat.antt =====
-- memory.rs: a bus whose 24-bit address space is a flat memory of bytes.
use mathlib.Core.Path.{fun_ext}
use Prim.Native.Nat.{ℕ, zero, suc, ◌+◌, ◌-◌, ◌≤◌, ◌<◌}
use embassy_zephyr_n_rf.Base.{
  ◌⊎◌, inl, inr, ◌≡◌, refl, sym, ap, ◌∙◌, List, [], ◌∷◌, ◌++◌, ◌&&◌, leb, ltb, if◌then◌else◌, ok,
  arith, length, get_or, take, get_or-append_left, get_or_past, length-append, dec_lt,
}
use embassy_zephyr_n_rf.Memory.Rpu.{Bus}

abbrev pub FlatMemory : Type 0
FlatMemory = ℕ → ℕ

-- The memory after the bytes are written from an address on.
unfoldable pub patch : FlatMemory → ℕ → List ℕ → FlatMemory
patch memory a bytes i =
    if leb a i && ltb i (a + length bytes) then get_or bytes (i - a) 0 else memory i

-- The bytes from an address on.
unfoldable pub window : FlatMemory → ℕ → ℕ → List ℕ
window memory a zero = []
window memory a (suc n) = memory a ∷ window memory (a + 1) n

-- The bus of a flat memory.
abbrev pub flat : Type 0 → Bus
flat E = record {
  State = FlatMemory;
  Error = E;
  read_status = λ opcode memory. (memory, ok 0);
  write_status = λ opcode value memory. (memory, ok tt);
  read = λ a n memory. (memory, ok (window memory a n));
  write = λ a bytes memory. (patch memory a bytes, ok tt);
  delay_ms = λ ms memory. memory;
}

patch_before :
    (memory : FlatMemory) (a : ℕ) (bytes : List ℕ) (i : ℕ)
    → i < a
    → patch memory a bytes i ≡ memory i
unfolding patch
patch_before memory a bytes i h = ground arith

patch_after :
    (memory : FlatMemory) (a : ℕ) (bytes : List ℕ) (i : ℕ)
    → a + length bytes ≤ i
    → patch memory a bytes i ≡ memory i
unfolding patch
patch_after memory a bytes i h = ground arith

pub patch_inside :
    (memory : FlatMemory) (a : ℕ) (bytes : List ℕ) (i : ℕ)
    → a ≤ i
    → i < a + length bytes
    → patch memory a bytes i ≡ get_or bytes (i - a) 0
unfolding patch
patch_inside memory a bytes i h k = ground arith

patch-append_at :
    (memory : FlatMemory) (a : ℕ) (xs ys : List ℕ) (i : ℕ)
    → patch (patch memory a xs) (a + length xs) ys i ≡ patch memory a (xs ++ ys) i
patch-append_at memory a xs ys i =
    let total = length-append xs ys in
    elim (dec_lt i (a + length xs)) [
      | yes h ↦ patch_before (patch memory a xs) (a + length xs) ys i h ∙ elim (dec_lt i a) [
        | yes k ↦ patch_before memory a xs i k ∙ sym (patch_before memory a (xs ++ ys) i k)
        | no k ↦
            patch_inside memory a xs i (omega arith) h
            ∙ sym (get_or-append_left xs ys (i - a) 0 (omega arith))
            ∙ sym (patch_inside memory a (xs ++ ys) i (omega arith) (omega arith))
      ]
      | no h ↦ elim (dec_lt i (a + length xs + length ys)) [
        | yes k ↦
            patch_inside (patch memory a xs) (a + length xs) ys i (omega arith) k
            ∙ sym (get_or_past (i - a) (i - (a + length xs)) xs ys 0 (omega arith))
            ∙ sym (patch_inside memory a (xs ++ ys) i (omega arith) (omega arith))
        | no k ↦
            patch_after (patch memory a xs) (a + length xs) ys i (omega arith)
            ∙ patch_after memory a xs i (omega arith)
            ∙ sym (patch_after memory a (xs ++ ys) i (omega arith))
      ]
    ]

-- Two writes, one after the end of the other, are a write of both.
pub patch-append :
    (memory : FlatMemory) (a : ℕ) (xs ys : List ℕ)
    → patch (patch memory a xs) (a + length xs) ys ≡ patch memory a (xs ++ ys)
patch-append memory a xs ys = fun_ext (λ i. patch-append_at memory a xs ys i)

pub patch-nil : (memory : FlatMemory) (a : ℕ) → patch memory a [] ≡ memory
patch-nil memory a = fun_ext (λ i. elim (dec_lt i a) [
  | yes h ↦ patch_before memory a [] i h
  | no h ↦ patch_after memory a [] i (omega arith)
])

pub window-append :
    (memory : FlatMemory) (m n a : ℕ)
    → window memory a m ++ window memory (a + m) n ≡ window memory a (m + n)
unfolding window
window-append memory zero n a =
    let here : a + 0 ≡ a = omega arith in
    let total : 0 + n ≡ n = omega arith in rw (here, total) refl
window-append memory (suc m) n a =
    let here : a + suc m ≡ a + 1 + m = omega arith in
    let total : suc m + n ≡ suc (m + n) = omega arith in
    rw (here, total) (ap (◌∷◌ (memory a)) (window-append memory m n (a + 1)))

pub take-window :
    (memory : FlatMemory) (m n a : ℕ) → m ≤ n → take m (window memory a n) ≡ window memory a m
unfolding window
take-window memory zero n a h = refl
take-window memory (suc m) zero a h = absurd (omega arith)
take-window memory (suc m) (suc n) a h =
    ap (◌∷◌ (memory a)) (take-window memory m n (a + 1) (omega arith))

-- A write before or after the bytes does not change them.
pub window-patch_other :
    (memory : FlatMemory) (a : ℕ) (xs : List ℕ) (n b : ℕ)
    → (b + n ≤ a) ⊎ (a + length xs ≤ b)
    → window (patch memory a xs) b n ≡ window memory b n
unfolding window
window-patch_other memory a xs zero b h = refl
window-patch_other memory a xs (suc n) b (inl h) =
    let rest = window-patch_other memory a xs n (b + 1) (inl (omega arith)) in
    rw (patch_before memory a xs b (omega arith), rest) refl
window-patch_other memory a xs (suc n) b (inr h) =
    let rest = window-patch_other memory a xs n (b + 1) (inr (omega arith)) in
    rw (patch_after memory a xs b h, rest) refl

window-get :
    (memory : FlatMemory) (a : ℕ) (xs : List ℕ)
    → ((i : ℕ) → i < length xs → memory (a + i) ≡ get_or xs i 0)
    → window memory a (length xs) ≡ xs
unfolding window
window-get memory a [] h = refl
window-get memory a (x ∷ xs) h =
    let first : memory a ≡ x = ap memory (omega arith) ∙ h 0 (omega arith) in
    let rest =
      window-get memory (a + 1) xs (λ i l. ap memory (omega arith) ∙ h (suc i) (omega arith)) in
    rw (first, rest) refl

-- The bytes that were written are read back.
pub window-patch :
    (memory : FlatMemory) (a : ℕ) (xs ys : List ℕ)
    → window (patch memory a (xs ++ ys)) a (length xs) ≡ xs
window-patch memory a xs ys = window-get (patch memory a (xs ++ ys)) a xs (λ i h.
    let total = length-append xs ys in
    let back : a + i - a ≡ i = omega arith in
    patch_inside memory a (xs ++ ys) (a + i) (omega arith) (omega arith)
    ∙ ap (λ k. get_or (xs ++ ys) k 0) back
    ∙ get_or-append_left xs ys i 0 h)
