-- ===== src/Firmware/Bundle/Images.antt =====
-- firmware.rs: an accepted bundle has every image.
use Prim.Native.Nat.{◌^◌, ◌<◌, zero, suc, ℕ, ◌+◌, ◌-◌, ◌≤◌}
use embassy_zephyr_n_rf.Base.{
  ◌>>=◌, Outcome-cases, ℕ_discrete, bit_set, ◌⊎◌, inl, inr, sym, subst, ◌≡◌, ◌≢◌, refl, List, true,
  false, ltb, Outcome, ok, arith, length, take, drop, u32_at, read_u32_lem, slice_lem,
}
use embassy_zephyr_n_rf.Base.Post.{
  reject_if-Post, checked_add-Post, Post-map, Post-ok, Post, Post-bind,
}
use embassy_zephyr_n_rf.Firmware.Bundle.{
  see_image, validate_rounds, image_rounds, FirmwareError, ImageKind, kind_value, from_u32,
  FirmwareImage, FirmwareBundle, image_extent, image_at,
}

from_u32-Post : (value : ℕ) → Post (λ _. Unit {0}) (from_u32 value)
unfolding from_u32
from_u32-Post value = ground arith

-- The extent of an image is behind its header, inside the payload.
abbrev IsExtent : FirmwareBundle → ℕ → ImageKind × ℕ × ℕ → Type 0
IsExtent bundle offset (kind, start, end) =
    (start ≡ offset + 8) × (start ≤ end) × (end ≤ bundle.payload_end)

image_extent-Post :
    (bundle : FirmwareBundle) (offset : ℕ)
    → bundle.payload_end ≤ length bundle.bytes
    → Post (IsExtent bundle offset) (image_extent bundle offset)
unfolding image_extent
image_extent-Post bundle offset room =
    Post-bind (λ s. s ≡ offset + 8) (IsExtent bundle offset) _ _
      (checked_add-Post offset 8 FirmwareError.truncated_image)
      λ start s.
        Post-bind (λ _. ltb bundle.payload_end start ≡ false) (IsExtent bundle offset) _ _
          (reject_if-Post (ltb bundle.payload_end start) FirmwareError.truncated_image)
          λ _ fits.
            let inside : offset + 8 ≤ bundle.payload_end = ground arith in
            rw (read_u32_lem {E = FirmwareError} bundle.bytes offset (omega arith)) (
              Post-bind (λ _. Unit {0}) (IsExtent bundle offset) _ _
                (from_u32-Post (u32_at bundle.bytes offset))
                λ kind _.
                  rw (read_u32_lem {E = FirmwareError} bundle.bytes (offset + 4) (omega arith)) (
                    Post-bind (λ e. e ≡ start + u32_at bundle.bytes (offset + 4))
                      (IsExtent bundle offset) _ _
                      (checked_add-Post start (u32_at bundle.bytes (offset + 4))
                        FirmwareError.truncated_image)
                      λ end e. ground arith))

-- The search finds the image, and it has the kind that was wanted.
abbrev pub Found : ImageKind → Outcome FirmwareError FirmwareImage → Type 0
Found wanted o = (data_bytes : List ℕ) × (o ≡ ok record { kind = wanted; data_bytes = data_bytes })

kind_value_injective : (a b : ImageKind) → kind_value a ≡ kind_value b → a ≡ b
unfolding kind_value
kind_value_injective a b h = ground arith

image_at-Found :
    (bundle : FirmwareBundle) (wanted : ImageKind) (offset start end : ℕ)
    (rest : Outcome FirmwareError FirmwareImage)
    → bundle.payload_end ≤ length bundle.bytes
    → IsExtent bundle offset (wanted, start, end)
    → Found wanted (image_at bundle wanted (wanted, start, end) rest)
unfolding image_at
image_at-Found bundle wanted offset start end rest room (_, order, fits) = (
  take (end - start) (drop start bundle.bytes),
  rw (slice_lem {E = FirmwareError} bundle.bytes start end order (omega arith)) (ground arith),
)

image_at_other :
    (bundle : FirmwareBundle) (wanted kind : ImageKind) (start end : ℕ)
    (rest : Outcome FirmwareError FirmwareImage)
    → kind_value kind ≢ kind_value wanted
    → image_at bundle wanted (kind, start, end) rest ≡ rest
unfolding image_at
image_at_other bundle wanted kind start end rest h = ground arith

-- The mask fits four bits, the bit of the image was clear, and it is set now.
abbrev IsSeen : ℕ → ImageKind × ℕ × ℕ → ℕ × ℕ → Type 0
IsSeen seen (kind, start, end) (offset, seen') =
    (offset ≡ end) × (bit_set seen (kind_value kind) ≡ false) × (seen' ≡ seen + 2 ^ kind_value kind)

see_image-IsSeen :
    (seen : ℕ) (kind : ImageKind) (start end : ℕ)
    → Post (IsSeen seen (kind, start, end)) (see_image seen (kind, start, end))
unfolding see_image
see_image-IsSeen seen kind start end =
    Post-bind (λ _. bit_set seen (kind_value kind) ≡ false) (IsSeen seen (kind, start, end)) _ _
      (reject_if-Post (bit_set seen (kind_value kind)) _) λ _ clear. (refl, clear, refl)

-- A bit that is set after a round is that of the round's image, or was set before.
bit_back :
    (seen : ℕ) (kind wanted : ImageKind)
    → seen < 16
    → bit_set seen (kind_value kind) ≡ false
    → kind_value kind ≢ kind_value wanted
    → bit_set (seen + 2 ^ kind_value kind) (kind_value wanted) ≡ true
    → bit_set seen (kind_value wanted) ≡ true
unfolding kind_value
bit_back seen kind wanted h clear other set = ground arith

mask_bound :
    (seen : ℕ) (kind : ImageKind)
    → seen < 16
    → bit_set seen (kind_value kind) ≡ false
    → seen + 2 ^ kind_value kind < 16
unfolding kind_value
mask_bound seen kind h clear = ground arith

-- What the rounds leave: an image whose bit is set at the end, and was not at the start, is found.
abbrev pub IsFound : FirmwareBundle → ImageKind → ℕ → ℕ → ℕ → ℕ × ℕ → Type 0
IsFound bundle wanted n offset seen (offset', seen') =
    bit_set seen' (kind_value wanted) ≡ true
    → (bit_set seen (kind_value wanted) ≡ true) ⊎ Found wanted (image_rounds bundle wanted n offset)

next_image :
    (bundle : FirmwareBundle) (wanted kind : ImageKind) (n offset start end seen : ℕ)
    → bundle.payload_end ≤ length bundle.bytes
    → seen < 16
    → IsExtent bundle offset (kind, start, end)
    → bit_set seen (kind_value kind) ≡ false
    → (bit_set (seen + 2 ^ kind_value kind) (kind_value wanted) ≡ true)
      ⊎ Found wanted (image_rounds bundle wanted n end)
    → (bit_set seen (kind_value wanted) ≡ true)
      ⊎ Found wanted (image_at bundle wanted (kind, start, end) (image_rounds bundle wanted n end))
next_image bundle wanted kind n offset start end seen room small extent clear later =
    elim (ℕ_discrete (kind_value kind) (kind_value wanted)) [
      | yes same ↦ inr (
          subst
            (λ k.
              Found wanted
                (image_at bundle wanted (k, start, end) (image_rounds bundle wanted n end)))
            (sym (kind_value_injective kind wanted same))
            (image_at-Found bundle wanted offset start end _ room extent))
      | no other ↦
          rw (image_at_other bundle wanted kind start end (image_rounds bundle wanted n end) other)
            (elim later [
              | inl set ↦ inl (bit_back seen kind wanted small clear other set)
              | inr found ↦ inr found
            ])
    ]

-- The same, with the image of the first round in hand.
abbrev IsFoundBehind : FirmwareBundle → ImageKind → ℕ → ℕ → ImageKind × ℕ × ℕ → ℕ × ℕ → Type 0
IsFoundBehind bundle wanted n seen (kind, start, end) (offset', seen') =
    bit_set seen' (kind_value wanted) ≡ true
    → (bit_set seen (kind_value wanted) ≡ true)
      ⊎ Found wanted (image_at bundle wanted (kind, start, end) (image_rounds bundle wanted n end))

first_round :
    (bundle : FirmwareBundle) (wanted kind : ImageKind) (n offset start end seen : ℕ)
    → bundle.payload_end ≤ length bundle.bytes
    → seen < 16
    → IsExtent bundle offset (kind, start, end)
    → (seen + 2 ^ kind_value kind < 16
        → Post
            (IsFound bundle wanted n end (seen + 2 ^ kind_value kind))
            (validate_rounds bundle n (end, seen + 2 ^ kind_value kind)))
    → Post
        (IsFoundBehind bundle wanted n seen (kind, start, end))
        (see_image seen (kind, start, end) >>= λ state. validate_rounds bundle n state)
first_round bundle wanted kind n offset start end seen room small extent rest =
    Post-bind (IsSeen seen (kind, start, end))
      (IsFoundBehind bundle wanted n seen (kind, start, end)) _ _
      (see_image-IsSeen seen kind start end)
      λ (o, s) (at_end, clear, mask).
        rw (at_end, mask)
          (Post-map (IsFound bundle wanted n end (seen + 2 ^ kind_value kind))
            (IsFoundBehind bundle wanted n seen (kind, start, end)) _
            (λ r later set.
              next_image bundle wanted kind n offset start end seen room small extent clear
                (later set))
            (rest (mask_bound seen kind small clear)))

pub validate_rounds-IsFound :
    (bundle : FirmwareBundle) (wanted : ImageKind) (n offset seen : ℕ)
    → bundle.payload_end ≤ length bundle.bytes
    → seen < 16
    → Post (IsFound bundle wanted n offset seen) (validate_rounds bundle n (offset, seen))
unfolding validate_rounds image_rounds
validate_rounds-IsFound bundle wanted zero offset seen room small = λ set. inl set
validate_rounds-IsFound bundle wanted (suc n) offset seen room small =
    elim (Outcome-cases (image_extent bundle offset)) [
      | inl ((kind, start, end), e) ↦
          let extent =
            Post-ok (IsExtent bundle offset) _ (kind, start, end)
              (image_extent-Post bundle offset room) e in
          rw e (
            Post-map (IsFoundBehind bundle wanted n seen (kind, start, end))
              (IsFound bundle wanted (suc n) offset seen) _ (λ r behind set. rw e (behind set))
              (first_round bundle wanted kind n offset start end seen room small extent
                (validate_rounds-IsFound bundle wanted n end (seen + 2 ^ kind_value kind) room)))
      | inr (inl (x, e)) ↦ rw e tt
      | inr (inr e) ↦
          absurd (subst (Post (IsExtent bundle offset)) e (image_extent-Post bundle offset room))
    ]
