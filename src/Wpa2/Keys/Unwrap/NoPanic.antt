-- ===== src/Wpa2/Keys/Unwrap/NoPanic.antt =====
-- wpa2.rs: the key unwrap does not panic, and keeps the length.
use Prim.Native.Nat.{ℕ, zero, suc, ◌+◌, ◌-◌, ◌*◌, ◌/◌, ◌≤◌}
use embassy_zephyr_n_rf.Base.{
  ◌∙◌, ◌∙◌, ◌≡◌, List, arith, length, take, drop, length-take, length-drop,
}
use embassy_zephyr_n_rf.Base.Bytes.{slice_lem, slice_from_lem}
use embassy_zephyr_n_rf.Base.Post.{Post, Post-bind}
use embassy_zephyr_n_rf.Wpa2.Types.{Wpa2Error}
use embassy_zephyr_n_rf.Wpa2.Crypto.{Crypto, IsSized}
use embassy_zephyr_n_rf.Wpa2.Keys.{
  unwrap_block, unwrap_indices, unwrap_rounds, unwrap_key_blocks, aes_key_unwrap,
  validate_wrapped_key_lengths,
}
use embassy_zephyr_n_rf.Wpa2.Keys.Unwrap.{length-replace_part}

length-low_half : (b : List ℕ) → length b ≡ 16 → length (take 8 (drop 8 b)) ≡ 8
length-low_half b h = omega (arith, length-take 8 (drop 8 b), length-drop 8 b)

validate-Post :
    (encrypted : List ℕ) (out_len : ℕ)
    → Post
        (λ k. (length encrypted ≡ k + 8) × (k / 8 * 8 ≡ k) × (k ≤ out_len))
        (validate_wrapped_key_lengths encrypted out_len)
unfolding validate_wrapped_key_lengths
validate-Post encrypted out_len = ground arith

module _ (crypto : Crypto) (sized : IsSized crypto) (key : List ℕ) (n : ℕ) where
  -- The plain data has `n` blocks.
  abbrev HasBlocks : List ℕ × List ℕ → Type 0
  HasBlocks st = length st.1 ≡ n * 8

  unwrap_block-Post :
      (round i : ℕ) (st : List ℕ × List ℕ)
      → HasBlocks st
      → suc i ≤ n
      → Post HasBlocks (unwrap_block crypto key n round (suc i) st)
  unfolding unwrap_block
  unwrap_block-Post round i (a, out) v h =
      let start = (suc i - 1) * 8 in
      rw (slice_lem {E = Wpa2Error} out start (start + 8) (omega arith) (omega (arith, v))) (
        length-replace_part start _ out (length-low_half _ (sized.block_size key _))
          (omega (arith, v))
        ∙ v)

  unwrap_indices-Post :
      (round i : ℕ) (st : List ℕ × List ℕ)
      → HasBlocks st
      → i ≤ n
      → Post HasBlocks (unwrap_indices crypto key n round i st)
  unfolding unwrap_indices
  unwrap_indices-Post round zero st v h = v
  unwrap_indices-Post round (suc i) st v h =
      Post-bind HasBlocks HasBlocks _ _ (unwrap_block-Post round i st v h)
        λ st' v'. unwrap_indices-Post round i st' v' (omega arith)

  unwrap_rounds-Post :
      (rounds : ℕ) (st : List ℕ × List ℕ)
      → HasBlocks st
      → Post HasBlocks (unwrap_rounds crypto key n rounds st)
  unfolding unwrap_rounds
  unwrap_rounds-Post zero st v = v
  unwrap_rounds-Post (suc rounds) st v =
      Post-bind HasBlocks HasBlocks _ _ (unwrap_indices-Post rounds n st v (omega arith))
        λ st' v'. unwrap_rounds-Post rounds st' v'

module _ (crypto : Crypto) (sized : IsSized crypto) where
  -- Unwrapping never panics, whatever the encrypted bytes are; the plain data is eight bytes shorter
  -- and fits the buffer.
  pub aes_key_unwrap-Fits :
      (key encrypted : List ℕ) (out_len : ℕ)
      → Post
          (λ plain. (length encrypted ≡ length plain + 8) × (length plain ≤ out_len))
          (aes_key_unwrap crypto key encrypted out_len)
  unfolding aes_key_unwrap unwrap_key_blocks
  aes_key_unwrap-Fits key encrypted out_len =
      Post-bind (λ k. (length encrypted ≡ k + 8) × (k / 8 * 8 ≡ k) × (k ≤ out_len))
        (λ plain. (length encrypted ≡ length plain + 8) × (length plain ≤ out_len)) _ _
        (validate-Post encrypted out_len)
        λ k (e, whole, fits).
          rw
            (
              slice_lem {E = Wpa2Error} encrypted 0 8 (omega arith) (omega (arith, e)),
              slice_from_lem {E = Wpa2Error} encrypted 8 (omega (arith, e)),
            )
            (Post-bind (HasBlocks crypto sized key (k / 8))
              (λ plain. (length encrypted ≡ length plain + 8) × (length plain ≤ out_len)) _ _
              (unwrap_rounds-Post crypto sized key (k / 8) 6 _
                (omega (arith, length-drop 8 encrypted, e, whole)))
              λ (a, out) v. ground (arith, e, whole, fits, v))
