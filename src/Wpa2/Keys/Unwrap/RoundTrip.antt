-- ===== src/Wpa2/Keys/Unwrap/RoundTrip.antt =====
-- wpa2.rs: unwrapping what the key wrap of RFC 3394 wrapped gives the plain data back.
use Prim.Native.Nat.{ℕ, zero, suc, ◌+◌, ◌%◌, ◌/◌, ◌≤◌}
use embassy_zephyr_n_rf.Base.{
  ◌≡◌, refl, List, ◌++◌, ok, arith, length, All, length-append, take_past, append-nil, drop_past,
  IsByte, bytes_eq_refl,
}
use embassy_zephyr_n_rf.Base.Bytes.{slice_lem, slice_from_lem}
use embassy_zephyr_n_rf.Wpa2.Types.{Wpa2Error}
use embassy_zephyr_n_rf.Wpa2.Crypto.{Crypto}
use embassy_zephyr_n_rf.Wpa2.Keys.{
  unwrap_indices, unwrap_rounds, unwrap_key_blocks, aes_key_unwrap, validate_wrapped_key_lengths,
  aes_key_wrap_iv,
}
use embassy_zephyr_n_rf.Wpa2.Keys.Unwrap.{
  IsState, wrap_indices, wrap_rounds, aes_key_wrap, IsInverse, wrap_block-IsState,
  unwrap_block-wrap_block,
}

module _ (crypto : Crypto) (encrypt : List ℕ → List ℕ → List ℕ) (inverse : IsInverse crypto encrypt)
    (key : List ℕ) (n : ℕ) where
  wrap_indices-IsState :
      (round i : ℕ) (st : List ℕ × List ℕ)
      → IsState n st
      → i ≤ n
      → IsState n (wrap_indices encrypt key n round i st)
  wrap_indices-IsState round zero st v h = v
  wrap_indices-IsState round (suc i) st v h =
      wrap_block-IsState crypto encrypt inverse key n round i _ _
        (wrap_indices-IsState round i st v (omega arith)) h

  unwrap_indices-wrap_indices :
      (round i : ℕ) (st : List ℕ × List ℕ)
      → IsState n st
      → i ≤ n
      → unwrap_indices crypto key n round i (wrap_indices encrypt key n round i st) ≡ ok st
  unfolding unwrap_indices
  unwrap_indices-wrap_indices round zero st v h = refl
  unwrap_indices-wrap_indices round (suc i) st v h =
      let mid = wrap_indices encrypt key n round i st in
      rw
        (unwrap_block-wrap_block crypto encrypt inverse key n round i mid.0 mid.1
          (wrap_indices-IsState round i st v (omega arith)) h)
        (unwrap_indices-wrap_indices round i st v (omega arith))

  wrap_rounds-IsState :
      (rounds : ℕ) (st : List ℕ × List ℕ)
      → IsState n st
      → IsState n (wrap_rounds encrypt key n rounds st)
  wrap_rounds-IsState zero st v = v
  wrap_rounds-IsState (suc rounds) st v =
      wrap_indices-IsState rounds n _ (wrap_rounds-IsState rounds st v) (omega arith)

  unwrap_rounds-wrap_rounds :
      (rounds : ℕ) (st : List ℕ × List ℕ)
      → IsState n st
      → unwrap_rounds crypto key n rounds (wrap_rounds encrypt key n rounds st) ≡ ok st
  unfolding unwrap_rounds
  unwrap_rounds-wrap_rounds zero st v = refl
  unwrap_rounds-wrap_rounds (suc rounds) st v =
      rw
        (unwrap_indices-wrap_indices rounds n (wrap_rounds encrypt key n rounds st)
          (wrap_rounds-IsState rounds st v) (omega arith))
        (unwrap_rounds-wrap_rounds rounds st v)

module _ (crypto : Crypto) (encrypt : List ℕ → List ℕ → List ℕ)
    (inverse : IsInverse crypto encrypt) where
  validate_accepts :
      (encrypted : List ℕ) (out_len k : ℕ)
      → length encrypted ≡ k + 8
      → k % 8 ≡ 0
      → 16 ≤ k
      → k ≤ out_len
      → validate_wrapped_key_lengths encrypted out_len ≡ ok k
  unfolding validate_wrapped_key_lengths
  validate_accepts encrypted out_len k e d lo hi = ground arith

  -- Where the encryption of one block is the inverse of the decryption, unwrapping the RFC 3394 wrap
  -- of a plain text of whole blocks, of two blocks at least and within the buffer, gives the plain
  -- text back.
  pub aes_key_unwrap-aes_key_wrap :
      (key plain : List ℕ) (out_len : ℕ)
      → All IsByte plain
      → length plain % 8 ≡ 0
      → 16 ≤ length plain
      → length plain ≤ out_len
      → aes_key_unwrap crypto key (aes_key_wrap encrypt key plain) out_len ≡ ok plain
  unfolding aes_key_unwrap unwrap_key_blocks
  aes_key_unwrap-aes_key_wrap key plain out_len b d lo hi =
      let n = length plain / 8 in
      let start : IsState n (aes_key_wrap_iv, plain) = (refl, omega arith, ground arith, b) in
      let st = wrap_rounds encrypt key n 6 (aes_key_wrap_iv, plain) in
      let v = wrap_rounds-IsState crypto encrypt inverse key n 6 (aes_key_wrap_iv, plain) start in
      rw
        (
          validate_accepts (st.0 ++ st.1) out_len (length plain)
              (omega (arith, length-append st.0 st.1, v.0, v.1)) d lo hi,
          slice_lem {E = Wpa2Error} (st.0 ++ st.1) 0 8 (omega arith)
              (omega (arith, length-append st.0 st.1, v.0)),
          take_past 8 0 st.0 st.1 (omega (arith, v.0)),
          append-nil st.0,
          slice_from_lem {E = Wpa2Error} (st.0 ++ st.1) 8
              (omega (arith, length-append st.0 st.1, v.0)),
          drop_past 8 0 st.0 st.1 (omega (arith, v.0)),
          unwrap_rounds-wrap_rounds crypto encrypt inverse key n 6 (aes_key_wrap_iv, plain) start,
          bytes_eq_refl aes_key_wrap_iv,
        )
        refl
