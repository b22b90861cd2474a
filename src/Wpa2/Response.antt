-- ===== src/Wpa2/Response.antt =====
-- wpa2.rs: the EAPOL-Key frames that the supplicant sends.
pub mod RoundTrip
use Prim.Native.Nat.{ℕ, ◌+◌, ◌-◌, ◌/◌, ◌%◌, ◌^◌}
use embassy_zephyr_n_rf.Base.{
  List, [], ◌∷◌, ◌++◌, ◌||◌, ltb, length, take, replicate, Outcome, ok, ◌>>=◌, ◌>>◌, reject_if,
  ok_or, checked_add, u8_mod, u16_mod,
}
use embassy_zephyr_n_rf.Wpa2.Types.{
  Wpa2Error, EapolTxFrame, max_eapol_frame_len, eapol_header_len, eapol_key_fixed_body_len,
}
use embassy_zephyr_n_rf.Wpa2.Crypto.{Crypto}
use embassy_zephyr_n_rf.Wpa2.Frame.{kck}
use embassy_zephyr_n_rf.Wpa2.Keys.{u64_be_bytes}

-- `to_be_bytes` of a `u16`
abbrev pub u16_be_bytes : ℕ → List ℕ
u16_be_bytes x = x / 2 ^ 8 % u8_mod ∷ x % u8_mod ∷ []

-- The bytes of the frame in the order of their offsets: what `build_response` does not write stays
-- zero, which is the IV, the receive sequence and the key identifier (49 to 81).
unfoldable pub response_bytes : ℕ → ℕ → ℕ → ℕ → List ℕ → List ℕ → List ℕ → List ℕ
response_bytes protocol_version key_info key_length replay_counter nonce mic key_data =
    protocol_version ∷ 3 ∷ u16_be_bytes (eapol_key_fixed_body_len + length key_data)
    ++ (2 ∷ u16_be_bytes key_info
        ++ (u16_be_bytes key_length
            ++ (u64_be_bytes replay_counter
                ++ (nonce
                    ++ (replicate 32 0 ++ (mic ++ (u16_be_bytes (length key_data) ++ key_data)))))))

module _ (crypto : Crypto) where
  -- The frame, by its MIC field, with the MIC of the frame with a zero field.
  unfoldable pub sign : List ℕ → List ℕ → (List ℕ → List ℕ) → EapolTxFrame
  sign peer ptk frame = record {
    peer = peer;
    bytes = frame (take 16 (crypto.hmac_sha1 (kck ptk) (frame (replicate 16 0))));
  }

  unfoldable pub build_response :
      List ℕ → ℕ → ℕ → ℕ → ℕ → List ℕ → List ℕ → List ℕ → Outcome Wpa2Error EapolTxFrame
  build_response peer protocol_version key_info key_length replay_counter nonce key_data ptk = do
    body_len ←
        ok_or (checked_add eapol_key_fixed_body_len (length key_data)) Wpa2Error.frame_too_large
    total ← ok_or (checked_add eapol_header_len body_len) Wpa2Error.frame_too_large
    reject_if (ltb max_eapol_frame_len total || ltb (u16_mod - 1) (length key_data))
        Wpa2Error.frame_too_large
    ok (
        sign peer ptk (λ mic.
          response_bytes protocol_version key_info key_length replay_counter nonce mic key_data))

  -- The descriptor version 2 with the flags `PAIRWISE` and `MIC`.
  unfoldable pub build_message2 :
      List ℕ → ℕ → ℕ → ℕ → List ℕ → List ℕ → List ℕ → Outcome Wpa2Error EapolTxFrame
  build_message2 peer protocol_version key_length replay_counter nonce rsn_ie ptk =
      build_response peer protocol_version (2 + 2 ^ 3 + 2 ^ 8) key_length replay_counter nonce
        rsn_ie ptk

  -- The descriptor version 2 with the flags `PAIRWISE`, `MIC` and `SECURE`.
  unfoldable pub build_message4 : List ℕ → ℕ → ℕ → ℕ → List ℕ → Outcome Wpa2Error EapolTxFrame
  build_message4 peer protocol_version key_length replay_counter ptk =
      build_response peer protocol_version (2 + 2 ^ 3 + 2 ^ 8 + 2 ^ 9) key_length replay_counter
        (replicate 32 0) [] ptk

  -- The descriptor version 2 with the flags `MIC` and `SECURE`.
  unfoldable pub build_group_message2 : List ℕ → ℕ → ℕ → ℕ → List ℕ → Outcome Wpa2Error EapolTxFrame
  build_group_message2 peer protocol_version key_length replay_counter ptk =
      build_response peer protocol_version (2 + 2 ^ 8 + 2 ^ 9) key_length replay_counter
        (replicate 32 0) [] ptk
