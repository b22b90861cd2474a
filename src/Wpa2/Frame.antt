-- ===== src/Wpa2/Frame.antt =====
-- wpa2.rs: the received EAPOL-Key frame, its checks, its fields and the kind of its message.
pub mod Parse
use Prim.Native.Nat.{ℕ, ◌+◌, ◌-◌, ◌*◌, ◌%◌, ◌^◌}
use embassy_zephyr_n_rf.Base.{
  List, [], ◌∷◌, ◌++◌, Bool, true, false, not, ◌||◌, ltb, ◌==◌, bit_set, if◌then◌else◌, length,
  get_or, take, drop, replicate, Outcome, ok, ◌>>=◌, ◌>>◌, reject_if,
}
use embassy_zephyr_n_rf.Base.Bytes.{index, slice, be_u16}
use embassy_zephyr_n_rf.Base.{bytes_eq, checked_add, ok_or}
use embassy_zephyr_n_rf.Base.{checked_add}
use embassy_zephyr_n_rf.Wpa2.Types.{
  EapolKeyMessage, Wpa2Error, max_eapol_frame_len, eapol_header_len, eapol_key_fixed_body_len,
  eapol_key_min_len, key_mic_start, key_mic_end, key_data_length_offset, key_data_offset,
}
use embassy_zephyr_n_rf.Wpa2.Crypto.{Crypto}

-- `EapolKeyInfo` is the 16-bit field.
abbrev pub descriptor_version : ℕ → ℕ
descriptor_version info = info % 8

abbrev pub is_pairwise : ℕ → Bool
is_pairwise info = bit_set info 3

abbrev pub install : ℕ → Bool
install info = bit_set info 6

abbrev pub ack : ℕ → Bool
ack info = bit_set info 7

abbrev pub mic_set : ℕ → Bool
mic_set info = bit_set info 8

abbrev pub secure : ℕ → Bool
secure info = bit_set info 9

abbrev pub encrypted_key_data : ℕ → Bool
encrypted_key_data info = bit_set info 12

-- The arguments are `ack`, `mic`, `install` and `secure`.
unfoldable pub classify_pairwise : Bool → Bool → Bool → Bool → EapolKeyMessage
classify_pairwise true false false false = EapolKeyMessage.pairwise_message1
classify_pairwise false true false false = EapolKeyMessage.pairwise_message2
classify_pairwise true true true true = EapolKeyMessage.pairwise_message3
classify_pairwise false true false true = EapolKeyMessage.pairwise_message4
classify_pairwise _ _ _ _ = EapolKeyMessage.other

unfoldable pub classify_group : Bool → Bool → Bool → Bool → EapolKeyMessage
classify_group true true _ true = EapolKeyMessage.group_message1
classify_group false true false true = EapolKeyMessage.group_message2
classify_group _ _ _ _ = EapolKeyMessage.other

-- The flags are those of an error, a request and an SMK message.
unfoldable pub classify : ℕ → EapolKeyMessage
classify info =
    if bit_set info 10 || bit_set info 11 || bit_set info 13
    then EapolKeyMessage.other
    else if is_pairwise info
    then classify_pairwise (ack info) (mic_set info) (install info) (secure info)
    else classify_group (ack info) (mic_set info) (install info) (secure info)

pub record EapolKeyFrame : Type 0 where
  pub bytes : List ℕ
  pub key_info : ℕ
  pub key_data : List ℕ

unfoldable pub validate_eapol_size : List ℕ → Outcome Wpa2Error (Unit {0})
validate_eapol_size bytes = do
  reject_if (ltb (length bytes) eapol_key_min_len) Wpa2Error.frame_too_short
  reject_if (ltb max_eapol_frame_len (length bytes)) Wpa2Error.frame_too_large

unfoldable pub validate_eapol_header : List ℕ → Outcome Wpa2Error (Unit {0})
validate_eapol_header bytes = do
  version ← index bytes 0
  reject_if (not (version == 1 || version == 2)) (Wpa2Error.unsupported_protocol_version version)
  packet_type ← index bytes 1
  reject_if (not (packet_type == 3)) Wpa2Error.not_eapol_key
  descriptor ← index bytes 4
  reject_if (not (descriptor == 2)) Wpa2Error.unsupported_descriptor

-- `u16::from_be_bytes` of two adjacent bytes
unfoldable pub read_be_u16 : List ℕ → ℕ → Outcome Wpa2Error ℕ
read_be_u16 bytes i = do b0 ← index bytes i; b1 ← index bytes (i + 1); ok (be_u16 b0 b1)

unfoldable pub eapol_total_length : List ℕ → Outcome Wpa2Error ℕ
eapol_total_length bytes = do
  body_len ← read_be_u16 bytes 2
  total ← ok_or (checked_add eapol_header_len body_len) Wpa2Error.length_mismatch
  reject_if (not (total == length bytes) || ltb body_len eapol_key_fixed_body_len)
      Wpa2Error.length_mismatch
  ok total

unfoldable pub eapol_key_data_end : List ℕ → Outcome Wpa2Error ℕ
eapol_key_data_end bytes = do
  key_data_len ← read_be_u16 bytes key_data_length_offset
  ok_or (checked_add key_data_offset key_data_len) Wpa2Error.length_mismatch

-- `EapolKeyFrame::parse`
unfoldable pub parse : List ℕ → Outcome Wpa2Error EapolKeyFrame
parse bytes = do
  validate_eapol_size bytes
  validate_eapol_header bytes
  total ← eapol_total_length bytes
  key_data_end ← eapol_key_data_end bytes
  reject_if (not (key_data_end == total)) Wpa2Error.length_mismatch
  key_info ← read_be_u16 bytes 5
  key_data ← slice bytes key_data_offset key_data_end
  ok (record { bytes = bytes; key_info = key_info; key_data = key_data })

-- The fields of a parsed frame. They lie below its least length, so these reads do not panic.
abbrev pub field : ℕ → ℕ → EapolKeyFrame → List ℕ
field start stop frame = take (stop - start) (drop start frame.bytes)

-- `from_be_bytes`, the first byte the highest
unfoldable pub be_number : ℕ → List ℕ → ℕ
be_number high [] = high
be_number high (b ∷ bs) = be_number (high * 2 ^ 8 + b) bs

unfoldable pub protocol_version : EapolKeyFrame → ℕ
protocol_version frame = get_or frame.bytes 0 0

unfoldable pub message : EapolKeyFrame → EapolKeyMessage
message frame = classify frame.key_info

unfoldable pub key_length : EapolKeyFrame → ℕ
key_length frame = be_number 0 (field 7 9 frame)

unfoldable pub replay_counter : EapolKeyFrame → ℕ
replay_counter frame = be_number 0 (field 9 17 frame)

unfoldable pub nonce : EapolKeyFrame → List ℕ
nonce frame = field 17 49 frame

unfoldable pub key_receive_sequence : EapolKeyFrame → List ℕ
key_receive_sequence frame = field 65 73 frame

unfoldable pub mic : EapolKeyFrame → List ℕ
mic frame = field key_mic_start key_mic_end frame

-- The first 16 bytes of the pairwise transient key are the KCK, the next the KEK, then the
-- temporal key.
unfoldable pub kck : List ℕ → List ℕ
kck ptk = take 16 ptk

unfoldable pub kek : List ℕ → List ℕ
kek ptk = take 16 (drop 16 ptk)

unfoldable pub temporal_key : List ℕ → List ℕ
temporal_key ptk = take 16 (drop 32 ptk)

module _ (crypto : Crypto) where
  unfoldable pub digest : EapolKeyFrame → List ℕ
  digest frame = crypto.sha256 frame.bytes

  -- The MIC is that of the frame with a zero MIC field, cut to the length of the field.
  unfoldable pub verify_mic : EapolKeyFrame → List ℕ → Bool
  verify_mic frame ptk =
      bytes_eq
        (take (length (mic frame)) (
          crypto.hmac_sha1 (kck ptk)
            (take key_mic_start frame.bytes ++ (replicate 16 0 ++ drop key_mic_end frame.bytes))))
        (mic frame)
