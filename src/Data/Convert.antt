-- ===== src/Data/Convert.antt =====
-- data.rs: the conversion of a received frame to Ethernet, in place. It returns the new buffer and
-- the length of the frame in it; an error leaves the buffer as it is.
pub mod Bounds
use Prim.Native.Nat.{ℕ, ◌+◌, ◌-◌, ◌/◌, ◌%◌, ◌^◌}
use embassy_zephyr_n_rf.Base.{
  List, [], ◌∷◌, ◌++◌, Bool, true, false, ◌&&◌, ltb, leb, bit_set, if◌then◌else◌, Outcome, ok, err,
  reject_if, ok_or, ◌>>=◌, ◌>>◌, length, drop, slice, index, read_u16, be_u16,
}
use embassy_zephyr_n_rf.Data.Types.{DataProtocolError, RxPayloadType, ethernet_header_len}
use embassy_zephyr_n_rf.Base.{checked_add}

-- `to_be_bytes`
abbrev pub be_bytes : ℕ → List ℕ
be_bytes x = x / 2 ^ 8 % 2 ^ 8 ∷ x % 2 ^ 8 ∷ []

unfoldable pub llc_ether_type : List ℕ → ℕ → Outcome DataProtocolError ℕ
llc_ether_type frame offset = do
  end ← ok_or (checked_add offset 8) DataProtocolError.invalid_length
  reject_if (ltb (length frame) end) DataProtocolError.frame_too_short
  high ← index frame (offset + 6)
  low ← index frame (offset + 7)
  ok (be_u16 high low)

abbrev pub llc_skip : ℕ → ℕ
llc_skip ether_type = if leb 1536 ether_type then 8 else 2

-- `copy_within` moves the payload behind the header; what lies behind the new end is left there.
unfoldable pub rebuild_ethernet :
    List ℕ → ℕ → List ℕ → List ℕ → ℕ → Outcome DataProtocolError (List ℕ × ℕ)
rebuild_ethernet frame payload_offset destination source ether_type = do
  reject_if (ltb (length frame) payload_offset) DataProtocolError.frame_too_short
  let payload_len = length frame - payload_offset
  new_len ← ok_or (checked_add ethernet_header_len payload_len) DataProtocolError.invalid_length
  reject_if (ltb (length frame) new_len) DataProtocolError.frame_too_large
  ok (
    destination
        ++ (source ++ (be_bytes ether_type ++ (drop payload_offset frame ++ drop new_len frame))),
    new_len,
  )

unfoldable pub four_address_mapping : List ℕ → List ℕ → Outcome DataProtocolError (List ℕ × List ℕ)
four_address_mapping frame destination = do
  reject_if (ltb (length frame) 30) DataProtocolError.frame_too_short
  source ← slice frame 24 30
  ok (destination, source)

abbrev pub three_address_mapping : List ℕ → List ℕ → List ℕ → Bool → Bool → List ℕ × List ℕ
three_address_mapping address1 address2 address3 to_ds from_ds =
    if to_ds
    then (address3, address2)
    else if from_ds
    then (address1, address3)
    else (address1, address2)

unfoldable pub ieee80211_addresses : List ℕ → ℕ → Outcome DataProtocolError (List ℕ × List ℕ)
unfolding four_address_mapping
ieee80211_addresses frame frame_control = do
  reject_if (ltb (length frame) 24) DataProtocolError.frame_too_short
  address1 ← slice frame 4 10
  address2 ← slice frame 10 16
  address3 ← slice frame 16 22
  let to_ds = bit_set frame_control 8
  let from_ds = bit_set frame_control 9
  if to_ds && from_ds
      then four_address_mapping frame address3
      else ok (three_address_mapping address1 address2 address3 to_ds from_ds)

unfoldable pub convert_mpdu : List ℕ → ℕ → Outcome DataProtocolError (List ℕ × ℕ)
convert_mpdu frame mac_header_len = do
  reject_if (ltb mac_header_len 24) DataProtocolError.frame_too_short
  fc ← read_u16 frame 0
  (destination, source) ← ieee80211_addresses frame fc
  ether_type ← llc_ether_type frame mac_header_len
  payload_offset ←
      ok_or (checked_add mac_header_len (llc_skip ether_type)) DataProtocolError.invalid_length
  rebuild_ethernet frame payload_offset destination source ether_type

unfoldable pub convert_msdu : List ℕ → ℕ → Outcome DataProtocolError (List ℕ × ℕ)
convert_msdu frame amsdu = do
  header_end ← ok_or (checked_add amsdu 14) DataProtocolError.invalid_length
  reject_if (ltb (length frame) header_end) DataProtocolError.frame_too_short
  destination ← slice frame amsdu (amsdu + 6)
  source ← slice frame (amsdu + 6) (amsdu + 12)
  ether_type ← llc_ether_type frame header_end
  payload_offset ←
      ok_or (checked_add header_end (llc_skip ether_type)) DataProtocolError.invalid_length
  rebuild_ethernet frame payload_offset destination source ether_type

unfoldable pub convert_to_ethernet :
    List ℕ → RxPayloadType → ℕ → Outcome DataProtocolError (List ℕ × ℕ)
convert_to_ethernet frame RxPayloadType.mpdu mac_header_len = convert_mpdu frame mac_header_len
convert_to_ethernet frame RxPayloadType.msdu_with_mac mac_header_len =
    convert_msdu frame mac_header_len
convert_to_ethernet frame RxPayloadType.msdu mac_header_len = convert_msdu frame 0
