-- ===== src/Protocol/Commands/Lengths.antt =====
-- protocol.rs: how many bytes the body of each command takes.
use Prim.Native.Nat.{zero, suc, suc, ℕ, ◌+◌, ◌*◌, ◌≤◌}
use embassy_zephyr_n_rf.Base.Tests.{le→ltb_not}
use embassy_zephyr_n_rf.Base.{
  ◌≡◌, refl, List, [], ◌∷◌, Bool, true, All, All-take, ok, arith, length, get_or, take,
}
use embassy_zephyr_n_rf.Base.Actions.{◌>>◌}
use embassy_zephyr_n_rf.Protocol.Types.{ScanRequest}
use embassy_zephyr_n_rf.Protocol.Writer.Appends.{
  Takes, >>-Takes, Takes-resize, write_u8-Takes, write_u16-Takes, write_u32-Takes,
  write_bytes-Takes, write_fixed-Takes, write_u32s-Takes,
}
use embassy_zephyr_n_rf.Protocol.Commands.{
  write_new_interface_metadata, write_new_interface_identity, write_deauthenticate_body, all_short,
  validate_scan_capacities, validate_scan_ssids, validate_scan_request, scan_body_len,
  write_scan_header, ssid_at, write_scan_ssid, write_scan_ssids, write_scan_timing,
  write_scan_options, write_scan_body,
}

abbrev pub IsSsid : List ℕ → Type 0
IsSsid ssid = length ssid ≤ 32

-- A scan request within the limits of the firmware's structure.
pub record IsScan (r : ScanRequest) : Type 0 where
  pub count : r.ssid_count ≤ 2
  pub ssids_len : All IsSsid r.ssids
  pub frequencies_len : length r.center_frequencies_mhz ≤ 64
  pub ie_len : length r.information_elements ≤ 400
  pub mac_len : length r.mac_address ≡ 6

all_short-accepts : (ssids : List (List ℕ)) → All IsSsid ssids → all_short ssids ≡ true
unfolding all_short
all_short-accepts [] h = refl
all_short-accepts (ssid ∷ ssids) h =
    rw (le→ltb_not (length ssid) 32 h.0) (all_short-accepts ssids h.1)

get_or-IsSsid : (ssids : List (List ℕ)) (i : ℕ) → All IsSsid ssids → IsSsid (get_or ssids i [])
get_or-IsSsid [] i h = omega arith
get_or-IsSsid (ssid ∷ ssids) zero h = h.0
get_or-IsSsid (ssid ∷ ssids) (suc i) h = get_or-IsSsid ssids i h.1

ssid_at-IsSsid : (r : ScanRequest) (i : ℕ) → IsScan r → IsSsid (ssid_at r i)
ssid_at-IsSsid r i v = ground (arith, get_or-IsSsid r.ssids i v.ssids_len)

pub validate_scan_request-accepts : (r : ScanRequest) → IsScan r → validate_scan_request r ≡ ok tt
unfolding validate_scan_request validate_scan_capacities validate_scan_ssids
validate_scan_request-accepts r v =
    rw
      (
        le→ltb_not r.ssid_count 2 v.count,
        le→ltb_not (length r.center_frequencies_mhz) 64 v.frequencies_len,
        le→ltb_not (length r.information_elements) 400 v.ie_len,
        all_short-accepts (take r.ssid_count r.ssids)
            (All-take IsSsid r.ssid_count r.ssids v.ssids_len),
      )
      refl

pub scan_body_len-fits : (n : ℕ) → n ≤ 64 → scan_body_len n ≡ ok (490 + n * 4)
unfolding scan_body_len
scan_body_len-fits n h = ground arith

write_scan_ssid-Takes : (ssid : List ℕ) → IsSsid ssid → Takes 33 (write_scan_ssid ssid)
unfolding write_scan_ssid
write_scan_ssid-Takes ssid h = >>-Takes (write_u8-Takes _) (write_fixed-Takes ssid 32 h)

write_scan_ssids-Takes : (r : ScanRequest) → IsScan r → Takes 66 (write_scan_ssids r)
unfolding write_scan_ssids
write_scan_ssids-Takes r v =
    >>-Takes (write_scan_ssid-Takes _ (ssid_at-IsSsid r 0 v))
      (write_scan_ssid-Takes _ (ssid_at-IsSsid r 1 v))

write_scan_options-Takes : (r : ScanRequest) → IsScan r → Takes 417 (write_scan_options r)
unfolding write_scan_options write_scan_timing
write_scan_options-Takes r v = >>-Takes (write_u8-Takes _) (
    >>-Takes (write_u8-Takes _) (
      >>-Takes (write_u16-Takes _) (
        >>-Takes (write_fixed-Takes _ 400 v.ie_len) (
          >>-Takes (Takes-resize v.mac_len (write_bytes-Takes _)) (
            >>-Takes (write_u16-Takes _)
              (>>-Takes (write_u16-Takes _) (>>-Takes (write_u16-Takes _) (write_u8-Takes _))))))))

pub write_scan_body-Takes :
    (r : ScanRequest)
    → IsScan r
    → Takes (490 + length r.center_frequencies_mhz * 4) (write_scan_body r)
unfolding write_scan_body write_scan_header
write_scan_body-Takes r v = Takes-resize (omega arith) (
    >>-Takes (>>-Takes (write_u32-Takes _) (>>-Takes (write_u16-Takes _) (write_u8-Takes _))) (
      >>-Takes (write_scan_ssids-Takes r v)
        (>>-Takes (write_scan_options-Takes r v) (write_u32s-Takes r.center_frequencies_mhz))))

pub write_new_interface-Takes :
    (interface_type : ℕ) (mac_address name : List ℕ)
    → length mac_address ≡ 6
    → length name ≤ 16
    → Takes 38 (
        write_new_interface_metadata interface_type
        >> write_new_interface_identity mac_address name)
unfolding write_new_interface_metadata write_new_interface_identity
write_new_interface-Takes interface_type mac_address name h k =
    >>-Takes
      (>>-Takes (write_u32-Takes _)
        (>>-Takes (write_u32-Takes _) (>>-Takes (write_u32-Takes _) (write_u32-Takes _))))
      (>>-Takes (Takes-resize h (write_bytes-Takes mac_address)) (write_fixed-Takes name 16 k))

pub write_deauthenticate_body-Takes :
    (bssid : List ℕ) (reason_code : ℕ) (local : Bool)
    → length bssid ≡ 6
    → Takes 14 (write_deauthenticate_body bssid reason_code local)
unfolding write_deauthenticate_body
write_deauthenticate_body-Takes bssid reason_code local h = >>-Takes (write_u32-Takes _) (
    >>-Takes (write_u16-Takes _)
      (>>-Takes (write_u16-Takes _) (Takes-resize h (write_bytes-Takes bssid))))
