-- ===== src/Control/Parse/NoPanic/Bodies.antt =====
-- control.rs: the parsers of management frames and scan results read inside the body.
use Prim.Native.Nat.{◌*◌, ◌^◌, ℕ, ◌+◌, ◌-◌, ◌≤◌}
use embassy_zephyr_n_rf.Base.{
  ◌≡◌, refl, List, ok, arith, length, take, drop, length-take, length-drop, read_u16_lem,
  read_u32_lem, slice_lem, u32_at,
}
use embassy_zephyr_n_rf.Base.Bytes.{read_u64}
use embassy_zephyr_n_rf.Base.Post.{Post, Post-bind}
use embassy_zephyr_n_rf.Protocol.Types.{ProtocolError, UmacHeader}
use embassy_zephyr_n_rf.Control.Types.{MlmeEvent, ScanResultEvent}
use embassy_zephyr_n_rf.Control.Parse.{
  require_len, mlme_variable_extents, parse_mlme, scan_result_variable_extents, parse_scan_result,
}

pub read_u64_lem :
    (bs : List ℕ) (i : ℕ)
    → i + 8 ≤ length bs
    → read_u64 {E = ProtocolError} bs i ≡ ok (u32_at bs i + u32_at bs (i + 4) * 2 ^ 32)
unfolding read_u64
read_u64_lem bs i h =
    rw
      (
        read_u32_lem {E = ProtocolError} bs i (omega arith),
        read_u32_lem {E = ProtocolError} bs (i + 4) (omega arith),
      )
      refl

pub require_len-Post : (bytes : List ℕ) (n : ℕ) → Post (λ _. n ≤ length bytes) (require_len bytes n)
unfolding require_len
require_len-Post bytes n = ground arith

-- The extents of a management event stay in the body, and the frame has at most 400 bytes.
abbrev IsMlmeExtent : List ℕ → ℕ × ℕ → Type 0
IsMlmeExtent body (frame_end, required) =
    (28 ≤ frame_end) × (frame_end ≤ 428) × (439 ≤ required) × (required ≤ length body)

mlme_variable_extents-Post :
    (body : List ℕ) → 439 ≤ length body → Post (IsMlmeExtent body) (mlme_variable_extents body)
unfolding mlme_variable_extents require_len
mlme_variable_extents-Post body h =
    rw
      (
        read_u32_lem {E = ProtocolError} body 24 (omega arith),
        read_u32_lem {E = ProtocolError} body 435 (omega arith),
      )
      (ground arith)

-- What a parsed management event guarantees.
pub record IsMlme (body : List ℕ) (event : MlmeEvent) : Type 0 where
  pub bssid_len : length event.bssid ≡ 6
  pub frame_len : length event.frame ≤ 400
  pub elements_len : 439 + length event.request_information_elements ≤ length body

slice_length :
    (bs : List ℕ) (a b : ℕ) → a ≤ b → b ≤ length bs → length (take (b - a) (drop a bs)) ≡ b - a
slice_length bs a b h k = omega (arith, length-take (b - a) (drop a bs), length-drop a bs)

pub parse_mlme-Post :
    (header : UmacHeader) (body : List ℕ) → Post (IsMlme body) (parse_mlme header body)
unfolding parse_mlme
parse_mlme-Post header body =
    Post-bind (λ _. 439 ≤ length body) (IsMlme body) _ _ (require_len-Post body 439)
      λ _ long.
        Post-bind (IsMlmeExtent body) (IsMlme body) _ _ (mlme_variable_extents-Post body long)
          λ (frame_end, required) (a, b, c, d).
            rw
              (
                read_u32_lem {E = ProtocolError} body 0 (omega arith),
                read_u32_lem {E = ProtocolError} body 4 (omega arith),
                read_u32_lem {E = ProtocolError} body 8 (omega arith),
                read_u32_lem {E = ProtocolError} body 12 (omega arith),
                read_u64_lem body 16 (omega arith),
                slice_lem {E = ProtocolError} body 428 434 (omega arith) (omega arith),
                slice_lem {E = ProtocolError} body 28 frame_end (omega arith) (omega arith),
                slice_lem {E = ProtocolError} body 439 required (omega arith) (omega arith),
              )
              record {
                bssid_len = slice_length body 428 434 (omega arith) (omega arith);
                frame_len =
                    omega (arith, slice_length body 28 frame_end (omega arith) (omega arith));
                elements_len =
                    omega (arith, slice_length body 439 required (omega arith) (omega arith));
              }

abbrev IsScanExtent : List ℕ → ℕ × ℕ → Type 0
IsScanExtent body (ies_end, beacon_end) =
    (70 ≤ ies_end) × (ies_end ≤ beacon_end) × (beacon_end ≤ length body)

scan_result_variable_extents-Post :
    (body : List ℕ)
    → 70 ≤ length body
    → Post (IsScanExtent body) (scan_result_variable_extents body)
unfolding scan_result_variable_extents require_len
scan_result_variable_extents-Post body h =
    rw
      (
        read_u32_lem {E = ProtocolError} body 62 (omega arith),
        read_u32_lem {E = ProtocolError} body 66 (omega arith),
      )
      (ground arith)

-- What a parsed scan result guarantees.
pub record IsScanResult (body : List ℕ) (event : ScanResultEvent) : Type 0 where
  pub bssid_len : length event.bssid ≡ 6
  pub elements_len :
      70 + length event.information_elements + length event.beacon_information_elements
      ≤ length body

pub parse_scan_result-Post :
    (header : UmacHeader) (body : List ℕ) → Post (IsScanResult body) (parse_scan_result header body)
unfolding parse_scan_result
parse_scan_result-Post header body =
    Post-bind (λ _. 70 ≤ length body) (IsScanResult body) _ _ (require_len-Post body 70)
      λ _ long.
        Post-bind (IsScanExtent body) (IsScanResult body) _ _
          (scan_result_variable_extents-Post body long)
          λ (ies_end, beacon_end) (a, b, c).
            rw
              (
                read_u32_lem {E = ProtocolError} body 48 (omega arith),
                read_u32_lem {E = ProtocolError} body 52 (omega arith),
                read_u32_lem {E = ProtocolError} body 0 (omega arith),
                read_u32_lem {E = ProtocolError} body 8 (omega arith),
                read_u32_lem {E = ProtocolError} body 12 (omega arith),
                read_u32_lem {E = ProtocolError} body 16 (omega arith),
                read_u32_lem {E = ProtocolError} body 24 (omega arith),
                slice_lem {E = ProtocolError} body 56 62 (omega arith) (omega arith),
                read_u16_lem {E = ProtocolError} body 44 (omega arith),
                read_u16_lem {E = ProtocolError} body 46 (omega arith),
                slice_lem {E = ProtocolError} body 70 ies_end (omega arith) (omega arith),
                slice_lem {E = ProtocolError} body ies_end beacon_end (omega arith) (omega arith),
              )
              record {
                bssid_len = slice_length body 56 62 (omega arith) (omega arith);
                elements_len = omega (
                  arith,
                  slice_length body 70 ies_end (omega arith) (omega arith),
                  slice_length body ies_end beacon_end (omega arith) (omega arith),
                );
              }
