-- ===== src/Control/Parse/NoPanic.antt =====
-- control.rs: the event parser reads inside the message, whatever the firmware sends.
pub mod Bodies
use Prim.Native.Nat.{◌*◌, ◌^◌, ℕ, ◌+◌, ◌-◌, ◌≤◌}
use embassy_zephyr_n_rf.Base.Tests.{lt→ltb, le→ltb_not}
use mathlib.Core.Path.{subst}
use embassy_zephyr_n_rf.Base.Bytes.{slice_from, slice_from_lem}
use embassy_zephyr_n_rf.Base.{
  dec_lt, ◌≡◌, refl, List, ok, ◌>>=◌, arith, length, take, drop, length-take, length-drop,
  index_lem, read_u16_lem, read_u32_lem, slice_lem, u32_at,
}
use embassy_zephyr_n_rf.Base.Bytes.{read_u64}
use embassy_zephyr_n_rf.Base.Post.{Post, Post-bind}
use embassy_zephyr_n_rf.Protocol.Types.{ProtocolError, HostMessageRef, UmacHeader}
use embassy_zephyr_n_rf.Protocol.Umac.{parse_umac_header, parse_umac_event}
use embassy_zephyr_n_rf.Control.Types.{MlmeEvent, ScanResultEvent, ControlEvent}
use embassy_zephyr_n_rf.Control.Parse.{
  parse_control_event, parse_umac_event, parse_control_event, HostMessageRef, require_len,
  mlme_variable_extents, parse_mlme, scan_result_variable_extents, parse_scan_result,
  parse_scan_done_event, parse_scan_result_event, parse_authentication_event,
  parse_association_event, parse_disconnect_event, parse_command_status_event,
  parse_interface_status_event, parse_regulatory_change_event, parse_scan_or_connection_event,
  parse_status_event, parse_event,
}
use embassy_zephyr_n_rf.Control.Parse.NoPanic.Bodies.{
  read_u64_lem, require_len-Post, IsMlme, parse_mlme-Post, IsScanResult, parse_scan_result-Post,
}

-- What a parsed event guarantees of the body that it was read from.
abbrev pub IsEvent : List ℕ → ControlEvent → Type 0
IsEvent body (ControlEvent.scan_result event) = IsScanResult body event
IsEvent body (ControlEvent.authentication event) = IsMlme body event
IsEvent body (ControlEvent.association event) = IsMlme body event
IsEvent body (ControlEvent.deauthentication event) = IsMlme body event
IsEvent body (ControlEvent.disassociation event) = IsMlme body event
IsEvent body (ControlEvent.regulatory_change _ country) = length country ≡ 2
IsEvent body (ControlEvent.other _ rest) = rest ≡ body
IsEvent body (ControlEvent.scan_done _ _ _) = Unit
IsEvent body (ControlEvent.command_status _ _ _) = Unit
IsEvent body (ControlEvent.interface_state _ _) = Unit

parse_scan_done_event-Post :
    (header : UmacHeader) (body : List ℕ) → Post (IsEvent body) (parse_scan_done_event header body)
unfolding parse_scan_done_event
parse_scan_done_event-Post header body =
    Post-bind (λ _. 8 ≤ length body) (IsEvent body) _ _ (require_len-Post body 8)
      λ _ long.
        rw
          (
            read_u32_lem {E = ProtocolError} body 0 (omega arith),
            read_u32_lem {E = ProtocolError} body 4 (omega arith),
          )
          tt

parse_command_status_event-Post :
    (header : UmacHeader) (body : List ℕ)
    → Post (IsEvent body) (parse_command_status_event header body)
unfolding parse_command_status_event
parse_command_status_event-Post header body =
    Post-bind (λ _. 8 ≤ length body) (IsEvent body) _ _ (require_len-Post body 8)
      λ _ long.
        rw
          (
            read_u32_lem {E = ProtocolError} body 0 (omega arith),
            read_u32_lem {E = ProtocolError} body 4 (omega arith),
          )
          tt

parse_interface_status_event-Post :
    (header : UmacHeader) (body : List ℕ)
    → Post (IsEvent body) (parse_interface_status_event header body)
unfolding parse_interface_status_event
parse_interface_status_event-Post header body =
    Post-bind (λ _. 4 ≤ length body) (IsEvent body) _ _ (require_len-Post body 4)
      λ _ long. rw (read_u32_lem {E = ProtocolError} body 0 (omega arith)) tt

parse_regulatory_change_event-Post :
    (header : UmacHeader) (body : List ℕ)
    → Post (IsEvent body) (parse_regulatory_change_event header body)
unfolding parse_regulatory_change_event
parse_regulatory_change_event-Post header body =
    Post-bind (λ _. 9 ≤ length body) (IsEvent body) _ _ (require_len-Post body 9)
      λ _ long.
        rw
          (
            index_lem {E = ProtocolError} body 7 0 (omega arith),
            index_lem {E = ProtocolError} body 8 0 (omega arith),
          )
          refl

-- An event that holds a management event, or a scan result.
mlme_event-Post :
    (header : UmacHeader) (body : List ℕ) (make : MlmeEvent → ControlEvent)
    → ((event : MlmeEvent) → IsMlme body event → IsEvent body (make event))
    → Post (IsEvent body) (parse_mlme header body >>= λ event. ok (make event))
mlme_event-Post header body make h =
    Post-bind (IsMlme body) (IsEvent body) _ _ (parse_mlme-Post header body) λ event p. h event p

parse_event-Post :
    (header : UmacHeader) (body : List ℕ) → Post (IsEvent body) (parse_event header body)
unfolding parse_scan_or_connection_event parse_scan_result_event parse_authentication_event
    parse_association_event parse_disconnect_event parse_status_event
parse_event-Post header body =
    let scan_result =
      Post-bind (IsScanResult body) (IsEvent body) _ (λ event. ok (ControlEvent.scan_result event))
        (parse_scan_result-Post header body) λ event p. p in
    ground (
      arith,
      scan_result,
      parse_scan_done_event-Post header body,
      parse_command_status_event-Post header body,
      parse_interface_status_event-Post header body,
      parse_regulatory_change_event-Post header body,
      mlme_event-Post header body ControlEvent.authentication (λ event p. p),
      mlme_event-Post header body ControlEvent.association (λ event p. p),
      mlme_event-Post header body ControlEvent.deauthentication (λ event p. p),
      mlme_event-Post header body ControlEvent.disassociation (λ event p. p),
    )

parse_umac_header-Post : (bytes : List ℕ) → Post (λ _. 36 ≤ length bytes) (parse_umac_header bytes)
unfolding parse_umac_header
parse_umac_header-Post bytes = elim (dec_lt (length bytes) 36) [
  | yes short ↦ rw (lt→ltb (length bytes) 36 short) tt
  | no long ↦
      rw
        (
          le→ltb_not 36 (length bytes) (omega arith),
          read_u32_lem {E = ProtocolError} bytes 0 (omega arith),
          read_u32_lem {E = ProtocolError} bytes 4 (omega arith),
          read_u32_lem {E = ProtocolError} bytes 8 (omega arith),
          read_u32_lem {E = ProtocolError} bytes 12 (omega arith),
          read_u32_lem {E = ProtocolError} bytes 16 (omega arith),
          read_u32_lem {E = ProtocolError} bytes 20 (omega arith),
          read_u32_lem {E = ProtocolError} bytes 24 (omega arith),
          read_u64_lem bytes 28 (omega arith),
        )
        (omega arith)
]

-- The header, and the body behind its 36 bytes.
abbrev IsSplit : HostMessageRef → UmacHeader × List ℕ → Type 0
IsSplit message (header, body) = (36 ≤ length message.payload) × (body ≡ drop 36 message.payload)

parse_umac_body-Post :
    (message : HostMessageRef)
    → Post (IsSplit message) (
        parse_umac_header message.payload >>= λ header.
        slice_from message.payload 36 >>= λ body. ok (header, body))
parse_umac_body-Post message =
    Post-bind (λ _. 36 ≤ length message.payload) (IsSplit message) _ _
      (parse_umac_header-Post message.payload)
      λ header long. rw (slice_from_lem {E = ProtocolError} message.payload 36 long) (long, refl)

parse_umac_event-Post :
    (message : HostMessageRef) → Post (IsSplit message) (parse_umac_event message)
unfolding parse_umac_event
parse_umac_event-Post message = ground (arith, parse_umac_body-Post message)

-- Parsing a control event never panics, whatever the message holds. An accepted event reads inside
-- the body behind the 36 bytes of the header: a management event has an address of 6 bytes and a
-- frame of at most 400, and its information elements end within the body, as those of a scan result
-- do; a regulatory change has a country of 2 bytes; an event that is not known holds the whole body.
pub parse_control_event-IsEvent :
    (message : HostMessageRef)
    → Post (IsEvent (drop 36 message.payload)) (parse_control_event message)
unfolding parse_control_event
parse_control_event-IsEvent message =
    Post-bind (IsSplit message) (IsEvent (drop 36 message.payload)) _ _
      (parse_umac_event-Post message)
      λ (header, body) u.
        subst (λ b. Post (IsEvent b) (parse_event header body)) u.1 (parse_event-Post header body)
