-- ===== src/Data/Events/NoPanic.antt =====
-- data.rs: the parsers of the data events read inside the payload, whatever the firmware sends.
use native.Mathlib.Nat.{mul-le-mul_right}
use Prim.Native.Nat.{◌-◌, suc, ℕ, ◌+◌, ◌*◌, ◌≤◌}
use embassy_zephyr_n_rf.Base.Tests.{lt→ltb, ==_iff}
use embassy_zephyr_n_rf.Base.{
  ◌∙◌, ap, u32_at, take, length-take, drop, length-drop, ℕ_discrete, read_u16_lem, read_u16_lem,
  slice_lem, get_or, index_lem, ok, Returns, ◌≡◌, List, arith, length, dec_lt, read_u32_lem,
}
use embassy_zephyr_n_rf.Base.Post.{Post-ok, Post-bind, Post-Returns, Post}
use embassy_zephyr_n_rf.Protocol.Types.{HostMessageRef}
use embassy_zephyr_n_rf.Data.Types.{from_u8, RxEventRef, DataProtocolError}
use embassy_zephyr_n_rf.Data.Events.{
  classify_carrier, classify_transmit_done, classify_data_command, TxDoneEventRef,
  parse_tx_done_event, parse_rx_event, packet, classify_data_event, validated_data_payload,
  validate_rx_packet_array,
}

-- What a validated payload guarantees.
abbrev Validated : HostMessageRef → ℕ → List ℕ × ℕ → Type 0
Validated message minimum (payload, declared) =
    (payload ≡ message.payload) × (minimum ≤ declared) × (declared ≤ length message.payload)

validated_data_payload-Validated :
    (message : HostMessageRef) (command minimum : ℕ)
    → 8 ≤ minimum
    → Post (Validated message minimum) (validated_data_payload message command minimum)
unfolding validated_data_payload
validated_data_payload-Validated message command minimum h =
    elim (dec_lt (length message.payload) minimum) [
      | yes short ↦ ground arith
      | no long ↦
          let e0 = read_u32_lem {E = DataProtocolError} message.payload 0 (omega arith) in
          let e4 = read_u32_lem {E = DataProtocolError} message.payload 4 (omega arith) in
          rw (e0, e4) (ground arith)
    ]

-- What a parsed receive event guarantees.
abbrev Parsed : RxEventRef → Type 0
Parsed event = 20 + event.packet_count * 17 ≤ length event.payload

validate_rx_packet_array-Post :
    (declared count : ℕ)
    → Post (λ _. 20 + count * 17 ≤ declared) (validate_rx_packet_array declared count)
unfolding validate_rx_packet_array
validate_rx_packet_array-Post declared count = ground arith

parse_rx_event-Parsed : (message : HostMessageRef) → Post Parsed (parse_rx_event message)
unfolding parse_rx_event
parse_rx_event-Parsed message =
    Post-bind (Validated message 20) Parsed _ _
      (validated_data_payload-Validated message 3 20 (omega arith))
      λ (payload, declared) v.
        let room : declared ≤ length payload = ground arith in
        let low : 20 ≤ declared = v.1 in
        rw (index_lem {E = DataProtocolError} payload 13 0 (omega arith)) (
          Post-bind (λ _. 20 + get_or payload 13 0 * 17 ≤ declared) Parsed _ _
            (validate_rx_packet_array-Post declared (get_or payload 13 0))
            λ _ fits.
              rw
                (
                  slice_lem {E = DataProtocolError} payload 0 declared (omega arith) room,
                  read_u16_lem {E = DataProtocolError} payload 8 (omega arith),
                  index_lem {E = DataProtocolError} payload 10 0 (omega arith),
                  index_lem {E = DataProtocolError} payload 11 0 (omega arith),
                  index_lem {E = DataProtocolError} payload 12 0 (omega arith),
                  index_lem {E = DataProtocolError} payload 15 0 (omega arith),
                  read_u16_lem {E = DataProtocolError} payload 16 (omega arith),
                  read_u16_lem {E = DataProtocolError} payload 18 (omega arith),
                )
                (omega (
                  arith,
                  fits,
                  room,
                  length-take (declared - 0) (drop 0 payload),
                  length-drop 0 payload,
                )))

-- Parsing a receive event never panics, whatever the message holds.
pub parse_rx_event-Returns : (message : HostMessageRef) → Returns (parse_rx_event message)
parse_rx_event-Returns message = Post-Returns Parsed _ (parse_rx_event-Parsed message)

-- Every packet index is safe to look up in a parsed receive event: `packet` does not panic.
pub packet-Returns :
    (message : HostMessageRef) (event : RxEventRef) (i : ℕ)
    → parse_rx_event message ≡ ok event
    → Returns (packet event i)
unfolding packet from_u8
packet-Returns message event i h =
    let parsed = Post-ok Parsed _ event (parse_rx_event-Parsed message) h in
    elim (dec_lt i event.packet_count) [
      | no beyond ↦ ground arith
      | yes inside ↦
          let bound = mul-le-mul_right {m = suc i} {n = event.packet_count} 17 inside in
          rw
            (
              read_u16_lem {E = DataProtocolError} event.payload (20 + i * 17) (omega arith),
              read_u16_lem {E = DataProtocolError} event.payload (20 + i * 17 + 2) (omega arith),
              index_lem {E = DataProtocolError} event.payload (20 + i * 17 + 4) 0 (omega arith),
            )
            (ground arith)
    ]

-- What a parsed completion event holds: the token and as many status bytes as it announces.
abbrev pub Completed : HostMessageRef → TxDoneEventRef → Type 0
Completed message event =
    (event.token ≡ get_or message.payload 8 0)
    × (length event.statuses ≡ get_or message.payload 9 0)

-- Parsing a completion event never panics; a parsed one holds the token byte of the payload and as
-- many status bytes as the payload announces.
pub parse_tx_done_event-Completed :
    (message : HostMessageRef) → Post (Completed message) (parse_tx_done_event message)
unfolding parse_tx_done_event
parse_tx_done_event-Completed message =
    Post-bind (Validated message 22) (Completed message) _ _
      (validated_data_payload-Validated message 2 22 (omega arith))
      λ (payload, declared) v.
        let same : payload ≡ message.payload = v.0 in
        let room : declared ≤ length payload = ground arith in
        let low : 22 ≤ declared = v.1 in
        let count = get_or payload 9 0 in
        rw
          (
            index_lem {E = DataProtocolError} payload 9 0 (omega arith),
            index_lem {E = DataProtocolError} payload 8 0 (omega arith),
          )
          (elim (ℕ_discrete declared (22 + count)) [
            | no other ↦ ground arith
            | yes exact ↦
                let whole =
                  slice_lem {E = DataProtocolError} payload 22 (22 + count) (omega arith)
                    (omega arith) in
                let size : length (take (22 + count - 22) (drop 22 payload)) ≡ count = omega (
                  arith,
                  length-take (22 + count - 22) (drop 22 payload),
                  length-drop 22 payload,
                  room,
                  exact,
                ) in
                elim (dec_lt (22 + count) 4294967296) [
                  | no wide ↦ ground arith
                  | yes narrow ↦
                      rw
                        (
                          lt→ltb (22 + count) 4294967296 narrow,
                          (==_iff declared (22 + count)).1 exact,
                          whole,
                        )
                        (ap (λ bs. get_or bs 8 0) same, size ∙ ap (λ bs. get_or bs 9 0) same)
                ]
          ])

-- Classifying a data event never panics, whatever the message holds.
pub classify_data_event-Returns : (message : HostMessageRef) → Returns (classify_data_event message)
unfolding classify_data_event classify_data_command classify_transmit_done classify_carrier
classify_data_event-Returns message =
    let done = Post-Returns (Completed message) _ (parse_tx_done_event-Completed message) in
    elim (dec_lt (length message.payload) 8) [
      | yes short ↦ ground arith
      | no long ↦
          let e0 = read_u32_lem {E = DataProtocolError} message.payload 0 (omega arith) in
          let e4 = read_u32_lem {E = DataProtocolError} message.payload 4 (omega arith) in
          elim (dec_lt (u32_at message.payload 4) 12) [
            | yes few ↦ rw (e0, e4) (ground arith)
            | no many ↦ elim (dec_lt (length message.payload) 12) [
              | yes outside ↦ rw (e0, e4) (ground arith)
              | no inside ↦
                  let e8 = read_u32_lem {E = DataProtocolError} message.payload 8 (omega arith) in
                  rw (e0, e4, e8) (ground arith)
            ]
          ]
    ]
