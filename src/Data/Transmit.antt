-- ===== src/Data/Transmit.antt =====
-- data.rs: the transmission of one Ethernet frame through a TX token.
pub mod Ownership
pub mod Settled
use Prim.Native.Nat.{ℕ, ◌+◌, ◌-◌, ◌*◌, ◌/◌, ◌%◌, ◌^◌}
use embassy_zephyr_n_rf.Base.{
  List, [], ◌∷◌, ◌++◌, Option, none, some, Bool, true, false, not, ◌||◌, ltb, ◌==◌, if◌then◌else◌,
  Outcome, ok, err, panic, map_err, length, take, drop, replicate, u32_mod,
}
use embassy_zephyr_n_rf.Base.Actions.{Action, ◌>>=◌, ◌>>◌, pure}
use embassy_zephyr_n_rf.Protocol.Types.{Hpq, HpqmInfo}
use embassy_zephyr_n_rf.Data.Types.{DataProtocolError, tx_command_slot_size}
use embassy_zephyr_n_rf.Memory.Address.{Processor}
use embassy_zephyr_n_rf.Data.Port.{DevicePort, DataError}
use embassy_zephyr_n_rf.Data.Layout.{DataPath, tx_slot_address}
use embassy_zephyr_n_rf.Data.Tokens.{set_in_flight, reserve_tx}
use embassy_zephyr_n_rf.Data.Command.{encode_tx_command, validate_transmit_frame}

-- `address & RPU_ADDR_MASK_OFFSET`
abbrev pub address_offset : ℕ → ℕ
address_offset address = address % 2 ^ 24

-- The four bytes that end a frame of another length than a multiple of four.
abbrev pub padded_tail : List ℕ → ℕ → List ℕ
padded_tail frame aligned = drop aligned frame ++ replicate (4 - (length frame - aligned)) 0

module _ (port : DevicePort) where
  open port use {
    Device, DeviceError, RpuError, not_initialized, queues, tx_command_base, rpu_write, enqueue,
    trigger_command,
  }

  abbrev pub Link : Type 0
  Link = DataPath × Device

  abbrev pub Failure : Type 0
  Failure = DataError DeviceError RpuError

  abbrev pub written : Device × Option RpuError → Device × Outcome Failure (Unit {0})
  written (d, none) = (d, ok tt)
  written (d, some e) = (d, err (DataError.rpu e))

  -- One write of `write_packet`, unless its part is empty.
  abbrev pub write_part : Bool → ℕ → List ℕ → Device → Device × Outcome Failure (Unit {0})
  write_part true a bytes d = (d, ok tt)
  write_part false a bytes d = written (rpu_write Processor.umac a bytes d)

  -- The aligned part of the frame, and then the padded tail.
  unfoldable pub write_packet : ℕ → List ℕ → Device → Device × Outcome Failure (Unit {0})
  write_packet address frame =
      let aligned = length frame / 4 * 4 in
      do
        write_part (aligned == 0) address (take aligned frame)
        write_part (aligned == length frame) ((address + aligned) % u32_mod)
            (padded_tail frame aligned)

  unfoldable pub transmit_queue_context : Device → Outcome Failure (ℕ × Hpq)
  transmit_queue_context d = elim (tx_command_base d) [
    | none ↦ err (DataError.device not_initialized)
    | some base ↦ elim (queues d) [
      | none ↦ err (DataError.device not_initialized)
      | some q ↦ ok (base, q.command_busy)
    ]
  ]

  unfoldable pub deliver_transmit_command : Hpq → ℕ → Device → Device × Outcome Failure (Unit {0})
  deliver_transmit_command queue address d =
      let (d1, queued) = enqueue queue address d in
      elim queued [
        | some e ↦ (d1, err (DataError.queue_ownership_uncertain e))
        | none ↦
            let (d2, triggered) = trigger_command d1 in
            elim triggered [
              | some e ↦ (d2, err (DataError.queue_ownership_uncertain e))
              | none ↦ (d2, ok tt)
            ]
      ]

  -- On failure the token is released: `self.tx_in_flight[token] = false`.
  abbrev pub or_release :
      {A : Type 0}
      → ℕ
      → A
      → DataPath
      → Device × Outcome Failure (Unit {0})
      → Link × Outcome Failure A
  or_release token a p (d, ok _) = ((p, d), ok a)
  or_release token a p (d, err e) = ((set_in_flight token false p, d), err e)
  or_release token a p (d, panic) = ((p, d), panic)

  module _ (RX TX : ℕ) where
    abbrev pub fill_slot :
        List ℕ → ℕ → Option ℕ → DataPath → Device → Link × Outcome Failure (ℕ × ℕ)
    fill_slot frame token none p d =
        ((p, d), err (DataError.protocol (DataProtocolError.invalid_descriptor token)))
    fill_slot frame token (some address) p d =
        or_release token (token, address) p (write_packet address frame d)

    abbrev pub with_token : List ℕ → Device → DataPath × Option ℕ → Link × Outcome Failure (ℕ × ℕ)
    with_token frame d (p, none) = ((p, d), err DataError.no_transmit_token)
    with_token frame d (p, some token) = fill_slot frame token (tx_slot_address RX TX token p) p d

    abbrev pub when_valid :
        Outcome DataProtocolError (Unit {0}) → List ℕ → Action Link Failure (ℕ × ℕ)
    when_valid (err e) frame (p, d) = ((p, d), err (DataError.protocol e))
    when_valid panic frame (p, d) = ((p, d), panic)
    when_valid (ok _) frame (p, d) = with_token frame d (reserve_tx RX TX p)

    unfoldable pub prepare_transmit : List ℕ → Action Link Failure (ℕ × ℕ)
    prepare_transmit frame (p, d) =
        when_valid (validate_transmit_frame frame p.tx_buffer_size) frame (p, d)

    abbrev pub deliver :
        ℕ → ℕ → Hpq → List ℕ → DataPath → Device → Link × Outcome Failure (Unit {0})
    deliver token address queue command p d =
        let (d1, failed) = rpu_write Processor.umac address command d in
        elim failed [
          | some e ↦ ((set_in_flight token false p, d1), err (DataError.rpu e))
          | none ↦ let (d2, r) = deliver_transmit_command queue address d1 in ((p, d2), r)
        ]

    abbrev pub when_encoded :
        ℕ → ℕ → Hpq → Outcome Failure (List ℕ) → Action Link Failure (Unit {0})
    when_encoded token base queue (err e) (p, d) = ((p, d), err e)
    when_encoded token base queue panic (p, d) = ((p, d), panic)
    when_encoded token base queue (ok command) (p, d) =
        deliver token ((base + tx_command_slot_size * token % u32_mod) % u32_mod) queue command p d

    abbrev pub when_queued :
        ℕ → ℕ → ℕ → List ℕ → ℕ → Outcome Failure (ℕ × Hpq) → Action Link Failure (Unit {0})
    when_queued token packet_address wdev_id frame dscp_tos (err e) (p, d) = ((p, d), err e)
    when_queued token packet_address wdev_id frame dscp_tos panic (p, d) = ((p, d), panic)
    when_queued token packet_address wdev_id frame dscp_tos (ok (base, queue)) link =
        when_encoded token base queue
          (encode_tx_command wdev_id token frame dscp_tos (address_offset packet_address)) link

    unfoldable pub submit_transmit : ℕ → ℕ → ℕ → List ℕ → ℕ → Action Link Failure (Unit {0})
    submit_transmit token packet_address wdev_id frame dscp_tos (p, d) =
        when_queued token packet_address wdev_id frame dscp_tos (transmit_queue_context d) (p, d)

    unfoldable pub transmit : ℕ → List ℕ → ℕ → Action Link Failure ℕ
    transmit wdev_id frame dscp_tos = do
      (token, packet_address) ← prepare_transmit frame
      submit_transmit token packet_address wdev_id frame dscp_tos
      pure (ok token)
