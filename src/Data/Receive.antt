-- ===== src/Data/Receive.antt =====
-- data.rs: posting the receive descriptors, and the reception of one packet.
pub mod Posted
use Prim.Native.Nat.{ℕ, zero, suc, ◌+◌, ◌-◌, ◌*◌, ◌%◌, ◌^◌}
use embassy_zephyr_n_rf.Base.{
  List, [], ◌∷◌, ◌++◌, Option, none, some, Bool, true, false, not, ltb, leb, if◌then◌else◌, Outcome,
  ok, err, panic, map_err, ok_or, length, get_or, set, take, drop, index, be_u16, u32_bytes,
  u32_mod, ◌⊎◌, inl, inr,
}
use embassy_zephyr_n_rf.Base.Actions.{Action, ◌>>=◌, ◌>>◌, pure}
use embassy_zephyr_n_rf.Protocol.Types.{Hpq, HpqmInfo}
use embassy_zephyr_n_rf.Data.Types.{
  DataProtocolError, RxPacketInfo, RxEventRef, rx_buffer_headroom, rx_command_slot_size,
}
use embassy_zephyr_n_rf.Memory.Address.{Processor}
use embassy_zephyr_n_rf.Data.Port.{DevicePort, DataError}
use embassy_zephyr_n_rf.Data.Layout.{DataPath, rx_slot_address}
use embassy_zephyr_n_rf.Data.Events.{packet}
use embassy_zephyr_n_rf.Data.Convert.{convert_to_ethernet}
use embassy_zephyr_n_rf.Data.Transmit.{Link, Failure, address_offset}

pub record ReceivedFrame : Type 0 where
  pub len : ℕ
  pub ether_type : ℕ
  pub descriptor_id : ℕ
  pub signal_dbm : ℕ
  pub frequency_mhz : ℕ

-- `array.get(i)`
abbrev pub nth : {A : Type 0} → List A → ℕ → Option A
nth [] i = none
nth (x ∷ xs) zero = some x
nth (x ∷ xs) (suc i) = nth xs i

-- `self.rx_posted[index]`, in range wherever it is read.
abbrev pub posted : ℕ → DataPath → Bool
posted i p = get_or p.rx_posted i false

abbrev pub set_posted : ℕ → Bool → DataPath → DataPath
set_posted i b p = record p { rx_posted = set p.rx_posted i b }

module _ (port : DevicePort) where
  open port use {
    Device, DeviceError, RpuError, not_initialized, queues, rx_command_base, rpu_read,
    rpu_write_u32, rpu_write_indirect, enqueue,
  }

  abbrev pub invalid_descriptor : ℕ → Failure port
  invalid_descriptor n = DataError.protocol (DataProtocolError.invalid_descriptor n)

  abbrev pub not_ready : Failure port
  not_ready = DataError.device not_initialized

  abbrev pub queue_of : ℕ → ℕ → Option HpqmInfo → Option ℕ → Outcome (Failure port) (Hpq × ℕ)
  queue_of pool_id descriptor none base = err not_ready
  queue_of pool_id descriptor (some info) base = elim (nth info.rx_buffer_busy pool_id) [
    | none ↦ err (invalid_descriptor descriptor)
    | some queue ↦ elim base [ none ↦ err not_ready | some b ↦ ok (queue, b) ]
  ]

  unfoldable pub rx_queue_context : ℕ → ℕ → Action (Link port) (Failure port) (Hpq × ℕ)
  rx_queue_context pool_id descriptor (p, d) =
      ((p, d), queue_of pool_id descriptor (queues d) (rx_command_base d))

  -- `RPU_MCU_CORE_INDIRECT_BASE | (command_address & RPU_ADDR_MASK_OFFSET)`: the base has no bit of
  -- the offset.
  unfoldable pub prepare_rx_descriptor : ℕ → ℕ → ℕ → Action (Link port) (Failure port) ℕ
  prepare_rx_descriptor slot command_base descriptor (p, d) =
      let (d1, r1) = rpu_write_u32 Processor.lmac slot descriptor d in
      elim r1 [
        | some e ↦ ((p, d1), err (DataError.rpu e))
        | none ↦
            let command_address =
              (command_base + rx_command_slot_size * descriptor % u32_mod) % u32_mod in
            let dma_pointer = address_offset ((slot + rx_buffer_headroom) % u32_mod) in
            let (d2, r2) =
              rpu_write_indirect Processor.lmac (3221225472 + address_offset command_address)
                (u32_bytes dma_pointer) d1 in
            elim r2 [
              | some e ↦ ((p, d2), err (DataError.rpu e))
              | none ↦ ((p, d2), ok command_address)
            ]
      ]

  -- The descriptor counts as posted before the queue write, whatever becomes of that.
  unfoldable pub enqueue_rx : ℕ → Hpq → ℕ → Action (Link port) (Failure port) (Unit {0})
  enqueue_rx i queue command_address (p, d) =
      let (d1, failed) = enqueue queue command_address d in
      elim failed [
        | some e ↦ ((set_posted i true p, d1), err (DataError.queue_ownership_uncertain e))
        | none ↦ ((set_posted i true p, d1), ok tt)
      ]

  module _ (RX TX : ℕ) where
    unfoldable pub available_rx_index : ℕ → Action (Link port) (Failure port) ℕ
    available_rx_index descriptor (p, d) =
        if leb RX descriptor
        then ((p, d), err (invalid_descriptor descriptor))
        else if posted descriptor p
        then ((p, d), err (DataError.receive_descriptor_busy descriptor))
        else ((p, d), ok descriptor)

    unfoldable pub slot_of : ℕ → ℕ → Action (Link port) (Failure port) ℕ
    slot_of i descriptor (p, d) =
        ((p, d), ok_or (rx_slot_address RX TX i p) (invalid_descriptor descriptor))

    unfoldable pub post_rx : ℕ → ℕ → Action (Link port) (Failure port) (Unit {0})
    post_rx descriptor pool_id = do
      i ← available_rx_index descriptor
      (queue, command_base) ← rx_queue_context pool_id descriptor
      slot ← slot_of i descriptor
      command_address ← prepare_rx_descriptor slot command_base descriptor
      enqueue_rx i queue command_address

    abbrev pub post_if_free : ℕ → Action (Link port) (Failure port) (Unit {0})
    post_if_free descriptor (p, d) =
        if not (posted descriptor p) then post_rx descriptor 0 (p, d) else ((p, d), ok tt)

    -- The loop of `post_all_rx`, from `descriptor` on with `n` rounds left.
    unfoldable pub post_from : ℕ → ℕ → Action (Link port) (Failure port) (Unit {0})
    post_from zero descriptor = pure (ok tt)
    post_from (suc n) descriptor = do post_if_free descriptor; post_from n (suc descriptor)

    unfoldable pub post_all_rx : Action (Link port) (Failure port) (Unit {0})
    unfolding post_from
    post_all_rx = post_from RX 0

    abbrev pub take_found :
        Outcome DataProtocolError RxPacketInfo → Action (Link port) (Failure port) RxPacketInfo
    take_found (err e) (p, d) = ((p, d), err (DataError.protocol e))
    take_found panic (p, d) = ((p, d), panic)
    take_found (ok info) (p, d) =
        if leb RX info.descriptor_id
        then ((p, d), err (invalid_descriptor info.descriptor_id))
        else if not (posted info.descriptor_id p)
        then ((p, d), err (invalid_descriptor info.descriptor_id))
        else ((set_posted info.descriptor_id false p, d), ok info)

    unfoldable pub take_rx_descriptor :
        RxEventRef → ℕ → Action (Link port) (Failure port) RxPacketInfo
    take_rx_descriptor event packet_index = take_found (packet event packet_index)

    -- Posts the descriptor again and fails with `e`.
    abbrev pub repost :
        {A : Type 0} → RxPacketInfo → Failure port → Action (Link port) (Failure port) A
    repost info e = do post_rx info.descriptor_id 0; pure (err e)

    unfoldable pub ensure_receive_capacity :
        RxPacketInfo → ℕ → Action (Link port) (Failure port) (Unit {0})
    ensure_receive_capacity info output_len (p, d) =
        if ltb p.rx_buffer_size info.packet_len
        then repost info (DataError.protocol DataProtocolError.frame_too_large) (p, d)
        else if ltb output_len info.packet_len
        then repost info (DataError.output_too_small info.packet_len output_len) (p, d)
        else ((p, d), ok tt)

    abbrev pub read_done :
        RxPacketInfo
        → DataPath
        → Device × (RpuError ⊎ List ℕ)
        → Link port × Outcome (Failure port) (List ℕ)
    read_done info p (d, inl e) = repost info (DataError.rpu e) (p, d)
    read_done info p (d, inr bytes) = ((p, d), ok bytes)

    unfoldable pub read_rx_or_repost : RxPacketInfo → ℕ → Action (Link port) (Failure port) (List ℕ)
    read_rx_or_repost info slot (p, d) =
        read_done info p
          (rpu_read Processor.lmac ((slot + rx_buffer_headroom) % u32_mod) info.packet_len d)

    -- The conversion's result, kept while the descriptor is posted; only a panic ends it there.
    abbrev pub converted :
        Outcome DataProtocolError (List ℕ × ℕ)
        → Outcome (Failure port) (Outcome DataProtocolError (List ℕ × ℕ))
    converted panic = panic
    converted r = ok r

    unfoldable pub received_frame :
        Outcome DataProtocolError (List ℕ × ℕ)
        → List ℕ
        → RxPacketInfo
        → RxEventRef
        → Outcome (Failure port) (List ℕ × ReceivedFrame)
    received_frame panic output info event = panic
    received_frame (err e) output info event = err (DataError.protocol e)
    received_frame (ok (frame, n)) output info event =
        let buffer = frame ++ drop info.packet_len output in
        elim (index {E = Failure port} buffer 12) [
          | err e ↦ err e
          | panic ↦ panic
          | ok high ↦ elim (index {E = Failure port} buffer 13) [
            | err e ↦ err e
            | panic ↦ panic
            | ok low ↦ ok (
              buffer,
              record {
                len = n;
                ether_type = be_u16 high low;
                descriptor_id = info.descriptor_id;
                signal_dbm = event.signal_dbm;
                frequency_mhz = event.frequency_mhz;
              },
            )
          ]
        ]

    -- The buffer is returned with the frame; what it holds after an error is not kept.
    unfoldable pub receive_packet :
        RxEventRef → ℕ → List ℕ → Action (Link port) (Failure port) (List ℕ × ReceivedFrame)
    receive_packet event packet_index output = do
      info ← take_rx_descriptor event packet_index
      ensure_receive_capacity info (length output)
      slot ← slot_of info.descriptor_id info.descriptor_id
      bytes ← read_rx_or_repost info slot
      conversion ←
          pure (converted (convert_to_ethernet bytes info.payload_type event.mac_header_len))
      post_rx info.descriptor_id 0
      pure (received_frame conversion output info event)
