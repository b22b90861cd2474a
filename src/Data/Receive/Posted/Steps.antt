-- ===== src/Data/Receive/Posted/Steps.antt =====
-- data.rs: what the steps of a reception do to the posted descriptors.
use Prim.Native.Nat.{ℕ, ◌<◌}
use embassy_zephyr_n_rf.Base.Actions.{pure}
use embassy_zephyr_n_rf.Base.{
  refl, ◌⊎◌, inl, inr, panic, List, ok, inr, inl, err, ltb, Bool-cases, Outcome, ◌≡◌, true, false,
  arith,
}
use embassy_zephyr_n_rf.Base.Actions.{pure, Then, Then-bind}
use embassy_zephyr_n_rf.Data.Port.{DevicePort}
use embassy_zephyr_n_rf.Data.Layout.{DataPath}
use embassy_zephyr_n_rf.Data.Transmit.{Link}
use embassy_zephyr_n_rf.Data.Receive.{
  read_done, take_found, repost, set_posted, packet, RxEventRef, Failure, DataProtocolError,
  take_rx_descriptor, read_rx_or_repost, ensure_receive_capacity, RxPacketInfo, posted, slot_of,
  post_rx,
}
use embassy_zephyr_n_rf.Data.Receive.Posted.Queue.{Posts, post_rx-Posts}

module _ (port : DevicePort) (RX TX : ℕ) where
  open port use {Device}

  -- The data path is the same as before.
  abbrev pub Same : {A : Type 0} → DataPath → Link port → A → Type 0
  Same p (p', d) a = p' ≡ p

  pub slot_of-Same :
      (i n : ℕ) (p : DataPath) (d : Device) → Then (Same p) (slot_of port RX TX i n (p, d))
  unfolding slot_of
  slot_of-Same i n p d = ground arith

  -- The descriptor of the event's packet was posted and is no longer.
  abbrev pub Takes :
      Outcome DataProtocolError RxPacketInfo → DataPath → Link port → RxPacketInfo → Type 0
  Takes found p (p', d) info =
      (found ≡ ok info)
      × (info.descriptor_id < RX)
      × (posted info.descriptor_id p ≡ true)
      × (p' ≡ set_posted info.descriptor_id false p)

  take_found-Takes :
      (r : Outcome DataProtocolError RxPacketInfo) (p : DataPath) (d : Device)
      → Then (Takes r p) (take_found port RX TX r (p, d))
  take_found-Takes (err e) p d = tt
  take_found-Takes panic p d = tt
  take_found-Takes (ok info) p d = ground arith

  pub take_rx_descriptor-Takes :
      (event : RxEventRef) (i : ℕ) (p : DataPath) (d : Device)
      → Then (Takes (packet event i) p) (take_rx_descriptor port RX TX event i (p, d))
  unfolding take_rx_descriptor
  take_rx_descriptor-Takes event i p d = take_found-Takes (packet event i) p d

  -- A call that posts the descriptor again does not return `Ok`.
  repost_fails :
      {A : Type 0} (Q : Link port → A → Type 0) (info : RxPacketInfo) (e : Failure port)
      (p : DataPath) (d : Device)
      → Then Q (repost port RX TX {A = A} info e (p, d))
  repost_fails Q info e p d =
      Then-bind (Posts port RX TX info.descriptor_id 0 p d) Q (λ u. pure (err e))
        (post_rx port RX TX info.descriptor_id 0 (p, d))
        (post_rx-Posts port RX TX info.descriptor_id 0 p d) λ s u posts. tt

  pub ensure_receive_capacity-Same :
      (info : RxPacketInfo) (n : ℕ) (p : DataPath) (d : Device)
      → Then (Same p) (ensure_receive_capacity port RX TX info n (p, d))
  unfolding ensure_receive_capacity
  ensure_receive_capacity-Same info n p d =
      elim (Bool-cases (ltb p.rx_buffer_size info.packet_len)) [
        | inl large ↦ rw large (repost_fails (Same p) info _ p d)
        | inr fits ↦ elim (Bool-cases (ltb n info.packet_len)) [
          | inl small ↦ rw (fits, small) (repost_fails (Same p) info _ p d)
          | inr room ↦ rw (fits, room) refl
        ]
      ]

  read_done-Same :
      (info : RxPacketInfo) (p : DataPath) (r : Device × (port.RpuError ⊎ List ℕ))
      → Then (Same p) (read_done port RX TX info p r)
  read_done-Same info p (d, inl e) = repost_fails (Same p) info _ p d
  read_done-Same info p (d, inr bytes) = refl

  pub read_rx_or_repost-Same :
      (info : RxPacketInfo) (slot : ℕ) (p : DataPath) (d : Device)
      → Then (Same p) (read_rx_or_repost port RX TX info slot (p, d))
  unfolding read_rx_or_repost
  read_rx_or_repost-Same info slot p d = read_done-Same info p _
