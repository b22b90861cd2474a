-- ===== src/Data/Receive/Posted.antt =====
-- data.rs: the posted descriptors before and after a reception.
pub mod Queue
pub mod Steps
use Prim.Native.Nat.{ℕ, ◌<◌}
use embassy_zephyr_n_rf.Base.Actions.{◌>>=◌, pure}
use embassy_zephyr_n_rf.Base.{
  Bool, refl, ◌⊎◌, inl, inr, panic, set-set_self, ap, List, length, ok, inr, inl, err, ltb,
  Bool-cases, Outcome, ◌≡◌, sym, ◌∙◌, subst, true, false, arith, set,
}
use embassy_zephyr_n_rf.Base.Actions.{pure, Action, Then, Then-bind, Then-pure, Then-ok}
use embassy_zephyr_n_rf.Protocol.Types.{Hpq}
use embassy_zephyr_n_rf.Data.Port.{DevicePort}
use embassy_zephyr_n_rf.Data.Layout.{DataPath, rx_slot_address}
use embassy_zephyr_n_rf.Data.Transmit.{Link}
use embassy_zephyr_n_rf.Data.Receive.{
  read_done, convert_to_ethernet, converted, received_frame, ReceivedFrame, receive_packet,
  take_found, repost, set_posted, packet, RxEventRef, Failure, DataProtocolError,
  take_rx_descriptor, read_rx_or_repost, ensure_receive_capacity, RxPacketInfo, posted,
  rx_queue_context, prepare_rx_descriptor, enqueue_rx, available_rx_index, slot_of, post_rx,
}
use embassy_zephyr_n_rf.Data.Receive.Posted.Queue.{Queued, Posts, post_rx-Posts}
use embassy_zephyr_n_rf.Data.Receive.Posted.Steps.{
  Same, Takes, slot_of-Same, take_rx_descriptor-Takes, ensure_receive_capacity-Same,
  read_rx_or_repost-Same,
}

module _ (port : DevicePort) (RX TX : ℕ) where
  open port use {Device}

  -- The data path is the same as before, and the device has taken the descriptor again: up to now,
  -- from a state `d0` on.
  abbrev Reposted : ℕ → DataPath → Link port → Unit {0} → Type 0
  Reposted n p (p', d') u = (p' ≡ p) × (d0 : Device) × Queued port RX TX 0 n p d0 d'

  -- The frame came with the descriptor of the packet `i` of the event, which was posted: the data
  -- path is the same as before, and the device has taken the descriptor again.
  abbrev pub Restored : RxEventRef → ℕ → DataPath → Link port → List ℕ × ReceivedFrame → Type 0
  Restored event i p (p', d') (buffer, frame) =
      (info : RxPacketInfo) × (packet event i ≡ ok info)
      × (frame.descriptor_id ≡ info.descriptor_id)
      × (posted info.descriptor_id p ≡ true)
      × (p' ≡ p)
      × (d0 : Device) × Queued port RX TX 0 info.descriptor_id p d0 d'

  rx_slot_address-set_posted :
      (n i : ℕ) (b : Bool) (p : DataPath)
      → rx_slot_address RX TX n (set_posted i b p) ≡ rx_slot_address RX TX n p
  unfolding rx_slot_address
  rx_slot_address-set_posted n i b p = refl

  set_posted_back :
      (i : ℕ) (p q : DataPath)
      → i < length p.rx_posted
      → posted i p ≡ true
      → q ≡ set_posted i false p
      → set_posted i true q ≡ p
  set_posted_back i p q l was e =
      ap (set_posted i true) e
      ∙ ap (λ xs. record p { rx_posted = xs }) (set-set_self p.rx_posted i false true false l was)

  Queued-same :
      (n i : ℕ) (b : Bool) (p q : DataPath) (d d' : Device)
      → q ≡ set_posted i b p
      → Queued port RX TX 0 n q d d'
      → Queued port RX TX 0 n p d d'
  Queued-same n i b p q d d' e v = record {
    queue = v.queue;
    base = v.base;
    slot = v.slot;
    numbered = v.numbered;
    pointed = v.pointed;
    context = v.context;
    address = sym (ap (rx_slot_address RX TX n) e ∙ rx_slot_address-set_posted n i b p) ∙ v.address;
    number = v.number;
    pointer = v.pointer;
    joined = v.joined;
  }

  reposted :
      (found : Outcome DataProtocolError RxPacketInfo) (info : RxPacketInfo) (p q : DataPath)
      (d : Device)
      → length p.rx_posted ≡ RX
      → Takes port RX TX found p (q, d) info
      → Then (Reposted info.descriptor_id p) (post_rx port RX TX info.descriptor_id 0 (q, d))
  reposted found info p q d size (named, l, was, e) =
      widen (post_rx port RX TX info.descriptor_id 0 (q, d))
        (post_rx-Posts port RX TX info.descriptor_id 0 q d)
    where
      widen :
          (r : Link port × Outcome (Failure port) (Unit {0}))
          → Then (Posts port RX TX info.descriptor_id 0 q d) r
          → Then (Reposted info.descriptor_id p) r
      widen ((p', d'), ok u) (_, _, back, v) = (
        back ∙ set_posted_back info.descriptor_id p q (omega (arith, l, size)) was e,
        d,
        Queued-same info.descriptor_id info.descriptor_id false p q d d' e v,
      )
      widen ((p', d'), err x) h = tt
      widen ((p', d'), panic) h = tt

  abbrev Received : Type 0
  Received = List ℕ × ReceivedFrame

  Takes-same :
      (found : Outcome DataProtocolError RxPacketInfo) (p q q' : DataPath) (d d' : Device)
      (info : RxPacketInfo)
      → q' ≡ q
      → Takes port RX TX found p (q, d) info
      → Takes port RX TX found p (q', d') info
  Takes-same found p q q' d d' info e (named, l, was, taken) = (named, l, was, e ∙ taken)

  abbrev IsOf : RxPacketInfo → Link port → Received → Type 0
  IsOf info s (buffer, frame) = frame.descriptor_id ≡ info.descriptor_id

  received_frame-IsOf :
      (conversion : Outcome DataProtocolError (List ℕ × ℕ)) (output : List ℕ) (info : RxPacketInfo)
      (event : RxEventRef) (s : Link port)
      → Then
          (IsOf info)
          (pure {S = Link port} (received_frame port RX TX conversion output info event) s)
  unfolding received_frame
  received_frame-IsOf panic output info event s = tt
  received_frame-IsOf (err e) output info event s = tt
  received_frame-IsOf (ok (frame, n)) output info event s = ground arith

  -- The last steps of a reception, from the conversion on.
  abbrev finish :
      RxEventRef
      → List ℕ
      → RxPacketInfo
      → Outcome DataProtocolError (List ℕ × ℕ)
      → Unit {0}
      → Action (Link port) (Failure port) Received
  finish event output info conversion u =
      pure (received_frame port RX TX conversion output info event)

  abbrev post_again :
      RxEventRef
      → List ℕ
      → RxPacketInfo
      → Outcome DataProtocolError (List ℕ × ℕ)
      → Action (Link port) (Failure port) Received
  post_again event output info conversion =
      post_rx port RX TX info.descriptor_id 0 >>= finish event output info conversion

  abbrev convert :
      RxEventRef → List ℕ → RxPacketInfo → List ℕ → Action (Link port) (Failure port) Received
  convert event output info bytes =
      pure (converted port RX TX (convert_to_ethernet bytes info.payload_type event.mac_header_len))
      >>= post_again event output info

  finish-Restored :
      (event : RxEventRef) (i : ℕ) (output : List ℕ) (info : RxPacketInfo)
      (conversion : Outcome DataProtocolError (List ℕ × ℕ)) (p q : DataPath) (d : Device)
      → packet event i ≡ ok info
      → posted info.descriptor_id p ≡ true
      → Reposted info.descriptor_id p (q, d) tt
      → Then (Restored event i p) (finish event output info conversion tt (q, d))
  finish-Restored event i output info conversion p q d named was (same, d0, queued) =
      Then-ok (Restored event i p) (q, d) (received_frame port RX TX conversion output info event)
        λ (buffer, frame) e. (info, named, is_of frame buffer e, was, same, d0, queued)
    where
      is_of :
          (frame : ReceivedFrame) (buffer : List ℕ)
          → received_frame port RX TX conversion output info event ≡ ok (buffer, frame)
          → frame.descriptor_id ≡ info.descriptor_id
      is_of frame buffer e =
          subst (λ r. Then (IsOf info) ((q, d), r)) e
            (received_frame-IsOf conversion output info event (q, d))

  post_again-Restored :
      (event : RxEventRef) (i : ℕ) (output : List ℕ) (info : RxPacketInfo)
      (conversion : Outcome DataProtocolError (List ℕ × ℕ)) (p q : DataPath) (d : Device)
      → length p.rx_posted ≡ RX
      → Takes port RX TX (packet event i) p (q, d) info
      → Then (Restored event i p) (post_again event output info conversion (q, d))
  post_again-Restored event i output info conversion p q d size taken =
      Then-bind (Reposted info.descriptor_id p) (Restored event i p)
        (finish event output info conversion) (post_rx port RX TX info.descriptor_id 0 (q, d))
        (reposted (packet event i) info p q d size taken)
        λ (q', d') u back.
          finish-Restored event i output info conversion p q' d' taken.0 taken.2 back

  convert-Restored :
      (event : RxEventRef) (i : ℕ) (output : List ℕ) (info : RxPacketInfo) (bytes : List ℕ)
      (p q : DataPath) (d : Device)
      → length p.rx_posted ≡ RX
      → Takes port RX TX (packet event i) p (q, d) info
      → Then (Restored event i p) (convert event output info bytes (q, d))
  convert-Restored event i output info bytes p q d size taken =
      Then-pure (Restored event i p) (post_again event output info) (q, d)
        (converted port RX TX (convert_to_ethernet bytes info.payload_type event.mac_header_len))
        λ conversion e. post_again-Restored event i output info conversion p q d size taken

  -- With a posted flag for each descriptor, after a packet is received with success: its descriptor,
  -- the one that the event names for the packet, was posted, the data path is the same as before, with
  -- that descriptor posted again, and the device has taken it again: with a receive queue, a command
  -- address and a slot, the number of the descriptor was written at the slot, the DMA pointer of the
  -- slot at the command, and the command has joined the receive queue as the last act of the device.
  pub receive_packet-Restored :
      (event : RxEventRef) (i : ℕ) (output : List ℕ) (p : DataPath) (d : Device)
      → length p.rx_posted ≡ RX
      → Then (Restored event i p) (receive_packet port RX TX event i output (p, d))
  unfolding receive_packet
  receive_packet-Restored event i output p d size =
      let read : RxPacketInfo → ℕ → Action (Link port) (Failure port) Received =
        λ info slot. read_rx_or_repost port RX TX info slot >>= convert event output info in
      let find : RxPacketInfo → Unit {0} → Action (Link port) (Failure port) Received =
        λ info u. slot_of port RX TX info.descriptor_id info.descriptor_id >>= read info in
      let check : RxPacketInfo → Action (Link port) (Failure port) Received =
        λ info. ensure_receive_capacity port RX TX info (length output) >>= find info in
      Then-bind (Takes port RX TX (packet event i) p) (Restored event i p) check
        (take_rx_descriptor port RX TX event i (p, d))
        (take_rx_descriptor-Takes port RX TX event i p d)
        λ (p1, d1) info taken.
          Then-bind (Same port RX TX p1) (Restored event i p) (find info)
            (ensure_receive_capacity port RX TX info (length output) (p1, d1))
            (ensure_receive_capacity-Same port RX TX info (length output) p1 d1)
            λ (p2, d2) u e2.
              Then-bind (Same port RX TX p2) (Restored event i p) (read info)
                (slot_of port RX TX info.descriptor_id info.descriptor_id (p2, d2))
                (slot_of-Same port RX TX info.descriptor_id info.descriptor_id p2 d2)
                λ (p3, d3) slot e3.
                  Then-bind (Same port RX TX p3) (Restored event i p) (convert event output info)
                    (read_rx_or_repost port RX TX info slot (p3, d3))
                    (read_rx_or_repost-Same port RX TX info slot p3 d3)
                    λ (p4, d4) bytes e4.
                      convert-Restored event i output info bytes p p4 d4 size
                        (Takes-same (packet event i) p p1 p4 d1 d4 info (e4 ∙ e3 ∙ e2) taken)
