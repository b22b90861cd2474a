-- ===== src/Data/Receive/Posted/Queue.antt =====
-- data.rs: what a post does to the posted descriptors and to the device.
use Prim.Native.Nat.{ℕ, ◌<◌, ◌+◌, ◌*◌, ◌%◌}
use embassy_zephyr_n_rf.Base.Actions.{continue_with, Then-pure, ◌>>=◌}
use embassy_zephyr_n_rf.Base.{
  u32_mod, u32_bytes, some, ok_or, ap, Option-cases, none, leb, Option, refl, ◌⊎◌, inl, inr, ok,
  inr, inl, err, Bool-cases, Outcome, ◌≡◌, true, false, arith,
}
use embassy_zephyr_n_rf.Base.Actions.{Action, Then}
use embassy_zephyr_n_rf.Protocol.Types.{Hpq}
use embassy_zephyr_n_rf.Data.Port.{DataError, DevicePort}
use embassy_zephyr_n_rf.Data.Layout.{rx_slot_address, DataPath}
use embassy_zephyr_n_rf.Data.Transmit.{Link}
use embassy_zephyr_n_rf.Data.Receive.{
  rx_buffer_headroom, rx_command_slot_size, address_offset, Processor, queue_of, invalid_descriptor,
  set_posted, Failure, posted, rx_queue_context, prepare_rx_descriptor, enqueue_rx,
  available_rx_index, slot_of, post_rx,
}

leb_false→lt : (a b : ℕ) → leb a b ≡ false → b < a
leb_false→lt a b h = ground arith

module _ (port : DevicePort) (RX TX : ℕ) where
  open port use {Device, queues, rx_command_base, rpu_write_u32, rpu_write_indirect, enqueue}

  -- `RPU_MCU_CORE_INDIRECT_BASE` and the offset of the command of descriptor `n`.
  abbrev pub command_address : ℕ → ℕ → ℕ
  command_address base n = (base + rx_command_slot_size * n % u32_mod) % u32_mod

  -- From `d` to `d'` the device takes descriptor `n`: its number is written at its slot, the DMA
  -- pointer of the slot at its command, and the command joins the receive queue of pool `pool`.
  pub record Queued (pool : ℕ) (n : ℕ) (p : DataPath) (d : Device) (d' : Device) : Type 0 where
    pub queue : Hpq
    pub base : ℕ
    pub slot : ℕ
    pub numbered : Device
    pub pointed : Device
    pub context : queue_of port pool n (queues d) (rx_command_base d) ≡ ok (queue, base)
    pub address : rx_slot_address RX TX n p ≡ some slot
    pub number : rpu_write_u32 Processor.lmac slot n d ≡ (numbered, none)
    pub pointer :
        rpu_write_indirect Processor.lmac
          (3221225472 + address_offset (command_address base n))
          (u32_bytes (address_offset ((slot + rx_buffer_headroom) % u32_mod)))
          numbered
        ≡ (pointed, none)
    pub joined : enqueue queue (command_address base n) pointed ≡ (d', none)

  -- The descriptor `n` was free, is posted and is with the device.
  abbrev pub Posts : ℕ → ℕ → DataPath → Device → Link port → Unit {0} → Type 0
  Posts n pool p d (p', d') u =
      (n < RX) × (posted n p ≡ false) × (p' ≡ set_posted n true p) × Queued pool n p d d'

  succeeded : {A : Type 0} (r : Device × Option A) → r.1 ≡ none → r ≡ (r.0, none)
  succeeded r e = ap (λ o. (r.0, o)) e

  -- The two writes of a post, in order.
  abbrev write_number : ℕ → ℕ → Device → Device × Option port.RpuError
  write_number slot n d = rpu_write_u32 Processor.lmac slot n d

  abbrev write_pointer : ℕ → ℕ → ℕ → Device → Device × Option port.RpuError
  write_pointer slot base n d =
      rpu_write_indirect Processor.lmac (3221225472 + address_offset (command_address base n))
        (u32_bytes (address_offset ((slot + rx_buffer_headroom) % u32_mod))) d

  Prepared : ℕ → ℕ → ℕ → DataPath → Device → Link port × Outcome (Failure port) ℕ → Type 0
  Prepared slot base n p d r =
      (let d1 = (write_number slot n d).0 in
        let d2 = (write_pointer slot base n d1).0 in
        ((write_number slot n d).1 ≡ none)
        × ((write_pointer slot base n d1).1 ≡ none)
        × (r ≡ ((p, d2), ok (command_address base n))))
      ⊎ ((q : Link port) × (e : Failure port) × (r ≡ (q, err e)))

  prepare_rx_descriptor-Prepared :
      (slot base n : ℕ) (p : DataPath) (d : Device)
      → Prepared slot base n p d (prepare_rx_descriptor port slot base n (p, d))
  unfolding prepare_rx_descriptor Prepared
  prepare_rx_descriptor-Prepared slot base n p d = elim (Option-cases (write_number slot n d).1) [
    | inr (e, failed) ↦
        inr ((p, (write_number slot n d).0), DataError.rpu e, ground (arith, failed))
    | inl done ↦ elim (Option-cases (write_pointer slot base n (write_number slot n d).0).1) [
      | inr (e, failed) ↦ inr (
        (p, (write_pointer slot base n (write_number slot n d).0).0),
        DataError.rpu e,
        ground (arith, done, failed),
      )
      | inl written ↦ inl (done, written, ground (arith, done, written))
    ]
  ]

  prepare-Then :
      (R : Link port → Unit {0} → Type 0) (k : ℕ → Action (Link port) (Failure port) (Unit {0}))
      (slot base n : ℕ) (p : DataPath) (d : Device)
      → ((d1 d2 : Device)
          → write_number slot n d ≡ (d1, none)
          → write_pointer slot base n d1 ≡ (d2, none)
          → Then R (k (command_address base n) (p, d2)))
      → Then R (continue_with k (prepare_rx_descriptor port slot base n (p, d)))
  unfolding Prepared
  prepare-Then R k slot base n p d f = elim (prepare_rx_descriptor-Prepared slot base n p d) [
    | inl (done, written, e) ↦ rw e (
        f _ _ (succeeded (write_number slot n d) done)
          (succeeded (write_pointer slot base n (write_number slot n d).0) written))
    | inr (q, x, e) ↦ rw e tt
  ]

  enqueue_rx-Joined :
      (i : ℕ) (queue : Hpq) (address : ℕ) (p : DataPath) (d : Device)
      → let (d', failed) = enqueue queue address d in
        ((failed ≡ none)
          × (enqueue_rx port i queue address (p, d) ≡ ((set_posted i true p, d'), ok tt)))
        ⊎ ((e : Failure port) × (enqueue_rx port i queue address (p, d)
              ≡ ((set_posted i true p, d'), err e)))
  unfolding enqueue_rx
  enqueue_rx-Joined i queue address p d = elim (Option-cases (enqueue queue address d).1) [
    | inr (e, failed) ↦ inr (DataError.queue_ownership_uncertain e, ground (arith, failed))
    | inl joined ↦ inl (joined, ground (arith, joined))
  ]

  enqueue_rx-Then :
      (R : Link port → Unit {0} → Type 0) (i : ℕ) (queue : Hpq) (address : ℕ) (p : DataPath)
      (d : Device)
      → ((d' : Device) → enqueue queue address d ≡ (d', none) → R (set_posted i true p, d') tt)
      → Then R (enqueue_rx port i queue address (p, d))
  enqueue_rx-Then R i queue address p d f = elim (enqueue_rx-Joined i queue address p d) [
    | inr (e, failed) ↦ rw failed tt
    | inl (joined, e) ↦ rw e (f _ (succeeded (enqueue queue address d) joined))
  ]

  ok_or-some : {E A : Type 0} (o : Option A) (e : E) (a : A) → ok_or o e ≡ ok a → o ≡ some a
  ok_or-some none e a h = ground arith
  ok_or-some (some b) e a h = ground arith

  -- A successful post makes a free descriptor of the configured range a posted one, which the device
  -- has in its queue.
  pub post_rx-Posts :
      (n pool : ℕ) (p : DataPath) (d : Device)
      → Then (Posts n pool p d) (post_rx port RX TX n pool (p, d))
  unfolding post_rx available_rx_index rx_queue_context slot_of
  post_rx-Posts n pool p d =
      let push : ℕ → Hpq → ℕ → Action (Link port) (Failure port) (Unit {0}) = enqueue_rx port in
      let prepare : ℕ → Hpq × ℕ → ℕ → Action (Link port) (Failure port) (Unit {0}) =
        λ i (queue, base) slot. prepare_rx_descriptor port slot base n >>= push i queue in
      let find : ℕ → Hpq × ℕ → Action (Link port) (Failure port) (Unit {0}) =
        λ i context. slot_of port RX TX i n >>= prepare i context in
      elim (Bool-cases (leb RX n)) [
        | inl beyond ↦ rw beyond tt
        | inr within ↦ elim (Bool-cases (posted n p)) [
          | inl busy ↦ rw (within, busy) tt
          | inr free ↦
              rw (within, free)
                (Then-pure (Posts n pool p d) (find n) (p, d)
                  (queue_of port pool n (queues d) (rx_command_base d))
                  λ (queue, base) context.
                    Then-pure (Posts n pool p d) (prepare n (queue, base)) (p, d)
                      (ok_or (rx_slot_address RX TX n p) (invalid_descriptor port n))
                      λ slot address.
                        prepare-Then (Posts n pool p d) (push n queue) slot base n p d
                          λ numbered pointed number pointer.
                            enqueue_rx-Then (Posts n pool p d) n queue (command_address base n) p
                              pointed
                              λ d' joined. (
                                leb_false→lt RX n within,
                                free,
                                refl,
                                record {
                                  queue = queue;
                                  base = base;
                                  slot = slot;
                                  numbered = numbered;
                                  pointed = pointed;
                                  context = context;
                                  address = ok_or-some _ _ slot address;
                                  number = number;
                                  pointer = pointer;
                                  joined = joined;
                                },
                              ))
        ]
      ]
