-- ===== src/Data/Transmit/Ownership.antt =====
-- data.rs: who owns the token after a transmission.
use Prim.Native.Nat.{ℕ, ◌+◌, ◌%◌, ◌≤◌, ◌<◌}
use embassy_zephyr_n_rf.Base.{
  length-drop, length-take, length-append, ◌≡◌, refl, sym, ap, subst, List, Option, none, some,
  true, false, Outcome, ok, err, panic, arith, length, set, set-set_self, slice_lem, index_lem,
}
use embassy_zephyr_n_rf.Data.Types.{DataProtocolError}
use embassy_zephyr_n_rf.Data.Port.{DevicePort, DataError}
use embassy_zephyr_n_rf.Data.Layout.{DataPath, tx_slot_address}
use embassy_zephyr_n_rf.Data.Tokens.{in_flight, set_in_flight, reserve_tx}
use embassy_zephyr_n_rf.Data.Tokens.Ledger.{Tokens, Handed, reserve_tx-Handed}
use embassy_zephyr_n_rf.Data.Command.{encode_tx_command, validate_transmit_frame}
use embassy_zephyr_n_rf.Data.Transmit.{
  when_queued, Hpq, when_valid, Link, Failure, write_packet, with_token, fill_slot, or_release,
  prepare_transmit, submit_transmit, transmit_queue_context, deliver, deliver_transmit_command,
  address_offset,
}

abbrev IsValid : List ℕ → Outcome DataProtocolError (Unit {0}) → Type 0
IsValid frame (ok _) = 14 ≤ length frame
IsValid frame (err e) = Unit {0}
IsValid frame panic = ⊥

validate_transmit_frame-IsValid :
    (frame : List ℕ) (capacity : ℕ) → IsValid frame (validate_transmit_frame frame capacity)
unfolding validate_transmit_frame
validate_transmit_frame-IsValid frame capacity = ground arith

-- The command of a frame with an Ethernet header is 59 bytes long.
pub encode_tx_command_lem :
    {E : Type 0} (w t : ℕ) (frame : List ℕ) (dscp dma : ℕ)
    → 14 ≤ length frame
    → (bytes : List ℕ) × (encode_tx_command {E = E} w t frame dscp dma ≡ ok bytes)
      × (length bytes ≡ 59)
unfolding encode_tx_command
encode_tx_command_lem {E = E} w t frame dscp dma h =
    rw
      (
        slice_lem {E = E} frame 0 6 (omega arith) (omega arith),
        slice_lem {E = E} frame 6 12 (omega arith) (omega arith),
        index_lem {E = E} frame 12 0 (omega arith),
        index_lem {E = E} frame 13 0 (omega arith),
      )
      (_, refl, simp (length-append, length-take, length-drop) (omega arith))

module _ (port : DevicePort) where
  open port use {Device, DeviceError, RpuError}

  -- The failures after which the firmware cannot own the token.
  abbrev pub Harmless : Failure port → Type 0
  Harmless (DataError.device e) = ⊥
  Harmless (DataError.queue_ownership_uncertain e) = ⊥
  Harmless _ = Unit {0}

  abbrev Written : Device × Outcome (Failure port) (Unit {0}) → Type 0
  Written (d, ok _) = Unit {0}
  Written (d, err e) = Harmless e
  Written (d, panic) = ⊥

  write_packet-Written :
      (address : ℕ) (frame : List ℕ) (d : Device) → Written (write_packet port address frame d)
  unfolding write_packet
  write_packet-Written address frame d = ground arith

  -- `t` was free before and is in flight after.
  abbrev pub Taken : ℕ → ℕ → DataPath → DataPath → Type 0
  Taken TX t p p' =
      (t < TX) × (in_flight t p ≡ false) × (p'.tx_in_flight ≡ set p.tx_in_flight t true)

  abbrev pub Prepared : ℕ → DataPath → Link port × Outcome (Failure port) (ℕ × ℕ) → Type 0
  Prepared TX p ((p', d), ok (t, a)) = Taken TX t p p'
  Prepared TX p ((p', d), err e) = Harmless e × (p'.tx_in_flight ≡ p.tx_in_flight)
  Prepared TX p ((p', d), panic) = ⊥

  module _ (RX TX : ℕ) where
    release :
        (t a n : ℕ) (p : DataPath) (r : Device × Outcome (Failure port) (Unit {0}))
        → Tokens TX p
        → t < TX
        → in_flight t p ≡ false
        → Written r
        → Prepared TX p
            (or_release port t (t, a) (record (set_in_flight t true p) { next_tx = n }) r)
    release t a n p (d, ok _) v l free w = (l, free, refl)
    release t a n p (d, err e) v l free w =
        (w, set-set_self p.tx_in_flight t true false false (omega (arith, l, v.flags)) free)
    release t a n p (d, panic) v l free w = absurd w

    fill_slot-Prepared :
        (frame : List ℕ) (t n : ℕ) (o : Option ℕ) (p : DataPath) (d : Device)
        → Tokens TX p
        → t < TX
        → in_flight t p ≡ false
        → o ≡ tx_slot_address RX TX t (record (set_in_flight t true p) { next_tx = n })
        → Prepared TX p
            (fill_slot port RX TX frame t o (record (set_in_flight t true p) { next_tx = n }) d)
    unfolding tx_slot_address
    fill_slot-Prepared frame t n none p d v l free e = absurd (ground arith)
    fill_slot-Prepared frame t n (some a) p d v l free e =
        release t a n p (write_packet port a frame d) v l free (write_packet-Written a frame d)

    with_token-Prepared :
        (frame : List ℕ) (p : DataPath) (d : Device) (r : DataPath × Option ℕ)
        → Tokens TX p
        → Handed TX TX 0 p r
        → Prepared TX p (with_token port RX TX frame d r)
    with_token-Prepared frame p d (q, none) v h = (tt, ap (λ x. x.tx_in_flight) h.0)
    with_token-Prepared frame p d (q, some t) v (l, free, e) =
        subst (λ x. Prepared TX p (with_token port RX TX frame d (x, some t))) (sym e)
          (fill_slot-Prepared frame t ((t + 1) % TX) _ p d v l free refl)

    when_valid-Prepared :
        (frame : List ℕ) (p : DataPath) (d : Device) (r : Outcome DataProtocolError (Unit {0}))
        → Tokens TX p
        → IsValid frame r
        → Prepared TX p (when_valid port RX TX r frame (p, d))
    when_valid-Prepared frame p d (err e) v h = (tt, refl)
    when_valid-Prepared frame p d panic v h = absurd h
    when_valid-Prepared frame p d (ok _) v h =
        with_token-Prepared frame p d (reserve_tx RX TX p) v (reserve_tx-Handed RX TX p v)

    pub prepare_transmit-Prepared :
        (frame : List ℕ) (p : DataPath) (d : Device)
        → Tokens TX p
        → Prepared TX p (prepare_transmit port RX TX frame (p, d))
    unfolding prepare_transmit
    prepare_transmit-Prepared frame p d v =
        when_valid-Prepared frame p d (validate_transmit_frame frame p.tx_buffer_size) v
          (validate_transmit_frame-IsValid frame p.tx_buffer_size)

    -- The token `t` of the state `p` is released only after a failed write of the command.
    abbrev pub Submitted : ℕ → DataPath → Link port × Outcome (Failure port) (Unit {0}) → Type 0
    Submitted t p ((p', d), ok _) = p' ≡ p
    Submitted t p ((p', d), err (DataError.device e)) = p' ≡ p
    Submitted t p ((p', d), err (DataError.queue_ownership_uncertain e)) = p' ≡ p
    Submitted t p ((p', d), err _) = p' ≡ set_in_flight t false p
    Submitted t p ((p', d), panic) = ⊥

    deliver-Submitted :
        (t address : ℕ) (queue : Hpq) (command : List ℕ) (p : DataPath) (d : Device)
        → Submitted t p (deliver port RX TX t address queue command p d)
    unfolding deliver_transmit_command
    deliver-Submitted t address queue command p d = ground arith

    abbrev FromDevice : Outcome (Failure port) (ℕ × Hpq) → Type 0
    FromDevice (ok _) = Unit {0}
    FromDevice (err (DataError.device _)) = Unit {0}
    FromDevice _ = ⊥

    transmit_queue_context-FromDevice : (d : Device) → FromDevice (transmit_queue_context port d)
    unfolding transmit_queue_context
    transmit_queue_context-FromDevice d = ground arith

    when_queued-Submitted :
        (t a w dscp : ℕ) (frame : List ℕ) (p : DataPath) (d : Device)
        (o : Outcome (Failure port) (ℕ × Hpq))
        → 14 ≤ length frame
        → FromDevice o
        → Submitted t p (when_queued port RX TX t a w frame dscp o (p, d))
    when_queued-Submitted t a w dscp frame p d (ok (base, queue)) h f =
        let (bytes, e, _) =
          encode_tx_command_lem {E = Failure port} w t frame dscp (address_offset a) h in
        rw e (deliver-Submitted t _ queue bytes p d)
    when_queued-Submitted t a w dscp frame p d (err (DataError.device _)) h f = refl
    when_queued-Submitted t a w dscp frame p d (err (DataError.rpu _)) h f = absurd f
    when_queued-Submitted t a w dscp frame p d (err (DataError.protocol _)) h f = absurd f
    when_queued-Submitted t a w dscp frame p d (err (DataError.queue_ownership_uncertain _)) h f =
        absurd f
    when_queued-Submitted t a w dscp frame p d (err DataError.no_transmit_token) h f = absurd f
    when_queued-Submitted t a w dscp frame p d (err (DataError.receive_descriptor_busy _)) h f =
        absurd f
    when_queued-Submitted t a w dscp frame p d (err (DataError.output_too_small _ _)) h f = absurd f
    when_queued-Submitted t a w dscp frame p d panic h f = absurd f

    pub submit_transmit-Submitted :
        (t a w dscp : ℕ) (frame : List ℕ) (p : DataPath) (d : Device)
        → 14 ≤ length frame
        → Submitted t p (submit_transmit port RX TX t a w frame dscp (p, d))
    unfolding submit_transmit
    submit_transmit-Submitted t a w dscp frame p d h =
        when_queued-Submitted t a w dscp frame p d (transmit_queue_context port d) h
          (transmit_queue_context-FromDevice d)
