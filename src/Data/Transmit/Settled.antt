-- ===== src/Data/Transmit/Settled.antt =====
-- data.rs: the outcome of `transmit` says what became of its token.
use Prim.Native.Nat.{ℕ, ◌≤◌, ◌<◌}
use embassy_zephyr_n_rf.Base.{
  refl, ◌≡◌, sym, ap, subst, List, Outcome, ok, err, panic, true, false, arith, length, set, dec_lt,
  set-set_self, ◌∙◌,
}
use embassy_zephyr_n_rf.Base.Actions.{continue_with, ◌>>◌, pure}
use embassy_zephyr_n_rf.Data.Types.{DataProtocolError}
use embassy_zephyr_n_rf.Data.Port.{DevicePort, DataError}
use embassy_zephyr_n_rf.Data.Layout.{DataPath}
use embassy_zephyr_n_rf.Data.Tokens.{set_in_flight}
use embassy_zephyr_n_rf.Data.Tokens.Ledger.{Tokens}
use embassy_zephyr_n_rf.Data.Command.{validate_transmit_frame}
use embassy_zephyr_n_rf.Data.Transmit.{Link, Failure, prepare_transmit, submit_transmit, transmit}
use embassy_zephyr_n_rf.Data.Transmit.Ownership.{
  Harmless, Taken, Prepared, Submitted, prepare_transmit-Prepared, submit_transmit-Submitted,
}

module _ (port : DevicePort) (RX TX : ℕ) where
  open port use {Device}

  -- What the outcome says of the tokens: the returned one is taken; a queue write that may have
  -- reached the firmware keeps one taken, and so does a device without its queues; any other
  -- failure leaves the tokens as they were.
  abbrev pub Settled : DataPath → Link port × Outcome (Failure port) ℕ → Type 0
  Settled p ((p', d), ok t) = Taken port TX t p p'
  Settled p ((p', d), err (DataError.queue_ownership_uncertain e)) = (t : ℕ) × Taken port TX t p p'
  Settled p ((p', d), err (DataError.device e)) = (t : ℕ) × Taken port TX t p p'
  Settled p ((p', d), err _) = p'.tx_in_flight ≡ p.tx_in_flight
  Settled p ((p', d), panic) = ⊥

  harmless :
      (p p' : DataPath) (d : Device) (e : Failure port)
      → Harmless port e
      → p'.tx_in_flight ≡ p.tx_in_flight
      → Settled p ((p', d), err e)
  harmless p p' d (DataError.device e) h same = absurd h
  harmless p p' d (DataError.queue_ownership_uncertain e) h same = absurd h
  harmless p p' d (DataError.rpu e) h same = same
  harmless p p' d (DataError.protocol e) h same = same
  harmless p p' d DataError.no_transmit_token h same = same
  harmless p p' d (DataError.receive_descriptor_busy n) h same = same
  harmless p p' d (DataError.output_too_small n m) h same = same

  kept : (t : ℕ) (p q p' : DataPath) → Taken port TX t p q → p' ≡ q → Taken port TX t p p'
  kept t p q p' taken e = subst (Taken port TX t p) (sym e) taken

  undone :
      (t : ℕ) (p q p' : DataPath)
      → Tokens TX p
      → Taken port TX t p q
      → p' ≡ set_in_flight t false q
      → p'.tx_in_flight ≡ p.tx_in_flight
  undone t p q p' v (l, free, e) back =
      ap (λ x. x.tx_in_flight) back
      ∙ ap (λ x. set x t false) e
      ∙ set-set_self p.tx_in_flight t true false false (omega (arith, l, v.flags)) free

  returned :
      (t : ℕ) (p q : DataPath) (r : Link port × Outcome (Failure port) (Unit {0}))
      → Tokens TX p
      → Taken port TX t p q
      → Submitted port RX TX t q r
      → Settled p (continue_with (λ _. pure (ok t)) r)
  returned t p q ((p', d), ok _) v taken s = kept t p q p' taken s
  returned t p q ((p', d), err (DataError.device _)) v taken s = (t, kept t p q p' taken s)
  returned t p q ((p', d), err (DataError.queue_ownership_uncertain _)) v taken s =
      (t, kept t p q p' taken s)
  returned t p q ((p', d), err (DataError.rpu _)) v taken s = undone t p q p' v taken s
  returned t p q ((p', d), err (DataError.protocol _)) v taken s = undone t p q p' v taken s
  returned t p q ((p', d), err DataError.no_transmit_token) v taken s = undone t p q p' v taken s
  returned t p q ((p', d), err (DataError.receive_descriptor_busy _)) v taken s =
      undone t p q p' v taken s
  returned t p q ((p', d), err (DataError.output_too_small _ _)) v taken s =
      undone t p q p' v taken s
  returned t p q ((p', d), panic) v taken s = absurd s

  submitted :
      (wdev_id dscp : ℕ) (frame : List ℕ) (p : DataPath)
      (r : Link port × Outcome (Failure port) (ℕ × ℕ))
      → Tokens TX p
      → 14 ≤ length frame
      → Prepared port TX p r
      → Settled p (
          continue_with
            (λ (t, a). submit_transmit port RX TX t a wdev_id frame dscp >> pure (ok t))
            r)
  submitted w dscp frame p ((q, d), ok (t, a)) v long taken =
      returned t p q (submit_transmit port RX TX t a w frame dscp (q, d)) v taken
        (submit_transmit-Submitted port RX TX t a w dscp frame q d long)
  submitted w dscp frame p ((q, d), err e) v long (h, same) = harmless p q d e h same
  submitted w dscp frame p ((q, d), panic) v long h = absurd h

  too_short :
      (frame : List ℕ) (p : DataPath) (d : Device)
      → length frame < 14
      → prepare_transmit port RX TX frame (p, d)
        ≡ ((p, d), err (DataError.protocol DataProtocolError.frame_too_short))
  unfolding prepare_transmit validate_transmit_frame
  too_short frame p d h = ground arith

  -- From a sound state `transmit` does not panic whatever the device answers, and its outcome says
  -- what became of the tokens: the token that it returns was free and is now in flight; so is one
  -- after a queue write that may have reached the firmware, and after the error of a device whose
  -- queues are not initialized; after every other error the tokens in flight are the same as before.
  pub transmit-Settled :
      (wdev_id dscp_tos : ℕ) (frame : List ℕ) (p : DataPath) (d : Device)
      → Tokens TX p
      → Settled p (transmit port RX TX wdev_id frame dscp_tos (p, d))
  unfolding transmit
  transmit-Settled w dscp frame p d v = elim (dec_lt (length frame) 14) [
    | yes short ↦ rw (too_short frame p d short) refl
    | no long ↦
        submitted w dscp frame p (prepare_transmit port RX TX frame (p, d)) v (omega arith)
          (prepare_transmit-Prepared port RX TX frame p d v)
  ]
