-- ===== src/Data/Tokens.antt =====
-- data.rs: the TX tokens of the data path.
pub mod Ledger
pub mod Refine
use Prim.Native.Nat.{ℕ, zero, suc, ◌+◌, ◌%◌}
use embassy_zephyr_n_rf.Base.{
  List, Option, none, some, Bool, true, false, not, leb, if◌then◌else◌, Outcome, ok, err, get_or,
  set, replicate, u8_mod,
}
use embassy_zephyr_n_rf.Data.Types.{DataProtocolError}
use embassy_zephyr_n_rf.Data.Layout.{DataPath}

-- `self.tx_in_flight[index]`, which is in range wherever it is read: the array has `TX` elements.
abbrev pub in_flight : ℕ → DataPath → Bool
in_flight index p = get_or p.tx_in_flight index false

abbrev pub set_in_flight : ℕ → Bool → DataPath → DataPath
set_in_flight index b p = record p { tx_in_flight = set p.tx_in_flight index b }

module _ (RX TX : ℕ) where
  -- The loop of `reserve_tx`, from `offset` on with `n` rounds left.
  unfoldable pub reserve_from : ℕ → ℕ → DataPath → DataPath × Option ℕ
  reserve_from zero offset p = (p, none)
  reserve_from (suc n) offset p =
      let index = (p.next_tx + offset) % TX in
      let rest = reserve_from n (suc offset) p in
      if not (in_flight index p)
      then (
        record (set_in_flight index true p) { next_tx = (index + 1) % TX },
        some (index % u8_mod),
      )
      else rest

  unfoldable pub reserve_tx : DataPath → DataPath × Option ℕ
  unfolding reserve_from
  reserve_tx p = reserve_from TX 0 p

  unfoldable pub complete_tx : ℕ → DataPath → DataPath × Outcome DataProtocolError (Unit {0})
  complete_tx token p =
      if leb TX token
      then (p, err (DataProtocolError.invalid_descriptor token))
      else if not (in_flight token p)
      then (p, err (DataProtocolError.invalid_descriptor token))
      else (set_in_flight token false p, ok tt)

  unfoldable pub reset_after_rpu_reset : DataPath → DataPath
  reset_after_rpu_reset p = record p {
    tx_in_flight = replicate TX false;
    rx_posted = replicate RX false;
    next_tx = 0;
  }
