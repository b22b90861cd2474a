-- ===== src/Station/Invariant/Commands/Direct.antt =====
-- station.rs: the commands that send one message, and the invariant.
use Prim.Native.Nat.{ℕ}
use embassy_zephyr_n_rf.Base.{List, Bool, arith}
use embassy_zephyr_n_rf.Control.Types.{KeyConfig, PowerSaveState, AuthenticationRequest}
use embassy_zephyr_n_rf.Station.Port.{CommandPort}
use embassy_zephyr_n_rf.Protocol.Types.{ScanReason, ScanRequest}
use embassy_zephyr_n_rf.Station.Commands.{
  Link, create_interface, set_regulatory, bring_up, bring_down, start_scan, request_scan_results,
  authenticate, set_key, authorize, set_power_save, set_power_save_timeout,
}
use embassy_zephyr_n_rf.Station.Invariant.{Inv}

module _ (port : CommandPort) where
  pub create_interface-Inv :
      (mac name : List ℕ) (link : Link port)
      → Inv link.0
      → Inv (create_interface port mac name link).0.0
  unfolding create_interface
  create_interface-Inv mac name (c, d) v = ground arith

  pub set_regulatory-Inv :
      (country : List ℕ) (hint : ℕ) (force : Bool) (link : Link port)
      → Inv link.0
      → Inv (set_regulatory port country hint force link).0.0
  unfolding set_regulatory
  set_regulatory-Inv country hint force (c, d) v = ground arith

  pub bring_up-Inv : (link : Link port) → Inv link.0 → Inv (bring_up port link).0.0
  unfolding bring_up
  bring_up-Inv (c, d) v = ground arith

  pub bring_down-Inv : (link : Link port) → Inv link.0 → Inv (bring_down port link).0.0
  unfolding bring_down
  bring_down-Inv (c, d) v = ground arith

  pub start_scan-Inv :
      (request : ScanRequest) (link : Link port)
      → Inv link.0
      → Inv (start_scan port request link).0.0
  unfolding start_scan
  start_scan-Inv request (c, d) v = ground arith

  pub request_scan_results-Inv :
      (reason : ScanReason) (link : Link port)
      → Inv link.0
      → Inv (request_scan_results port reason link).0.0
  unfolding request_scan_results
  request_scan_results-Inv reason (c, d) v = ground arith

  pub authenticate-Inv :
      (request : AuthenticationRequest) (link : Link port)
      → Inv link.0
      → Inv (authenticate port request link).0.0
  unfolding authenticate
  authenticate-Inv request (c, d) v = ground arith

  pub set_key-Inv :
      (key : KeyConfig) (link : Link port) → Inv link.0 → Inv (set_key port key link).0.0
  unfolding set_key
  set_key-Inv key (c, d) v = ground arith

  pub authorize-Inv : (link : Link port) → Inv link.0 → Inv (authorize port link).0.0
  unfolding authorize
  authorize-Inv (c, d) v = ground arith

  pub set_power_save-Inv :
      (state : PowerSaveState) (link : Link port)
      → Inv link.0
      → Inv (set_power_save port state link).0.0
  unfolding set_power_save
  set_power_save-Inv state (c, d) v = ground arith

  pub set_power_save_timeout-Inv :
      (timeout_ms : ℕ) (link : Link port)
      → Inv link.0
      → Inv (set_power_save_timeout port timeout_ms link).0.0
  unfolding set_power_save_timeout
  set_power_save_timeout-Inv timeout_ms (c, d) v = ground arith
