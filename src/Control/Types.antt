-- ===== src/Control/Types.antt =====
-- control.rs: the parsed control events. An `i32` or an `i8` is kept as its bit pattern.
use Prim.Native.Nat.{ℕ}
use embassy_zephyr_n_rf.Base.{List, Option, Bool}
use embassy_zephyr_n_rf.Protocol.Types.{UmacHeader}

pub record MlmeEvent : Type 0 where
  pub header : UmacHeader
  pub valid_fields : ℕ
  pub frequency_mhz : ℕ
  pub signal_dbm : ℕ
  pub flags : ℕ
  pub cookie : ℕ
  pub bssid : List ℕ
  pub frame : List ℕ
  pub request_information_elements : List ℕ

pub record ScanResultEvent : Type 0 where
  pub header : UmacHeader
  pub valid_fields : ℕ
  pub frequency_mhz : ℕ
  pub channel_width : ℕ
  pub seen_ms_ago : ℕ
  pub status : ℕ
  pub signal : ℕ
  pub bssid : List ℕ
  pub beacon_interval : ℕ
  pub capability : ℕ
  pub information_elements : List ℕ
  pub beacon_information_elements : List ℕ

pub data ControlEvent : Type 0 where
  scan_done : UmacHeader → ℕ → ℕ → ControlEvent
  scan_result : ScanResultEvent → ControlEvent
  authentication : MlmeEvent → ControlEvent
  association : MlmeEvent → ControlEvent
  deauthentication : MlmeEvent → ControlEvent
  disassociation : MlmeEvent → ControlEvent
  command_status : UmacHeader → ℕ → ℕ → ControlEvent
  interface_state : UmacHeader → ℕ → ControlEvent
  regulatory_change : UmacHeader → List ℕ → ControlEvent
  other : UmacHeader → List ℕ → ControlEvent

pub data KeyType : Type 0 where
  group pairwise peer : KeyType

pub record KeyConfig : Type 0 where
  pub cipher_suite : ℕ
  pub key_type : KeyType
  pub key_index : ℕ
  pub key : List ℕ
  pub sequence : List ℕ
  pub flags : ℕ

pub data PowerSaveState : Type 0 where
  disabled enabled : PowerSaveState

pub data AuthenticationType : Type 0 where
  open_system shared_key fast_transition network_eap sae automatic : AuthenticationType

pub record BssContext : Type 0 where
  pub scan_width : ℕ
  pub signal_dbm : ℕ
  pub from_beacon : Bool
  pub information_elements : List ℕ
  pub capability : ℕ
  pub beacon_interval : ℕ
  pub tsf : ℕ

pub record AuthenticationRequest : Type 0 where
  pub frequency_mhz : ℕ
  pub bssid : List ℕ
  pub ssid : List ℕ
  pub auth_type : AuthenticationType
  pub local_state_change : Bool
  pub information_elements : List ℕ
  pub sae_data : List ℕ
  pub key : Option KeyConfig
  pub bss : BssContext

pub data MfpMode : Type 0 where
  disabled required : MfpMode

pub record AssociationSecurity : Type 0 where
  pub pairwise_ciphers : List ℕ
  pub group_cipher : ℕ
  pub akm_suites : List ℕ
  pub mfp : MfpMode
  pub rsn_information_element : List ℕ

pub record AssociationRequest : Type 0 where
  pub frequency_mhz : ℕ
  pub bssid : List ℕ
  pub ssid : List ℕ
  pub security : Option AssociationSecurity
  pub background_scan_period_s : ℕ
  pub previous_bssid : Option (List ℕ)
  pub bss_max_idle_s : ℕ
