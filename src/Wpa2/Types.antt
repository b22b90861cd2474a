-- ===== src/Wpa2/Types.antt =====
-- wpa2.rs: the phases, messages, errors and transactions, and the state of the supplicant.
use Prim.Native.Nat.{ℕ, ◌+◌, ◌-◌}
use embassy_zephyr_n_rf.Base.{List, Option, Bool}

abbrev pub max_eapol_frame_len : ℕ
max_eapol_frame_len = 512

abbrev pub max_rsn_ie_len : ℕ
max_rsn_ie_len = 256

abbrev pub max_key_data_len : ℕ
max_key_data_len = max_eapol_frame_len - 99

abbrev pub wpa2_ptk_len : ℕ
wpa2_ptk_len = 48

abbrev pub ccmp_key_len : ℕ
ccmp_key_len = 16

abbrev pub eapol_header_len : ℕ
eapol_header_len = 4

abbrev pub eapol_key_fixed_body_len : ℕ
eapol_key_fixed_body_len = 95

abbrev pub eapol_key_min_len : ℕ
eapol_key_min_len = eapol_header_len + eapol_key_fixed_body_len

abbrev pub key_mic_start : ℕ
key_mic_start = 81

abbrev pub key_mic_end : ℕ
key_mic_end = 97

abbrev pub key_data_length_offset : ℕ
key_data_length_offset = 97

abbrev pub key_data_offset : ℕ
key_data_offset = 99

pub data Wpa2Phase : Type 0 where
  awaiting_message1 awaiting_message3 installing_keys complete failed : Wpa2Phase

pub data EapolKeyMessage : Type 0 where
  pairwise_message1 pairwise_message2 pairwise_message3 pairwise_message4 : EapolKeyMessage
  group_message1 group_message2 other : EapolKeyMessage

pub data Wpa2Error : Type 0 where
  invalid_passphrase_length invalid_ssid_length invalid_rsn_information_element : Wpa2Error
  unsupported_rsn_capabilities invalid_supplicant_nonce : Wpa2Error
  frame_too_short frame_too_large length_mismatch not_eapol_key : Wpa2Error
  unsupported_protocol_version : ℕ → Wpa2Error
  unsupported_descriptor : Wpa2Error
  unsupported_descriptor_version : ℕ → Wpa2Error
  invalid_pairwise_key_length : ℕ → Wpa2Error
  unsupported_message wrong_peer invalid_phase stale_replay_counter : Wpa2Error
  conflicting_retransmission new_pairwise_handshake_requires_nonce : Wpa2Error
  invalid_authenticator_nonce invalid_mic missing_encrypted_key_data : Wpa2Error
  invalid_encrypted_key_data key_unwrap_integrity missing_group_key : Wpa2Error
  unsupported_group_key_length busy stale_completion install_failed : Wpa2Error
  output_too_small : Wpa2Error

-- A frame to send. `bytes` holds the first `len` bytes of the buffer.
pub record EapolTxFrame : Type 0 where
  pub peer : List ℕ
  pub bytes : List ℕ

pub record PairwiseKeyInstall : Type 0 where
  pub peer : List ℕ
  pub key : List ℕ

-- `key` holds the first `key_len` bytes of the buffer.
pub record GroupKeyInstall : Type 0 where
  pub key_index : ℕ
  pub key : List ℕ
  pub receive_sequence : List ℕ

pub record Wpa2KeyInstallRequest : Type 0 where
  pub ticket : ℕ
  pub replay_counter : ℕ
  pub pairwise : PairwiseKeyInstall
  pub group : GroupKeyInstall
  pub response : EapolTxFrame

pub record Wpa2GroupKeyInstallRequest : Type 0 where
  pub ticket : ℕ
  pub replay_counter : ℕ
  pub group : GroupKeyInstall
  pub response : EapolTxFrame

pub data Wpa2Action : Type 0 where
  nothing : Wpa2Action
  transmit : EapolTxFrame → Wpa2Action
  install_keys : Wpa2KeyInstallRequest → Wpa2Action
  install_group_key : Wpa2GroupKeyInstallRequest → Wpa2Action

-- `rsn_ie` holds the first `rsn_ie_len` bytes of the buffer.
pub record Wpa2Supplicant : Type 0 where
  pub local : List ℕ
  pub peer : List ℕ
  pub phase : Wpa2Phase
  pub pmk : List ℕ
  pub ptk : Option (List ℕ)
  pub supplicant_nonce : List ℕ
  pub authenticator_nonce : List ℕ
  pub rsn_ie : List ℕ
  pub message1_replay : Option ℕ
  pub message1_digest : Option (List ℕ)
  pub completed_replay : Option ℕ
  pub completed_message3_digest : Option (List ℕ)
  pub last_group_replay : Option ℕ
  pub last_group_message1_digest : Option (List ℕ)
  pub pending_ticket : Option (ℕ × ℕ × Bool)
  pub pending_frame_digest : Option (List ℕ)
  pub next_ticket : ℕ
