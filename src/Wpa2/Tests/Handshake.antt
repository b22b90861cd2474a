-- ===== src/Wpa2/Tests/Handshake.antt =====
-- wpa2.rs: a handshake with short stand-ins for the cryptographic functions.
use Prim.Native.Nat.{ℕ, ◌+◌, ◌^◌}
use embassy_zephyr_n_rf.Base.{◌∙◌, append-nil, take_past}
use embassy_zephyr_n_rf.Wpa2.Keys.Unwrap.{IsInverse}
use embassy_zephyr_n_rf.Wpa2.Invariant.{Inv}
use embassy_zephyr_n_rf.Wpa2.Histories.{Input, new-Inv}
use embassy_zephyr_n_rf.Wpa2.Rsn.{
  get_range, take_bytes, take_u16, take_suite, take_suite_bytes, take_nonzero_suite_count,
  any_suite, take_required_suite_list, validate_fixed_rsn_fields, validate_rsn_capabilities,
  validate_optional_pmkid, validate_optional_rsn_fields, rsn_body, validate_rsn_ie, is_zero_nonce,
  validate_supplicant_nonce,
}
use embassy_zephyr_n_rf.Wpa2.Frame.{
  classify_pairwise, classify_group, classify, validate_eapol_size, validate_eapol_header,
  read_be_u16, eapol_total_length, eapol_key_data_end, parse, be_number, protocol_version, message,
  key_length, replay_counter, nonce, key_receive_sequence, mic, kck, kek, temporal_key, digest,
  verify_mic,
}
use embassy_zephyr_n_rf.Wpa2.Keys.{
  bytes_leb, ordered, xor_bits, xor_bytes, u64_be_bytes, replace_part, derive, expand, derive_ptk,
  unwrap_block, unwrap_indices, unwrap_rounds, unwrap_key_blocks, validate_wrapped_key_lengths,
  aes_key_unwrap, starts_with, take_body, take_element, take_kde, parse_gtk_body, scan_kde,
  search_gtk, parse_gtk_kde, group_key_install,
}
use embassy_zephyr_n_rf.Wpa2.Response.{
  response_bytes, sign, build_response, build_message2, build_message4, build_group_message2,
}
use embassy_zephyr_n_rf.Wpa2.State.{
  new, clear_transient_state, failed_state, fail, restart_pairwise, start_key_install,
}
use embassy_zephyr_n_rf.Wpa2.Messages.{
  require_encrypted_key_data, fail_on_error, try_then, with_ptk, transmitted, validate_new_message3,
  message2_action, begin_message1, handle_repeated_message1, handle_message1_after_completion,
  after_message1, on_message1, validate_message3_authenticator, message4_action,
  handle_completed_message3, install_pairwise, accept_message3, new_message3, on_message3,
  validate_new_group_message1, group_message2_action, handle_repeated_group_message1, install_group,
  accept_group_message1, new_group_message1, on_group_message1,
}
use embassy_zephyr_n_rf.Wpa2.Supplicant.{
  is_pairwise_handshake_message, validate_frame, is_pending_message, dispatch_message,
  handle_pending_frame, on_frame, on_eapol,
}
use embassy_zephyr_n_rf.Wpa2.Completion.{
  accept_key_completion, complete_key_install, complete_group_key_install,
}
use embassy_zephyr_n_rf.Base.Bytes.{index, slice, slice_from, bytes_eq}
use embassy_zephyr_n_rf.Wpa2.Histories.{step, installs_of}
use embassy_zephyr_n_rf.Base.{
  ◌≡◌, refl, List, [], ◌∷◌, ◌++◌, none, Outcome, ok, arith, take, replicate, length-take,
  length-append,
}
use embassy_zephyr_n_rf.Wpa2.Types.{
  Wpa2Phase, Wpa2Error, Wpa2Action, Wpa2Supplicant, Wpa2KeyInstallRequest,
}
use embassy_zephyr_n_rf.Wpa2.Crypto.{Crypto, IsSized}
use embassy_zephyr_n_rf.Wpa2.Keys.Unwrap.{aes_key_wrap}
use embassy_zephyr_n_rf.Wpa2.Histories.{eapol, installs}

-- A MIC that is the start of the message, a digest that is the whole of it, and a block cipher that
-- is the identity on blocks.
abbrev pub simple : Crypto
simple = record {
  sha256 = λ message. message;
  hmac_sha1 = λ key message. take 20 (message ++ replicate 20 0);
  aes128_decrypt = λ key block. take 16 (block ++ replicate 16 0);
  pbkdf2_hmac_sha1 = λ passphrase salt rounds len. replicate len 0;
}

pub simple-IsSized : IsSized simple
simple-IsSized = record {
  hmac_size = λ key message.
      omega
        (arith, length-take 20 (message ++ replicate 20 0), length-append message (replicate 20 0));
  block_size = λ key block.
      omega (arith, length-take 16 (block ++ replicate 16 0), length-append block (replicate 16 0));
}

abbrev pub local_address : List ℕ
local_address = 2 ∷ 0 ∷ 0 ∷ 0 ∷ 0 ∷ 1 ∷ []

abbrev pub peer_address : List ℕ
peer_address = 2 ∷ 0 ∷ 0 ∷ 0 ∷ 0 ∷ 2 ∷ []

abbrev pub rsn_ie : List ℕ
rsn_ie =
    0x30 ∷ 20 ∷ 1 ∷ 0 ∷ 0 ∷ 0x0f ∷ 0xac ∷ 4 ∷ 1 ∷ 0 ∷ 0 ∷ 0x0f ∷ 0xac ∷ 4 ∷ 1 ∷ 0 ∷ 0 ∷ 0x0f ∷ 0xac
    ∷ 2 ∷ 0 ∷ 0 ∷ []

abbrev pub start : Wpa2Supplicant
start = record {
  local = local_address;
  peer = peer_address;
  phase = Wpa2Phase.awaiting_message1;
  pmk = replicate 32 0x33;
  ptk = none;
  supplicant_nonce = replicate 32 0x11;
  authenticator_nonce = replicate 32 0;
  rsn_ie = rsn_ie;
  message1_replay = none;
  message1_digest = none;
  completed_replay = none;
  completed_message3_digest = none;
  last_group_replay = none;
  last_group_message1_digest = none;
  pending_ticket = none;
  pending_frame_digest = none;
  next_ticket = 1;
}

start_new : new local_address peer_address (replicate 32 0x11) (replicate 32 0x33) rsn_ie ≡ ok start
unfolding new get_range take_bytes take_u16 take_suite take_suite_bytes take_nonzero_suite_count
    any_suite take_required_suite_list validate_fixed_rsn_fields validate_rsn_capabilities
    validate_optional_pmkid validate_optional_rsn_fields rsn_body validate_rsn_ie is_zero_nonce
    validate_supplicant_nonce index slice slice_from bytes_eq
start_new = refl

-- An authenticator's frame.
unfoldable pub signed : ℕ → ℕ → List ℕ → List ℕ → List ℕ
unfolding response_bytes
signed info replay nonce key_data =
    let frame : List ℕ → List ℕ = λ m. response_bytes 2 info 16 replay nonce m key_data in
    frame (take 16 (simple.hmac_sha1 [] (frame (replicate 16 0))))

abbrev pub anonce : List ℕ
anonce = replicate 32 0x22

-- The key data with a group key of index 1.
abbrev pub key_data : List ℕ
key_data = 0xdd ∷ 22 ∷ 0x00 ∷ 0x0f ∷ 0xac ∷ 0x01 ∷ 1 ∷ 0 ∷ replicate 16 0x44

abbrev pub message1 : List ℕ
message1 = signed (2 + 2 ^ 3 + 2 ^ 7) 1 anonce []

abbrev pub message3 : List ℕ
message3 =
    signed (2 + 2 ^ 3 + 2 ^ 6 + 2 ^ 7 + 2 ^ 8 + 2 ^ 9 + 2 ^ 12) 2 anonce
      (aes_key_wrap (λ key block. block) [] key_data)

-- The request of a result, if there is one.
abbrev pub request_of :
    Wpa2Supplicant × Outcome Wpa2Error Wpa2Action → Wpa2KeyInstallRequest → Wpa2KeyInstallRequest
request_of (s, ok (Wpa2Action.install_keys q)) q' = q
request_of _ q' = q'

-- Message 3 after Message 1 asks for the keys, and the same Message 3 again asks for nothing.
keys_requested :
    installs simple
      (eapol peer_address message1 ∷ eapol peer_address message3 ∷ eapol peer_address message3 ∷ [])
      start
    ≡ 2 ∷ []
unfolding signed installs installs_of step index slice slice_from bytes_eq get_range take_bytes
    take_u16 take_suite take_suite_bytes take_nonzero_suite_count any_suite take_required_suite_list
    validate_fixed_rsn_fields validate_rsn_capabilities validate_optional_pmkid
    validate_optional_rsn_fields rsn_body validate_rsn_ie is_zero_nonce validate_supplicant_nonce
    classify_pairwise classify_group classify validate_eapol_size validate_eapol_header read_be_u16
    eapol_total_length eapol_key_data_end parse be_number protocol_version message key_length
    replay_counter nonce key_receive_sequence mic kck kek temporal_key digest verify_mic bytes_leb
    ordered xor_bits xor_bytes u64_be_bytes replace_part derive expand derive_ptk unwrap_block
    unwrap_indices unwrap_rounds unwrap_key_blocks validate_wrapped_key_lengths aes_key_unwrap
    starts_with take_body take_element take_kde parse_gtk_body scan_kde search_gtk parse_gtk_kde
    group_key_install response_bytes sign build_response build_message2 build_message4
    build_group_message2 new clear_transient_state failed_state fail restart_pairwise
    start_key_install require_encrypted_key_data fail_on_error try_then with_ptk transmitted
    validate_new_message3 message2_action begin_message1 handle_repeated_message1
    handle_message1_after_completion after_message1 on_message1 validate_message3_authenticator
    message4_action handle_completed_message3 install_pairwise accept_message3 new_message3
    on_message3 validate_new_group_message1 group_message2_action handle_repeated_group_message1
    install_group accept_group_message1 new_group_message1 on_group_message1
    is_pairwise_handshake_message validate_frame is_pending_message dispatch_message
    handle_pending_frame on_frame on_eapol accept_key_completion complete_key_install
    complete_group_key_install
keys_requested = refl

pub simple-IsInverse : IsInverse simple (λ key block. block)
simple-IsInverse = record {
  encrypt_size = λ key block h. h;
  encrypt_bytes = λ key block h. h;
  decrypt_encrypt =
      λ key block h b. take_past 16 0 block (replicate 16 0) (omega (arith, h)) ∙ append-nil block;
}

pub start-Inv : Inv start
start-Inv =
    new-Inv local_address peer_address (replicate 32 0x11) (replicate 32 0x33) rsn_ie start
      start_new

abbrev pub inputs : List Input
inputs =
    eapol peer_address message1 ∷ eapol peer_address message3 ∷ eapol peer_address message3 ∷ []
