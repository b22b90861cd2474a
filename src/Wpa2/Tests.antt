-- ===== src/Wpa2/Tests.antt =====
-- Runs of the supplicant at concrete inputs, with simple functions in place of the ciphers.
pub mod Handshake
use Prim.Native.Nat.{ℕ, ◌+◌, ◌^◌}
use embassy_zephyr_n_rf.Base.{true, length, ◌∙◌, append-nil, take_past, inr, Returns, ◌↔◌}
use embassy_zephyr_n_rf.Base.Post.{Post}
use embassy_zephyr_n_rf.Wpa2.Types.{EapolKeyMessage, EapolTxFrame, Wpa2GroupKeyInstallRequest}
use embassy_zephyr_n_rf.Wpa2.Frame.{EapolKeyFrame}
use embassy_zephyr_n_rf.Wpa2.Frame.Parse.{parse_iff, IsFrame, frame_of}
use embassy_zephyr_n_rf.Wpa2.Keys.Gtk.{IsGtk, parse_gtk_kde-IsGtk}
use embassy_zephyr_n_rf.Wpa2.Keys.Derive.{derive_ptk-length}
use embassy_zephyr_n_rf.Wpa2.Keys.Unwrap.{IsInverse}
use embassy_zephyr_n_rf.Wpa2.Keys.Unwrap.RoundTrip.{aes_key_unwrap-aes_key_wrap}
use embassy_zephyr_n_rf.Wpa2.Response.RoundTrip.{parse-build_response, ReadsBack}
use embassy_zephyr_n_rf.Wpa2.Invariant.{Inv, floor}
use embassy_zephyr_n_rf.Wpa2.Histories.{
  Input, history, Ascending, installs-Ascending, history-Inv, new-Inv, key_completion,
}
use embassy_zephyr_n_rf.Wpa2.NoPanic.{on_eapol-Returns}
use embassy_zephyr_n_rf.Wpa2.Verified.{PairwiseFrom, GroupFrom}
use embassy_zephyr_n_rf.Wpa2.Verified.Installs.{install_keys_authentic, install_group_key_authentic}
use embassy_zephyr_n_rf.Wpa2.Rsn.{
  get_range, take_bytes, take_u16, take_suite, take_suite_bytes, take_nonzero_suite_count,
  any_suite, take_required_suite_list, validate_fixed_rsn_fields, validate_rsn_capabilities,
  validate_optional_pmkid, validate_optional_rsn_fields, rsn_body, validate_rsn_ie, is_zero_nonce,
  validate_supplicant_nonce,
}
use embassy_zephyr_n_rf.Wpa2.Frame.{
  classify_pairwise, classify_group, classify, validate_eapol_size, validate_eapol_header,
  read_be_u16, eapol_total_length, eapol_key_data_end, parse, be_number, protocol_version, message,
  key_length, replay_counter, nonce, key_receive_sequence, mic, kck, kek, temporal_key, digest,
  verify_mic,
}
use embassy_zephyr_n_rf.Wpa2.Keys.{
  bytes_leb, ordered, xor_bits, xor_bytes, u64_be_bytes, replace_part, derive, expand, derive_ptk,
  unwrap_block, unwrap_indices, unwrap_rounds, unwrap_key_blocks, validate_wrapped_key_lengths,
  aes_key_unwrap, starts_with, take_body, take_element, take_kde, parse_gtk_body, scan_kde,
  search_gtk, parse_gtk_kde, group_key_install,
}
use embassy_zephyr_n_rf.Wpa2.Response.{
  response_bytes, sign, build_response, build_message2, build_message4, build_group_message2,
}
use embassy_zephyr_n_rf.Wpa2.State.{
  new, clear_transient_state, failed_state, fail, restart_pairwise, start_key_install,
}
use embassy_zephyr_n_rf.Wpa2.Messages.{
  require_encrypted_key_data, fail_on_error, try_then, with_ptk, transmitted, validate_new_message3,
  message2_action, begin_message1, handle_repeated_message1, handle_message1_after_completion,
  after_message1, on_message1, validate_message3_authenticator, message4_action,
  handle_completed_message3, install_pairwise, accept_message3, new_message3, on_message3,
  validate_new_group_message1, group_message2_action, handle_repeated_group_message1, install_group,
  accept_group_message1, new_group_message1, on_group_message1,
}
use embassy_zephyr_n_rf.Base.{is_empty}
use embassy_zephyr_n_rf.Wpa2.Supplicant.{
  is_pairwise_handshake_message, validate_frame, is_pending_message, dispatch_message,
  handle_pending_frame, on_frame, on_eapol,
}
use embassy_zephyr_n_rf.Wpa2.Completion.{
  accept_key_completion, complete_key_install, complete_group_key_install,
}
use embassy_zephyr_n_rf.Base.Bytes.{index, slice, slice_from, bytes_eq}
use embassy_zephyr_n_rf.Wpa2.Histories.{step, installs_of}
use embassy_zephyr_n_rf.Base.{
  ◌≡◌, refl, List, [], ◌∷◌, ◌++◌, none, Outcome, ok, arith, take, replicate, length-take,
  length-append,
}
use embassy_zephyr_n_rf.Wpa2.Types.{
  Wpa2Phase, Wpa2Error, Wpa2Action, Wpa2Supplicant, Wpa2KeyInstallRequest,
}
use embassy_zephyr_n_rf.Wpa2.Crypto.{Crypto, IsSized}
use embassy_zephyr_n_rf.Wpa2.Keys.Unwrap.{aes_key_wrap}
use embassy_zephyr_n_rf.Wpa2.Histories.{eapol, installs}
use embassy_zephyr_n_rf.Wpa2.Tests.Handshake.{
  simple, simple-IsSized, local_address, peer_address, rsn_ie, start, signed, anonce, key_data,
  message1, message3, request_of, simple-IsInverse, start-Inv, inputs,
}

installs-Ascending_example : Ascending (floor start) (installs simple inputs start)
installs-Ascending_example =
    installs-Ascending simple inputs start start-Inv (refl, (refl, (refl, tt)))

history-Inv_example : Inv (history simple inputs start)
history-Inv_example = history-Inv simple inputs start start-Inv

-- The state after Message 1, and what Message 3 answers.
abbrev awaiting : Wpa2Supplicant
awaiting = history simple (eapol peer_address message1 ∷ []) start

abbrev answer3 : Wpa2Supplicant × Outcome Wpa2Error Wpa2Action
answer3 = on_eapol simple peer_address message3 awaiting

abbrev no_request : Wpa2KeyInstallRequest
no_request = record {
  ticket = 0;
  replay_counter = 0;
  pairwise = record { peer = []; key = [] };
  group = record { key_index = 0; key = []; receive_sequence = [] };
  response = record { peer = []; bytes = [] };
}

abbrev request3 : Wpa2KeyInstallRequest
request3 = request_of answer3 no_request

answer3_request : answer3 ≡ (answer3.0, ok (Wpa2Action.install_keys request3))
unfolding signed step history index slice slice_from bytes_eq get_range take_bytes take_u16
    take_suite take_suite_bytes take_nonzero_suite_count any_suite take_required_suite_list
    validate_fixed_rsn_fields validate_rsn_capabilities validate_optional_pmkid
    validate_optional_rsn_fields rsn_body validate_rsn_ie is_zero_nonce validate_supplicant_nonce
    classify_pairwise classify_group classify validate_eapol_size validate_eapol_header read_be_u16
    eapol_total_length eapol_key_data_end parse be_number protocol_version message key_length
    replay_counter nonce key_receive_sequence mic kck kek temporal_key digest verify_mic bytes_leb
    ordered xor_bits xor_bytes u64_be_bytes replace_part derive expand derive_ptk unwrap_block
    unwrap_indices unwrap_rounds unwrap_key_blocks validate_wrapped_key_lengths aes_key_unwrap
    starts_with take_body take_element take_kde parse_gtk_body scan_kde search_gtk parse_gtk_kde
    group_key_install response_bytes sign build_response build_message2 build_message4
    build_group_message2 new clear_transient_state failed_state fail restart_pairwise
    start_key_install require_encrypted_key_data fail_on_error try_then with_ptk transmitted
    validate_new_message3 message2_action begin_message1 handle_repeated_message1
    handle_message1_after_completion after_message1 on_message1 validate_message3_authenticator
    message4_action handle_completed_message3 install_pairwise accept_message3 new_message3
    on_message3 validate_new_group_message1 group_message2_action handle_repeated_group_message1
    install_group accept_group_message1 new_group_message1 on_group_message1
    is_pairwise_handshake_message validate_frame is_pending_message dispatch_message
    handle_pending_frame on_frame on_eapol accept_key_completion complete_key_install
    complete_group_key_install
answer3_request = refl

install_keys_authentic_example :
    (awaiting.peer ≡ peer_address)
    × ((frame : EapolKeyFrame) × (parse message3 ≡ ok frame)
        × (message frame ≡ EapolKeyMessage.pairwise_message3)
        × PairwiseFrom simple frame awaiting request3)
install_keys_authentic_example =
    install_keys_authentic simple peer_address message3 awaiting answer3.0 request3 answer3_request

-- The complete phase, and what a group Message 1 answers.
abbrev message_group1 : List ℕ
message_group1 =
    signed (2 + 2 ^ 7 + 2 ^ 8 + 2 ^ 9 + 2 ^ 12) 3 (replicate 32 0)
      (aes_key_wrap (λ key block. block) [] key_data)

abbrev completed : Wpa2Supplicant
completed = history simple (key_completion request3 true ∷ []) answer3.0

abbrev answer_group : Wpa2Supplicant × Outcome Wpa2Error Wpa2Action
answer_group = on_eapol simple peer_address message_group1 completed

abbrev group_request_of : Wpa2Supplicant × Outcome Wpa2Error Wpa2Action → Wpa2GroupKeyInstallRequest
group_request_of (s, ok (Wpa2Action.install_group_key q)) = q
group_request_of _ = record {
  ticket = 0;
  replay_counter = 0;
  group = record { key_index = 0; key = []; receive_sequence = [] };
  response = record { peer = []; bytes = [] };
}

abbrev request_group : Wpa2GroupKeyInstallRequest
request_group = group_request_of answer_group

answer_group_request :
    answer_group ≡ (answer_group.0, ok (Wpa2Action.install_group_key request_group))
unfolding signed step history index slice slice_from bytes_eq get_range take_bytes take_u16
    take_suite take_suite_bytes take_nonzero_suite_count any_suite take_required_suite_list
    validate_fixed_rsn_fields validate_rsn_capabilities validate_optional_pmkid
    validate_optional_rsn_fields rsn_body validate_rsn_ie is_zero_nonce validate_supplicant_nonce
    classify_pairwise classify_group classify validate_eapol_size validate_eapol_header read_be_u16
    eapol_total_length eapol_key_data_end parse be_number protocol_version message key_length
    replay_counter nonce key_receive_sequence mic kck kek temporal_key digest verify_mic bytes_leb
    ordered xor_bits xor_bytes u64_be_bytes replace_part derive expand derive_ptk unwrap_block
    unwrap_indices unwrap_rounds unwrap_key_blocks validate_wrapped_key_lengths aes_key_unwrap
    starts_with take_body take_element take_kde parse_gtk_body scan_kde search_gtk parse_gtk_kde
    group_key_install response_bytes sign build_response build_message2 build_message4
    build_group_message2 new clear_transient_state failed_state fail restart_pairwise
    start_key_install require_encrypted_key_data fail_on_error try_then with_ptk transmitted
    validate_new_message3 message2_action begin_message1 handle_repeated_message1
    handle_message1_after_completion after_message1 on_message1 validate_message3_authenticator
    message4_action handle_completed_message3 install_pairwise accept_message3 new_message3
    on_message3 validate_new_group_message1 group_message2_action handle_repeated_group_message1
    install_group accept_group_message1 new_group_message1 on_group_message1
    is_pairwise_handshake_message validate_frame is_pending_message dispatch_message
    handle_pending_frame on_frame on_eapol accept_key_completion complete_key_install
    complete_group_key_install
answer_group_request = refl

install_group_key_authentic_example :
    (completed.peer ≡ peer_address)
    × ((frame : EapolKeyFrame) × (parse message_group1 ≡ ok frame)
        × (message frame ≡ EapolKeyMessage.group_message1)
        × GroupFrom simple frame completed request_group)
install_group_key_authentic_example =
    install_group_key_authentic simple peer_address message_group1 completed answer_group.0
      request_group answer_group_request

on_eapol-Returns_example : Returns (on_eapol simple peer_address message3 awaiting).1
on_eapol-Returns_example = on_eapol-Returns simple simple-IsSized peer_address message3 awaiting

parse_gtk_kde-IsGtk_example : Post IsGtk (parse_gtk_kde key_data)
parse_gtk_kde-IsGtk_example = parse_gtk_kde-IsGtk key_data

derive_ptk-length_example :
    let ptk =
      derive_ptk simple (replicate 32 0x33) peer_address local_address anonce (replicate 32 0x11) in
    (length ptk ≡ 48)
    × (length (kck ptk) ≡ 16)
    × (length (kek ptk) ≡ 16)
    × (length (temporal_key ptk) ≡ 16)
derive_ptk-length_example =
    derive_ptk-length simple simple-IsSized (replicate 32 0x33) peer_address local_address anonce
      (replicate 32 0x11)

aes_key_unwrap-aes_key_wrap_example :
    aes_key_unwrap simple [] (aes_key_wrap (λ key block. block) [] key_data) 413 ≡ ok key_data
aes_key_unwrap-aes_key_wrap_example =
    aes_key_unwrap-aes_key_wrap simple (λ key block. block) simple-IsInverse [] key_data 413
      (ground arith) refl (omega arith) (omega arith)

parse-build_response_example :
    (tx : EapolTxFrame) × (build_response simple peer_address 2
        (2 + 2 ^ 3 + 2 ^ 8)
        16
        1
        anonce
        rsn_ie
        (replicate 48 7)
      ≡ ok tx)
    × ((frame : EapolKeyFrame) × (parse tx.bytes ≡ ok frame)
        × ReadsBack simple simple-IsSized 2
            (2 + 2 ^ 3 + 2 ^ 8)
            16
            1
            anonce
            rsn_ie
            (replicate 48 7)
            frame)
parse-build_response_example =
    parse-build_response simple simple-IsSized peer_address 2 (2 + 2 ^ 3 + 2 ^ 8) 16 1 anonce rsn_ie
      (replicate 48 7) (inr refl) (omega arith, omega arith, omega arith) refl (omega arith)

parse_iff_example :
    ((parse message1 ≡ ok (frame_of message1))
      ↔ (IsFrame message1 × (frame_of message1 ≡ frame_of message1)))
    × Returns (parse message1)
parse_iff_example = parse_iff message1 (frame_of message1)
