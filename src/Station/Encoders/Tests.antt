-- ===== src/Station/Encoders/Tests.antt =====
-- Messages of the controller at concrete inputs.
use Prim.Native.Nat.{ℕ, ◌≤◌}
use embassy_zephyr_n_rf.Base.{
  ◌≡◌, refl, List, [], ◌∷◌, ◌++◌, none, some, Outcome, ok, arith, length, replicate,
}
use embassy_zephyr_n_rf.Protocol.Types.{UmacCommand}
use embassy_zephyr_n_rf.Protocol.Umac.Header.{header_of, received}
use embassy_zephyr_n_rf.Control.Types.{KeyType, KeyConfig}
use embassy_zephyr_n_rf.Station.Port.{Message, Call}
use embassy_zephyr_n_rf.Station.Types.{StationState, StationController}
use embassy_zephyr_n_rf.Station.Core.{new}
use embassy_zephyr_n_rf.Station.Commands.{issue}
use embassy_zephyr_n_rf.Station.Encoders.{encode_message}
use embassy_zephyr_n_rf.Station.Encoders.Sent.{Expected, Sends, recording}
use embassy_zephyr_n_rf.Station.Encoders.Sent.Commands.{issue-Sends}
use embassy_zephyr_n_rf.Station.Encoders.Deliver.{encode_message-received}

abbrev peer : List ℕ
peer = 2 ∷ 0 ∷ 0 ∷ 0 ∷ 0 ∷ 1 ∷ []

abbrev group_key : KeyConfig
group_key = record {
  cipher_suite = 0x000fac04;
  key_type = KeyType.group;
  key_index = 1;
  key = replicate 16 7;
  sequence = replicate 6 0;
  flags = 0;
}

abbrev new_key : Message
new_key = Message.key_message 3 UmacCommand.new_key (some peer) group_key

encode_message-received_example :
    (bytes : List ℕ) × (body : List ℕ) × (encode_message new_key ≡ ok bytes)
    × (length bytes ≡ 593)
    × (length bytes ≤ 2048)
    × (received (bytes ++ (170 ∷ [])) ≡ ok (header_of UmacCommand.new_key 1 3, body))
    × (length body ≡ 545)
unfolding embassy_zephyr_n_rf.Protocol.Types.command_value
encode_message-received_example =
    encode_message-received new_key (170 ∷ [])
      (
        (omega arith, omega arith),
        refl,
        record { key_len = omega arith; sequence_len = omega arith; index = omega arith },
      )
      (omega arith)

abbrev securing : StationController
securing = record (new 0 0 3) { state = StationState.securing; peer = some peer }

abbrev accept : List ℕ → List (List ℕ) → Outcome ℕ (Unit {0})
accept bytes log = ok tt

issue-Sends_example :
    Sends ℕ accept
      (Expected.send_message (Message.key_message 3 UmacCommand.new_key none group_key))
      3
      []
      (issue
        (recording ℕ accept)
        (Call.key_command_call UmacCommand.new_key group_key)
        (securing, []))
unfolding embassy_zephyr_n_rf.Protocol.Types.command_value new
issue-Sends_example =
    issue-Sends ℕ accept (Call.key_command_call UmacCommand.new_key group_key) securing []
      (
        (omega arith, omega arith),
        record { key_len = omega arith; sequence_len = omega arith; index = omega arith },
      )
      refl (omega arith)
