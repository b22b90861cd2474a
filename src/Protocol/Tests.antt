-- ===== src/Protocol/Tests.antt =====
-- protocol.rs: messages and parsers at concrete inputs.
use Prim.Native.Nat.{ℕ}
use Prim.Native.Nat.{◌<◌, ◌≤◌, ◌^◌}
use embassy_zephyr_n_rf.Base.{
  refl, err, ◌⊎◌, ◌≡◌, List, [], ◌∷◌, ◌++◌, true, ok, arith, length, replicate,
}
use embassy_zephyr_n_rf.Protocol.SystemInit.Config.{SystemInitConfig, new_system_init, rx_pool}
use embassy_zephyr_n_rf.Protocol.SystemInit.{encode_system_init, validate_system_init, total_rx}
use embassy_zephyr_n_rf.Protocol.SystemInit.Limits.{rx_bytes, Within, Beyond}
use embassy_zephyr_n_rf.Protocol.SystemInit.Lengths.{IsSystemInit}
use embassy_zephyr_n_rf.Protocol.SystemInit.Packet.{Received, encode_system_init_checked}
use embassy_zephyr_n_rf.Protocol.Queues.{parse_hpqm_info}
use embassy_zephyr_n_rf.Protocol.Queues.Parse.{hpqm_info_at, parse_hpqm_info-reads}
use embassy_zephyr_n_rf.Protocol.Types.{ProtocolError, HostMessageType}
use embassy_zephyr_n_rf.Protocol.Message.{encode_host_message, parse_host_message}
use embassy_zephyr_n_rf.Protocol.Message.RoundTrip.{parse_host_message-encode_host_message}

-- A message of three bytes in a buffer of 64.
parse_host_message-encode_host_message_example :
    (bytes : List ℕ) × (encode_host_message 64 HostMessageType.umac true (1 ∷ 2 ∷ 3 ∷ [])
      ≡ ok bytes)
    × (length bytes ≡ 15)
    × (parse_host_message (bytes ++ replicate 49 0)
        ≡ ok record {
          resubmit = true;
          message_type = HostMessageType.umac;
          payload = 1 ∷ 2 ∷ 3 ∷ [];
        })
parse_host_message-encode_host_message_example =
    parse_host_message-encode_host_message 64 HostMessageType.umac true (1 ∷ 2 ∷ 3 ∷ [])
      (replicate 49 0) (omega arith) (omega arith)

abbrev init_config : SystemInitConfig
init_config = new_system_init (2 ∷ 0 ∷ 0 ∷ 0 ∷ 0 ∷ 7 ∷ []) (replicate 200 9)

init_config-IsSystemInit : IsSystemInit init_config
unfolding new_system_init
init_config-IsSystemInit = record {
  mac_len = refl;
  rf_len = refl;
  pools_len = refl;
  country_len = refl;
}

init_config_fits : rx_bytes init_config.rx_pools < 2 ^ 32
unfolding new_system_init
init_config_fits = omega arith

-- The baseline settings in a buffer of 1024 bytes.
encode_system_init_checked_example :
    (Within init_config × Received 1024 init_config (replicate 646 0))
    ⊎ (Beyond init_config
        × (encode_system_init 1024 init_config ≡ err ProtocolError.limit_exceeded))
encode_system_init_checked_example =
    encode_system_init_checked 1024 init_config (replicate 646 0) init_config-IsSystemInit
      init_config_fits (omega arith) (omega arith)

init_config_accepted : validate_system_init init_config ≡ ok tt
unfolding validate_system_init new_system_init total_rx
init_config_accepted = refl

-- Pools of 2 ^ 32 bytes together count as none.
total_rx_wraps : total_rx (rx_pool 65535 65535 ∷ rx_pool 65535 2 ∷ rx_pool 1 1 ∷ []) ≡ 0
unfolding total_rx
total_rx_wraps = refl

abbrev sixty_ones : List ℕ
sixty_ones = replicate 60 1

parse_hpqm_info-reads_example :
    ((length sixty_ones < 56) × (parse_hpqm_info sixty_ones ≡ err ProtocolError.invalid_length))
    ⊎ ((56 ≤ length sixty_ones) × (parse_hpqm_info sixty_ones ≡ ok (hpqm_info_at sixty_ones)))
parse_hpqm_info-reads_example = parse_hpqm_info-reads sixty_ones
