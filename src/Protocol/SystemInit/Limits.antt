-- ===== src/Protocol/SystemInit/Limits.antt =====
-- protocol.rs: which settings the system initialization command takes.
use Prim.Native.Nat.{ℕ, ◌+◌, ◌*◌, ◌≤◌, ◌<◌, ◌^◌}
use embassy_zephyr_n_rf.Base.{List, [], ◌∷◌, ◌≡◌, refl, arith, ok, err, ◌⊎◌, inl, inr, dec_lt}
use embassy_zephyr_n_rf.Protocol.Types.{ProtocolError}
use embassy_zephyr_n_rf.Protocol.SystemInit.Config.{RxPoolConfig, SystemInitConfig}
use embassy_zephyr_n_rf.Protocol.SystemInit.{total_rx, validate_system_init}

-- The bytes of all receive buffers.
abbrev pub rx_bytes : List RxPoolConfig → ℕ
rx_bytes [] = 0
rx_bytes (pool ∷ pools) = pool.buffer_size * pool.buffer_count + rx_bytes pools

-- The limits of the packet RAM and of the firmware.
pub record Within (config : SystemInitConfig) : Type 0 where
  pub rx : rx_bytes config.rx_pools ≤ 131072
  pub reorder : 1 ≤ config.data_config.reorder_buffer_size
  pub reorder_max : config.data_config.reorder_buffer_size ≤ 64
  pub ampdu : config.data_config.max_rx_ampdu_size ≤ 3

-- One of the limits is not kept.
abbrev pub Beyond : SystemInitConfig → Type 0
Beyond config =
    (131072 < rx_bytes config.rx_pools)
    ⊎ (config.data_config.reorder_buffer_size ≡ 0)
    ⊎ (64 < config.data_config.reorder_buffer_size)
    ⊎ (3 < config.data_config.max_rx_ampdu_size)

total_rx-exact :
    (pools : List RxPoolConfig) → rx_bytes pools < 2 ^ 32 → total_rx pools ≡ rx_bytes pools
unfolding total_rx
total_rx-exact [] h = refl
total_rx-exact (pool ∷ pools) h =
    let rest = total_rx-exact pools (omega arith) in rw rest (omega arith)

pub validate_system_init-accepts :
    (config : SystemInitConfig)
    → rx_bytes config.rx_pools < 2 ^ 32
    → Within config
    → validate_system_init config ≡ ok tt
unfolding validate_system_init
validate_system_init-accepts config h v =
    let total = total_rx-exact config.rx_pools h in
    ground (arith, v.rx, v.reorder, v.reorder_max, v.ampdu)

pub Within-cases : (config : SystemInitConfig) → Within config ⊎ Beyond config
Within-cases config = elim (dec_lt 131072 (rx_bytes config.rx_pools)) [
  | yes h ↦ inr (inl h)
  | no a ↦ elim (dec_lt 0 config.data_config.reorder_buffer_size) [
    | no h ↦ inr (inr (inl (omega arith)))
    | yes b ↦ elim (dec_lt 64 config.data_config.reorder_buffer_size) [
      | yes h ↦ inr (inr (inr (inl h)))
      | no c ↦ elim (dec_lt 3 config.data_config.max_rx_ampdu_size) [
        | yes h ↦ inr (inr (inr (inr h)))
        | no d ↦ inl record {
          rx = omega arith;
          reorder = omega arith;
          reorder_max = omega arith;
          ampdu = omega arith;
        }
      ]
    ]
  ]
]

pub validate_system_init-rejects :
    (config : SystemInitConfig)
    → rx_bytes config.rx_pools < 2 ^ 32
    → Beyond config
    → validate_system_init config ≡ err ProtocolError.limit_exceeded
unfolding validate_system_init
validate_system_init-rejects config h b =
    let total = total_rx-exact config.rx_pools h in ground arith
