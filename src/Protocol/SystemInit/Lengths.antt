-- ===== src/Protocol/SystemInit/Lengths.antt =====
-- protocol.rs: how many bytes the parts of the system initialization command take.
use Prim.Native.Nat.{◌*◌}
use embassy_zephyr_n_rf.Base.{append-nil, List, [], ◌∷◌, ◌≡◌, refl, arith, length}
use embassy_zephyr_n_rf.Protocol.Writer.Appends.{
  Appends, Takes, >>-Takes, Takes-resize, write_u8-Takes, write_u16-Takes, write_u32-Takes,
  write_bytes-Takes,
}
use embassy_zephyr_n_rf.Protocol.SystemInit.Config.{RxPoolConfig, SystemInitConfig}
use embassy_zephyr_n_rf.Protocol.SystemInit.{
  write_pools, write_system_init_data_rates, write_system_init_data_limits,
  write_system_init_temperature_calibration, write_system_init_environment_thresholds,
  write_system_init_middle, write_system_init_network, write_system_init_power,
  write_system_init_scan_policy, write_system_init_coexistence, write_system_init_back,
}

-- The lengths of the arrays.
pub record IsSystemInit (config : SystemInitConfig) : Type 0 where
  pub mac_len : length config.mac_address ≡ 6
  pub rf_len : length config.rf_params ≡ 200
  pub pools_len : length config.rx_pools ≡ 3
  pub country_len : length config.country_code ≡ 2

pub write_pools-Takes : (pools : List RxPoolConfig) → Takes (length pools * 4) (write_pools pools)
unfolding write_pools Appends
write_pools-Takes [] = record {
  bytes = [];
  size = refl;
  appends = λ w h k. rw (append-nil w.written) refl;
}
write_pools-Takes (pool ∷ pools) =
    Takes-resize (omega arith)
      (>>-Takes (write_u16-Takes _) (>>-Takes (write_u16-Takes _) (write_pools-Takes pools)))

pub write_system_init_middle-Takes :
    (config : SystemInitConfig) → Takes 47 (write_system_init_middle config)
unfolding write_system_init_middle write_system_init_data_rates write_system_init_data_limits
    write_system_init_temperature_calibration write_system_init_environment_thresholds
write_system_init_middle-Takes config =
    >>-Takes
      (>>-Takes (write_u8-Takes _)
        (>>-Takes (write_u8-Takes _) (>>-Takes (write_u8-Takes _) (write_u8-Takes _))))
      (>>-Takes
        (>>-Takes (write_u8-Takes _)
          (>>-Takes (write_u8-Takes _) (>>-Takes (write_u8-Takes _) (write_u32-Takes _))))
        (>>-Takes
          (>>-Takes (write_u32-Takes _)
            (>>-Takes (write_u32-Takes _) (>>-Takes (write_u32-Takes _) (write_u32-Takes _))))
          (>>-Takes (write_u32-Takes _) (
            >>-Takes (write_u32-Takes _)
              (>>-Takes (write_u32-Takes _) (>>-Takes (write_u32-Takes _) (write_u32-Takes _)))))))

write_system_init_network-Takes :
    (config : SystemInitConfig) → IsSystemInit config → Takes 12 (write_system_init_network config)
unfolding write_system_init_network
write_system_init_network-Takes config v = >>-Takes (write_u8-Takes _) (
    >>-Takes (Takes-resize v.country_len (write_bytes-Takes _))
      (>>-Takes (write_u32-Takes _) (>>-Takes (write_u8-Takes _) (write_u32-Takes _))))

pub write_system_init_back-Takes :
    (config : SystemInitConfig) → IsSystemInit config → Takes 64 (write_system_init_back config)
unfolding write_system_init_back write_system_init_power write_system_init_scan_policy
    write_system_init_coexistence
write_system_init_back-Takes config v = >>-Takes (write_system_init_network-Takes config v) (
    >>-Takes
      (>>-Takes (write_u32-Takes _)
        (>>-Takes (write_u32-Takes _) (>>-Takes (write_u8-Takes _) (write_u32-Takes _))))
      (>>-Takes
        (>>-Takes (write_u8-Takes _) (
          >>-Takes (write_u32-Takes _) (
            >>-Takes (write_u32-Takes _)
              (>>-Takes (write_u32-Takes _) (>>-Takes (write_u8-Takes _) (write_u32-Takes _))))))
        (>>-Takes (write_u32-Takes _) (
          >>-Takes (write_u32-Takes _) (
            >>-Takes (write_u32-Takes _)
              (>>-Takes (write_u32-Takes _) (>>-Takes (write_u32-Takes _) (write_u8-Takes _))))))))
