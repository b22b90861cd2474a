-- ===== src/Protocol/SystemInit.antt =====
-- protocol.rs: the system initialization command.
pub mod Config
pub mod Limits
pub mod Lengths
pub mod Packet
use Prim.Native.Nat.{ℕ, zero, suc, ◌+◌, ◌*◌, ◌%◌, ◌^◌}
use embassy_zephyr_n_rf.Base.{
  List, [], ◌∷◌, Bool, true, false, ◌||◌, ltb, ◌==◌, if◌then◌else◌, Outcome, ok, reject_if, length,
  u32_mod,
}
use embassy_zephyr_n_rf.Base.Actions.{Action, ◌>>◌}
use embassy_zephyr_n_rf.Protocol.Types.{ProtocolError, HostMessageType}
use embassy_zephyr_n_rf.Protocol.SystemInit.Config.{
  RxPoolConfig, DataConfig, TemperatureBatteryConfig, SystemInitConfig,
}
use embassy_zephyr_n_rf.Protocol.Writer.{
  Write, Writer, new_writer, write_bytes, write_u8, write_u16, write_u32,
}
use embassy_zephyr_n_rf.Protocol.Message.{encode_host_message, bool_u32}
use embassy_zephyr_n_rf.Protocol.Commands.{then_encode, exact}

abbrev pub system_init_len : ℕ
system_init_len = 366

-- The buffers of a pool, in bytes: a product of two 16-bit numbers, which fits 32 bits.
abbrev pub pool_bytes : RxPoolConfig → ℕ
pool_bytes pool = pool.buffer_size * pool.buffer_count

-- `sum` over `u32`, which wraps without overflow checks.
unfoldable pub total_rx : List RxPoolConfig → ℕ
total_rx [] = 0
total_rx (pool ∷ pools) = (pool_bytes pool + total_rx pools) % u32_mod

-- `SystemInitConfig::validate`. A negative `max_rx_ampdu_size` has a bit pattern above 3.
unfoldable pub validate_system_init : SystemInitConfig → Outcome ProtocolError (Unit {0})
validate_system_init config =
    reject_if
      (ltb (128 * 1024) (total_rx config.rx_pools)
        || (config.data_config.reorder_buffer_size == 0
            || (ltb 64 config.data_config.reorder_buffer_size
                || ltb 3 config.data_config.max_rx_ampdu_size)))
      ProtocolError.limit_exceeded

-- The command has the number 0.
unfoldable pub write_system_init_identity : SystemInitConfig → Write
write_system_init_identity config = do
  write_u32 0
  write_u32 system_init_len
  write_u32 config.wdev_id
  write_u32 config.sleep_enable

unfoldable pub write_system_init_timing : SystemInitConfig → Write
write_system_init_timing config = do
  write_u32 config.hardware_bringup_time
  write_u32 config.software_bringup_time
  write_u32 config.beacon_timeout
  write_u32 config.calibrate_sleep_clock

unfoldable pub write_system_init_radio : SystemInitConfig → Write
write_system_init_radio config = do
  write_u32 config.phy_calibration_bitmap
  write_bytes config.mac_address
  write_bytes config.rf_params
  write_u8 (bool_u32 config.rf_params_valid)

-- The loop over the pools.
unfoldable pub write_pools : List RxPoolConfig → Write
write_pools [] w = (w, ok tt)
write_pools (pool ∷ pools) w =
    (write_u16 pool.buffer_size >> (write_u16 pool.buffer_count >> write_pools pools)) w

unfoldable pub write_system_init_rx_pools : SystemInitConfig → Write
write_system_init_rx_pools config = write_pools config.rx_pools

unfoldable pub write_system_init_front : SystemInitConfig → Write
write_system_init_front config = do
  write_system_init_identity config
  write_system_init_timing config
  write_system_init_radio config
  write_system_init_rx_pools config

unfoldable pub write_system_init_data_rates : DataConfig → Write
write_system_init_data_rates settings = do
  write_u8 settings.rate_protection_type
  write_u8 (bool_u32 settings.aggregation)
  write_u8 (bool_u32 settings.wmm)
  write_u8 settings.max_tx_aggregation_sessions

unfoldable pub write_system_init_data_limits : DataConfig → Write
write_system_init_data_limits settings = do
  write_u8 settings.max_rx_aggregation_sessions
  write_u8 settings.max_tx_aggregation
  write_u8 settings.reorder_buffer_size
  write_u32 settings.max_rx_ampdu_size

unfoldable pub write_system_init_temperature_calibration : TemperatureBatteryConfig → Write
write_system_init_temperature_calibration temp = do
  write_u32 temp.temperature_calibration_enabled
  write_u32 temp.temperature_calibration_bitmap
  write_u32 temp.battery_calibration_bitmap
  write_u32 temp.monitor_period_us

unfoldable pub write_system_init_environment_thresholds : TemperatureBatteryConfig → Write
write_system_init_environment_thresholds temp = do
  write_u32 temp.very_low_voltage_threshold
  write_u32 temp.low_voltage_threshold
  write_u32 temp.high_voltage_threshold
  write_u32 temp.temperature_threshold
  write_u32 temp.battery_threshold

unfoldable pub write_system_init_middle : SystemInitConfig → Write
write_system_init_middle config = do
  write_system_init_data_rates config.data_config
  write_system_init_data_limits config.data_config
  write_system_init_temperature_calibration config.temperature_battery
  write_system_init_environment_thresholds config.temperature_battery

unfoldable pub write_system_init_network : SystemInitConfig → Write
write_system_init_network config = do
  write_u8 (bool_u32 config.tcp_ip_checksum_offload)
  write_bytes config.country_code
  write_u32 config.operating_band
  write_u8 (bool_u32 config.management_buffer_offload)
  write_u32 config.feature_flags

unfoldable pub write_system_init_power : SystemInitConfig → Write
write_system_init_power config = do
  write_u32 (bool_u32 config.disable_beamforming)
  write_u32 config.disconnect_timeout
  write_u8 config.power_save_exit_strategy
  write_u32 config.watchdog_timer

unfoldable pub write_system_init_scan_policy : SystemInitConfig → Write
write_system_init_scan_policy config = do
  write_u8 (bool_u32 config.keep_alive_enabled)
  write_u32 config.keep_alive_period_s
  write_u32 config.display_scan_bss_limit
  write_u32 config.disable_coexistence_priority_window_for_scan
  write_u8 (bool_u32 config.raw_scan_enabled)
  write_u32 config.max_ps_poll_fail_count

unfoldable pub write_system_init_coexistence : SystemInitConfig → Write
write_system_init_coexistence config = do
  write_u32 config.stbc_enabled_in_ht
  write_u32 config.dynamic_bandwidth_signalling
  write_u32 config.dynamic_energy_detection
  write_u32 config.bluetooth_slot_time_ms
  write_u32 config.bluetooth_coexistence_disabled
  write_u8 (bool_u32 config.abort_scan_on_bss_limit)

unfoldable pub write_system_init_back : SystemInitConfig → Write
write_system_init_back config = do
  write_system_init_network config
  write_system_init_power config
  write_system_init_scan_policy config
  write_system_init_coexistence config

unfoldable pub write_system_init_body : SystemInitConfig → Write
write_system_init_body config = do
  write_system_init_front config
  write_system_init_middle config
  write_system_init_back config

unfoldable pub encode_system_init : ℕ → SystemInitConfig → Outcome ProtocolError (List ℕ)
encode_system_init out_len config = then_encode (validate_system_init config) λ _.
    then_encode (exact system_init_len (write_system_init_body config (new_writer system_init_len)))
      λ body. encode_host_message out_len HostMessageType.system false body
