-- ===== src/Protocol/SystemInit/Config.antt =====
-- protocol.rs: the settings of the system initialization command.
use Prim.Native.Nat.{ℕ, ◌*◌, ◌^◌}
use embassy_zephyr_n_rf.Base.{List, [], ◌∷◌, Bool, true, false}

pub record RxPoolConfig : Type 0 where
  pub buffer_size : ℕ
  pub buffer_count : ℕ

-- Signed numbers are kept as their bit patterns.
pub record DataConfig : Type 0 where
  pub rate_protection_type : ℕ
  pub aggregation : Bool
  pub wmm : Bool
  pub max_tx_aggregation_sessions : ℕ
  pub max_rx_aggregation_sessions : ℕ
  pub max_tx_aggregation : ℕ
  pub reorder_buffer_size : ℕ
  pub max_rx_ampdu_size : ℕ

pub record TemperatureBatteryConfig : Type 0 where
  pub temperature_calibration_enabled : ℕ
  pub temperature_calibration_bitmap : ℕ
  pub battery_calibration_bitmap : ℕ
  pub monitor_period_us : ℕ
  pub very_low_voltage_threshold : ℕ
  pub low_voltage_threshold : ℕ
  pub high_voltage_threshold : ℕ
  pub temperature_threshold : ℕ
  pub battery_threshold : ℕ

-- `data_config` is the field `data`.
pub record SystemInitConfig : Type 0 where
  pub wdev_id : ℕ
  pub sleep_enable : ℕ
  pub hardware_bringup_time : ℕ
  pub software_bringup_time : ℕ
  pub beacon_timeout : ℕ
  pub calibrate_sleep_clock : ℕ
  pub phy_calibration_bitmap : ℕ
  pub mac_address : List ℕ
  pub rf_params : List ℕ
  pub rf_params_valid : Bool
  pub rx_pools : List RxPoolConfig
  pub data_config : DataConfig
  pub temperature_battery : TemperatureBatteryConfig
  pub tcp_ip_checksum_offload : Bool
  pub country_code : List ℕ
  pub operating_band : ℕ
  pub management_buffer_offload : Bool
  pub feature_flags : ℕ
  pub disable_beamforming : Bool
  pub disconnect_timeout : ℕ
  pub power_save_exit_strategy : ℕ
  pub watchdog_timer : ℕ
  pub keep_alive_enabled : Bool
  pub keep_alive_period_s : ℕ
  pub display_scan_bss_limit : ℕ
  pub disable_coexistence_priority_window_for_scan : ℕ
  pub raw_scan_enabled : Bool
  pub max_ps_poll_fail_count : ℕ
  pub stbc_enabled_in_ht : ℕ
  pub dynamic_bandwidth_signalling : ℕ
  pub dynamic_energy_detection : ℕ
  pub bluetooth_slot_time_ms : ℕ
  pub bluetooth_coexistence_disabled : ℕ
  pub abort_scan_on_bss_limit : Bool

-- `DataConfig::default`
abbrev pub default_data : DataConfig
default_data = record {
  rate_protection_type = 0;
  aggregation = true;
  wmm = true;
  max_tx_aggregation_sessions = 4;
  max_rx_aggregation_sessions = 4;
  max_tx_aggregation = 16;
  reorder_buffer_size = 16;
  max_rx_ampdu_size = 3;
}

-- `TemperatureBatteryConfig::default`
abbrev pub default_temperature_battery : TemperatureBatteryConfig
default_temperature_battery = record {
  temperature_calibration_enabled = 1;
  temperature_calibration_bitmap = 0x7b;
  battery_calibration_bitmap = 2 ^ 5;
  monitor_period_us = 1024 * 1024;
  very_low_voltage_threshold = 8;
  low_voltage_threshold = 12;
  high_voltage_threshold = 14;
  temperature_threshold = 40;
  battery_threshold = 0;
}

abbrev pub rx_pool : ℕ → ℕ → RxPoolConfig
rx_pool size count = record { buffer_size = size; buffer_count = count }

-- `SystemInitConfig::new`; 48 is the character `0`.
unfoldable pub new_system_init : List ℕ → List ℕ → SystemInitConfig
new_system_init mac_address rf_params = record {
  wdev_id = 0;
  sleep_enable = 0;
  hardware_bringup_time = 7300;
  software_bringup_time = 5000;
  beacon_timeout = 20000;
  calibrate_sleep_clock = 1;
  phy_calibration_bitmap = 0x3007b;
  mac_address = mac_address;
  rf_params = rf_params;
  rf_params_valid = true;
  rx_pools = rx_pool 1600 8 ∷ rx_pool 0 0 ∷ rx_pool 0 0 ∷ [];
  data_config = default_data;
  temperature_battery = default_temperature_battery;
  tcp_ip_checksum_offload = false;
  country_code = 48 ∷ 48 ∷ [];
  operating_band = 0;
  management_buffer_offload = true;
  feature_flags = 0;
  disable_beamforming = false;
  disconnect_timeout = 0;
  power_save_exit_strategy = 1;
  watchdog_timer = 0xffffff;
  keep_alive_enabled = false;
  keep_alive_period_s = 0;
  display_scan_bss_limit = 150;
  disable_coexistence_priority_window_for_scan = 0;
  raw_scan_enabled = false;
  max_ps_poll_fail_count = 10;
  stbc_enabled_in_ht = 0;
  dynamic_bandwidth_signalling = 0;
  dynamic_energy_detection = 0;
  bluetooth_slot_time_ms = 0;
  bluetooth_coexistence_disabled = 1;
  abort_scan_on_bss_limit = false;
}
