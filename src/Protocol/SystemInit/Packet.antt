-- ===== src/Protocol/SystemInit/Packet.antt =====
-- protocol.rs: the packet that the settings become.
use Prim.Native.Nat.{ℕ, zero, suc, ◌%◌, ◌≤◌, ◌<◌, ◌^◌}
use embassy_zephyr_n_rf.Base.{
  false, append_assoc, length-append, sym, List, [], ◌∷◌, ◌++◌, ◌≡◌, refl, ◌∙◌, ap, arith, ok, err,
  length, take, drop, u32_at, u32_bytes, ◌⊎◌, inl, inr, u8_mod, take_append,
}
use embassy_zephyr_n_rf.Protocol.Types.{ProtocolError}
use embassy_zephyr_n_rf.Protocol.Message.{parse_host_message, bool_u32}
use embassy_zephyr_n_rf.Protocol.Writer.Appends.{
  appended, Appends, >>-Appends, write_bytes-Appends, write_u32-Appends, write_u8-Appends,
}
use embassy_zephyr_n_rf.Protocol.SystemInit.Config.{SystemInitConfig}
use embassy_zephyr_n_rf.Protocol.SystemInit.Lengths.{
  write_system_init_back-Takes, write_system_init_middle-Takes, write_pools-Takes, IsSystemInit,
}
use embassy_zephyr_n_rf.Protocol.SystemInit.Limits.{
  rx_bytes, Within, Beyond, Within-cases, validate_system_init-accepts,
  validate_system_init-rejects,
}
use embassy_zephyr_n_rf.Protocol.Message.RoundTrip.{parse_host_message-encode_host_message}
use embassy_zephyr_n_rf.Protocol.SystemInit.{
  HostMessageType, new_writer, write_system_init_body, exact, encode_system_init,
  validate_system_init, write_system_init_identity, write_system_init_timing,
  write_system_init_radio, write_pools, write_system_init_rx_pools, write_system_init_front,
}

-- The command's number and length, and the address and the radio parameters in their places.
pub record IsInitBody (config : SystemInitConfig) (body : List ℕ) : Type 0 where
  pub len : length body ≡ 366
  pub command : u32_at body 0 ≡ 0
  pub declared : u32_at body 4 ≡ 366
  pub mac : take 6 (drop 36 body) ≡ config.mac_address
  pub rf : take 200 (drop 42 body) ≡ config.rf_params

abbrev head_bytes : SystemInitConfig → List ℕ
head_bytes config =
    u32_bytes 0 ++ (u32_bytes 366 ++ (u32_bytes config.wdev_id ++ u32_bytes config.sleep_enable))

abbrev timing_bytes : SystemInitConfig → List ℕ
timing_bytes config =
    u32_bytes config.hardware_bringup_time
    ++ (u32_bytes config.software_bringup_time
        ++ (u32_bytes config.beacon_timeout ++ u32_bytes config.calibrate_sleep_clock))

abbrev radio_bytes : SystemInitConfig → List ℕ
radio_bytes config =
    u32_bytes config.phy_calibration_bitmap
    ++ (config.mac_address ++ (config.rf_params ++ (bool_u32 config.rf_params_valid % u8_mod ∷ [])))

write_system_init_front-Appends :
    (config : SystemInitConfig) (pools : List ℕ)
    → Appends pools (write_pools config.rx_pools)
    → Appends
        (head_bytes config ++ (timing_bytes config ++ (radio_bytes config ++ pools)))
        (write_system_init_front config)
unfolding write_system_init_front write_system_init_identity write_system_init_timing
    write_system_init_radio write_system_init_rx_pools
write_system_init_front-Appends config pools p =
    let word = write_u32-Appends in
    >>-Appends _ _ _ _
      (>>-Appends _ _ _ _ (word 0) (
        >>-Appends _ _ _ _ (word 366)
          (>>-Appends _ _ _ _ (word config.wdev_id) (word config.sleep_enable))))
      (>>-Appends _ _ _ _
        (>>-Appends _ _ _ _ (word config.hardware_bringup_time) (
          >>-Appends _ _ _ _ (word config.software_bringup_time)
            (>>-Appends _ _ _ _ (word config.beacon_timeout) (word config.calibrate_sleep_clock))))
        (>>-Appends _ _ _ _
          (>>-Appends _ _ _ _ (word config.phy_calibration_bitmap) (
            >>-Appends _ _ _ _ (write_bytes-Appends config.mac_address)
              (>>-Appends _ _ _ _ (write_bytes-Appends config.rf_params) (write_u8-Appends _))))
          p))

take-drop_skip :
    (n k : ℕ) (xs ys zs : List ℕ)
    → length xs ≡ n
    → length ys ≡ k
    → take k (drop n (xs ++ (ys ++ zs))) ≡ ys
take-drop_skip zero k [] ys zs h e = rw (sym e) (take_append ys zs)
take-drop_skip (suc n) k [] ys zs h e = absurd (omega arith)
take-drop_skip zero k (x ∷ xs) ys zs h e = absurd (omega arith)
take-drop_skip (suc n) k (x ∷ xs) ys zs h e = take-drop_skip n k xs ys zs (omega arith) e

radio_tail :
    (mac rf flag pools rest : List ℕ)
    → ((mac ++ (rf ++ flag)) ++ pools) ++ rest ≡ mac ++ (rf ++ (flag ++ (pools ++ rest)))
radio_tail mac rf flag pools rest =
    append_assoc (mac ++ (rf ++ flag)) pools rest
    ∙ append_assoc mac (rf ++ flag) (pools ++ rest)
    ∙ ap (λ t. mac ++ t) (append_assoc rf flag (pools ++ rest))

front-IsInitBody :
    (config : SystemInitConfig) (pools rest : List ℕ)
    → IsSystemInit config
    → length pools ≡ 12
    → length rest ≡ 111
    → IsInitBody config
        ((head_bytes config ++ (timing_bytes config ++ (radio_bytes config ++ pools))) ++ rest)
front-IsInitBody config pools rest v p r =
    let flag = bool_u32 config.rf_params_valid % u8_mod ∷ [] in
    let tail = radio_tail config.mac_address config.rf_params flag pools rest in
    let behind = flag ++ (pools ++ rest) in
    record {
      len = omega (
        arith,
        length-append pools rest,
        length-append config.rf_params behind,
        length-append config.mac_address (config.rf_params ++ behind),
        ap length tail,
        v.mac_len,
        v.rf_len,
      );
      command = refl;
      declared = refl;
      mac =
          ap (take 6) tail
          ∙ take-drop_skip 0 6 [] config.mac_address (config.rf_params ++ behind) refl v.mac_len;
      rf =
          ap (λ t. take 200 (drop 6 t)) tail
          ∙ take-drop_skip 6 200 config.mac_address config.rf_params behind v.mac_len v.rf_len;
    }

-- The command is encoded into 378 bytes, which are parsed as a system message with this body.
abbrev pub Received : ℕ → SystemInitConfig → List ℕ → Type 0
Received out_len config rest =
    (bytes : List ℕ) × (encode_system_init out_len config ≡ ok bytes)
    × (length bytes ≡ 378)
    × (body : List ℕ) × IsInitBody config body
    × (parse_host_message (bytes ++ rest)
        ≡ ok record { resubmit = false; message_type = HostMessageType.system; payload = body })

exact-full :
    (body : List ℕ)
    → length body ≡ 366
    → exact 366 (appended body (new_writer 366), ok tt) ≡ ok body
exact-full body h = rw h refl

body_written :
    (config : SystemInitConfig)
    → IsSystemInit config
    → (body : List ℕ) × IsInitBody config body
      × (exact 366 (write_system_init_body config (new_writer 366)) ≡ ok body)
unfolding write_system_init_body Appends
body_written config v =
    let pools = write_pools-Takes config.rx_pools in
    let middle = write_system_init_middle-Takes config in
    let back = write_system_init_back-Takes config v in
    let front = write_system_init_front-Appends config pools.bytes pools.appends in
    let behind = >>-Appends _ _ _ _ middle.appends back.appends in
    let rest = middle.bytes ++ back.bytes in
    let shape =
      front-IsInitBody config pools.bytes rest v (omega (arith, pools.size, v.pools_len))
        (omega (arith, length-append middle.bytes back.bytes, middle.size, back.size)) in
    let written =
      >>-Appends _ _ _ _ front behind (new_writer 366) (omega (arith, shape.len)) (omega arith) in
    (_, shape, ap (exact 366) written ∙ exact-full _ shape.len)

encode_system_init-Received :
    (out_len : ℕ) (config : SystemInitConfig) (rest : List ℕ)
    → IsSystemInit config
    → validate_system_init config ≡ ok tt
    → 378 ≤ out_len
    → out_len < 2 ^ 32
    → Received out_len config rest
unfolding encode_system_init
encode_system_init-Received out_len config rest v a h k =
    let (body, shape, written) = body_written config v in
    let (bytes, encoded, size, parsed) =
      parse_host_message-encode_host_message out_len HostMessageType.system false body rest
        (omega (arith, shape.len)) k in
    (bytes, rw (a, written) encoded, omega (arith, shape.len), body, shape, parsed)

-- For settings whose arrays have the source's lengths, whose receive buffers have fewer than 2 ^
-- 32 bytes together, and a buffer of at least 378 bytes: either the receive buffers have at most
-- 128 KiB, the reorder buffer 1 to 64 entries and the AMPDU size is at most 3, and then the
-- command is encoded into 378 bytes, from which the parser of host messages, run on them and
-- whatever follows, reads a system message with a body of 366 bytes that starts with the command's
-- number and length and has the MAC address at byte 36 and the radio parameters at byte 42; or one
-- of these limits is exceeded, and encoding fails with `LimitExceeded`.
pub encode_system_init_checked :
    (out_len : ℕ) (config : SystemInitConfig) (rest : List ℕ)
    → IsSystemInit config
    → rx_bytes config.rx_pools < 2 ^ 32
    → 378 ≤ out_len
    → out_len < 2 ^ 32
    → (Within config × Received out_len config rest)
      ⊎ (Beyond config × (encode_system_init out_len config ≡ err ProtocolError.limit_exceeded))
unfolding encode_system_init
encode_system_init_checked out_len config rest v fits h k = elim (Within-cases config) [
  | inl w ↦ inl (
    w,
    encode_system_init-Received out_len config rest v (validate_system_init-accepts config fits w) h
        k,
  )
  | inr b ↦ inr (b, rw (validate_system_init-rejects config fits b) refl)
]
