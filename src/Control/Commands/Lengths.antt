-- ===== src/Control/Commands/Lengths.antt =====
-- control.rs: how many bytes the body of each command takes.
use Prim.Native.Nat.{ℕ, ◌≤◌, ◌<◌}
use embassy_zephyr_n_rf.Base.Tests.{le→ltb_not}
use embassy_zephyr_n_rf.Base.{replicate}
use embassy_zephyr_n_rf.Base.{unwrap_or}
use embassy_zephyr_n_rf.Base.{◌≡◌, refl, List, Option, none, some, Bool, ok, arith, length}
use embassy_zephyr_n_rf.Protocol.Writer.Appends.{
  Takes, >>-Takes, Takes-resize, write_bytes-Takes, write_u8-Takes, write_u16-Takes,
  write_u32-Takes, write_u64-Takes, write_zeros-Takes, write_fixed-Takes, write_fixed_u32-Takes,
}
use embassy_zephyr_n_rf.Control.Types.{
  KeyConfig, AuthenticationRequest, AssociationSecurity, AssociationRequest,
}
use embassy_zephyr_n_rf.Control.Encode.Lengths.{
  IsOptionalKey, IsKey, validate_ssid-accepts, validate_ie-accepts, validate_key-accepts,
  write_ssid-Takes, write_ie-Takes, write_key_info-Takes,
}
use embassy_zephyr_n_rf.Control.Commands.{
  write_key_command, write_interface_state, write_regulatory, write_station_authorized_flags,
  write_station_authorized_body,
}
use embassy_zephyr_n_rf.Control.Commands.Associate.{
  validate_association_security_counts, validate_optional_security, validate_association_request,
  write_association_validity, write_association_frequency, write_association_header, pairwise_of,
  akm_of, rsn_of, write_association_group_and_akm, write_association_ciphers,
  write_association_network_names, write_association_network, write_association_control_port,
  write_association_previous_bssid, write_association_body,
}
use embassy_zephyr_n_rf.Control.Commands.Authenticate.{
  validate_optional_key, validate_authentication_request, write_authentication_header,
  write_authentication_security, write_authentication_sae, write_authentication_bss_observation,
  write_authentication_bss_timing, write_authentication_bss, write_authentication_body,
}

-- An authentication request within the limits of the firmware's structure.
pub record IsAuthentication (r : AuthenticationRequest) : Type 0 where
  pub ssid_len : length r.ssid ≤ 32
  pub ie_len : length r.information_elements ≤ 400
  pub bss_ie_len : length r.bss.information_elements ≤ 400
  pub sae_len : length r.sae_data ≤ 256
  pub bssid_len : length r.bssid ≡ 6
  pub key : IsOptionalKey r.key

validate_optional_key-accepts :
    (key : Option KeyConfig) → IsOptionalKey key → validate_optional_key key ≡ ok tt
unfolding validate_optional_key
validate_optional_key-accepts none k = refl
validate_optional_key-accepts (some key) k = validate_key-accepts key k

pub validate_authentication_request-accepts :
    (r : AuthenticationRequest) → IsAuthentication r → validate_authentication_request r ≡ ok tt
unfolding validate_authentication_request
validate_authentication_request-accepts r v = rw (
  validate_ssid-accepts r.ssid v.ssid_len,
  validate_ie-accepts r.information_elements v.ie_len,
  validate_ie-accepts r.bss.information_elements v.bss_ie_len,
  le→ltb_not (length r.sae_data) 256 v.sae_len,
  validate_optional_key-accepts r.key v.key,
)

write_authentication_header-Takes :
    (r : AuthenticationRequest) → Takes 14 (write_authentication_header r)
unfolding write_authentication_header
write_authentication_header-Takes r =
    >>-Takes (write_u32-Takes _)
      (>>-Takes (write_u32-Takes _) (>>-Takes (write_u16-Takes _) (write_u32-Takes _)))

write_authentication_bss-Takes :
    (r : AuthenticationRequest) → IsAuthentication r → Takes 426 (write_authentication_bss r)
unfolding write_authentication_bss write_authentication_bss_observation
    write_authentication_bss_timing
write_authentication_bss-Takes r v =
    >>-Takes
      (>>-Takes (write_u32-Takes _) (
        >>-Takes (write_u32-Takes _)
          (>>-Takes (write_u32-Takes _) (write_ie-Takes r.bss.information_elements v.bss_ie_len))))
      (>>-Takes (write_u16-Takes _) (>>-Takes (write_u16-Takes _) (write_u64-Takes _)))

pub write_authentication_body-Takes :
    (r : AuthenticationRequest) → IsAuthentication r → Takes 1676 (write_authentication_body r)
unfolding write_authentication_body write_authentication_security write_authentication_sae
write_authentication_body-Takes r v = >>-Takes (write_authentication_header-Takes r) (
    >>-Takes
      (>>-Takes (write_key_info-Takes r.key v.key) (
        >>-Takes (write_ssid-Takes r.ssid v.ssid_len)
          (write_ie-Takes r.information_elements v.ie_len)))
      (>>-Takes
        (>>-Takes (write_u32-Takes _) (
          >>-Takes (write_fixed-Takes r.sae_data 256 v.sae_len)
            (Takes-resize v.bssid_len (write_bytes-Takes r.bssid))))
        (write_authentication_bss-Takes r v)))

-- The security of an association within the limits.
pub record IsSecurity (s : AssociationSecurity) : Type 0 where
  pub rsn_len : length s.rsn_information_element ≤ 400
  pub pairwise_some : 0 < length s.pairwise_ciphers
  pub pairwise_len : length s.pairwise_ciphers ≤ 7
  pub akm_some : 0 < length s.akm_suites
  pub akm_len : length s.akm_suites ≤ 2

abbrev pub IsOptionalSecurity : Option AssociationSecurity → Type 0
IsOptionalSecurity none = Unit {0}
IsOptionalSecurity (some s) = IsSecurity s

abbrev pub IsOptionalAddress : Option (List ℕ) → Type 0
IsOptionalAddress none = Unit {0}
IsOptionalAddress (some address) = length address ≡ 6

-- An association request within the limits of the firmware's structure.
pub record IsAssociation (r : AssociationRequest) : Type 0 where
  pub ssid_len : length r.ssid ≤ 32
  pub bssid_len : length r.bssid ≡ 6
  pub security : IsOptionalSecurity r.security
  pub previous : IsOptionalAddress r.previous_bssid

validate_optional_security-accepts :
    (s : Option AssociationSecurity) → IsOptionalSecurity s → validate_optional_security s ≡ ok tt
unfolding validate_optional_security validate_association_security_counts
validate_optional_security-accepts none v = refl
validate_optional_security-accepts (some s) v =
    rw (validate_ie-accepts s.rsn_information_element v.rsn_len)
      (ground (arith, v.pairwise_some, v.pairwise_len, v.akm_some, v.akm_len))

pub validate_association_request-accepts :
    (r : AssociationRequest) → IsAssociation r → validate_association_request r ≡ ok tt
unfolding validate_association_request
validate_association_request-accepts r v = rw (
  validate_ssid-accepts r.ssid v.ssid_len,
  validate_optional_security-accepts r.security v.security,
)

security_bounds :
    (s : Option AssociationSecurity)
    → IsOptionalSecurity s
    → (length (pairwise_of s) ≤ 7) × (length (akm_of s) ≤ 2) × (length (rsn_of s) ≤ 400)
security_bounds none v = (omega arith, omega arith, omega arith)
security_bounds (some s) v = (v.pairwise_len, v.akm_len, v.rsn_len)

write_association_header-Takes : (r : AssociationRequest) → Takes 20 (write_association_header r)
unfolding write_association_header write_association_validity write_association_frequency
write_association_header-Takes r =
    >>-Takes (>>-Takes (write_u32-Takes _) (write_u32-Takes _))
      (>>-Takes (write_u32-Takes _) (>>-Takes (write_u32-Takes _) (write_u32-Takes _)))

write_association_ciphers-Takes :
    (s : Option AssociationSecurity) → IsOptionalSecurity s → Takes 52 (write_association_ciphers s)
unfolding write_association_ciphers write_association_group_and_akm
write_association_ciphers-Takes s v =
    let (p, a, _) = security_bounds s v in
    >>-Takes (write_u32-Takes _) (
      >>-Takes (write_fixed_u32-Takes (pairwise_of s) 7 p) (
        >>-Takes (write_u32-Takes _) (
          >>-Takes (write_u32-Takes _)
            (>>-Takes (write_fixed_u32-Takes (akm_of s) 2 a) (write_u32-Takes _)))))

write_association_network-Takes :
    (r : AssociationRequest) → IsAssociation r → Takes 453 (write_association_network r)
unfolding write_association_network write_association_network_names
write_association_network-Takes r v =
    let (_, _, i) = security_bounds r.security v.security in
    >>-Takes (write_u32-Takes _) (
      >>-Takes (write_u16-Takes _) (
        >>-Takes (Takes-resize v.bssid_len (write_bytes-Takes r.bssid)) (
          >>-Takes (write_bytes-Takes _) (
            >>-Takes (write_ssid-Takes r.ssid v.ssid_len) (write_ie-Takes (rsn_of r.security) i)))))

write_association_control_port-Takes : Takes 1034 write_association_control_port
unfolding write_association_control_port
write_association_control_port-Takes = >>-Takes (write_u32-Takes _) (
    >>-Takes (write_u16-Takes _) (
      >>-Takes (write_zeros-Takes _)
        (>>-Takes (write_u16-Takes _) (>>-Takes (write_u8-Takes _) (write_u8-Takes _)))))

pub address_len :
    (a : Option (List ℕ)) → IsOptionalAddress a → length (unwrap_or a (replicate 6 0)) ≡ 6
address_len none v = refl
address_len (some a) v = v

pub write_association_body-Takes :
    (r : AssociationRequest) → IsAssociation r → Takes 1573 (write_association_body r)
unfolding write_association_body write_association_previous_bssid
write_association_body-Takes r v =
    let six = address_len r.previous_bssid v.previous in
    >>-Takes (write_association_header-Takes r) (
      >>-Takes (write_association_ciphers-Takes r.security v.security) (
        >>-Takes (write_association_network-Takes r v) (
          >>-Takes write_association_control_port-Takes (
            >>-Takes (Takes-resize six (write_bytes-Takes _))
              (>>-Takes (write_u16-Takes _) (Takes-resize six (write_bytes-Takes _)))))))

pub write_key_command-Takes :
    (peer : Option (List ℕ)) (key : KeyConfig)
    → IsOptionalAddress peer
    → IsKey key
    → Takes 545 (write_key_command peer key)
unfolding write_key_command
write_key_command-Takes peer key a k = >>-Takes (write_u32-Takes _) (
    >>-Takes (write_key_info-Takes (some key) k)
      (Takes-resize (address_len peer a) (write_bytes-Takes _)))

pub write_interface_state-Takes :
    (up : Bool) (firmware_index : ℕ) → Takes 5 (write_interface_state up firmware_index)
unfolding write_interface_state
write_interface_state-Takes up firmware_index = >>-Takes (write_u32-Takes _) (write_u8-Takes _)

pub write_regulatory-Takes :
    (country : List ℕ) (hint : ℕ) (force : Bool)
    → length country ≡ 2
    → Takes 10 (write_regulatory country hint force)
unfolding write_regulatory
write_regulatory-Takes country hint force h =
    >>-Takes (write_u32-Takes _)
      (>>-Takes (write_u32-Takes _) (Takes-resize h (write_bytes-Takes country)))

pub write_station_authorized_body-Takes :
    (peer : List ℕ) (authorized : Bool)
    → length peer ≡ 6
    → Takes 793 (write_station_authorized_body peer authorized)
unfolding write_station_authorized_body write_station_authorized_flags
write_station_authorized_body-Takes peer authorized h =
    >>-Takes
      (>>-Takes (write_u32-Takes _)
        (>>-Takes (write_zeros-Takes _) (>>-Takes (write_u32-Takes _) (write_u32-Takes _))))
      (>>-Takes (write_zeros-Takes _)
        (>>-Takes (Takes-resize h (write_bytes-Takes peer)) (write_zeros-Takes _)))
