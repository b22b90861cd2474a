-- ===== src/Wpa2/Rsn.antt =====
-- wpa2.rs: the checks on the RSN information element that Message 2 carries.
use Prim.Native.Nat.{ℕ, ◌+◌, ◌-◌}
use embassy_zephyr_n_rf.Base.{
  List, [], ◌∷◌, Bool, true, false, not, ◌&&◌, ◌||◌, leb, ◌==◌, in_range, bit_set, if◌then◌else◌,
  length, take, drop, Outcome, ok, ◌>>=◌, ◌>>◌, reject_if, ok_or, checked_add, checked_mul,
  bytes_eq, Option, none, some,
}
use embassy_zephyr_n_rf.Base.Bytes.{index, slice_from, le_u16}
use embassy_zephyr_n_rf.Wpa2.Types.{Wpa2Error, max_rsn_ie_len}

abbrev pub rsn_cipher_ccmp_suite : List ℕ
rsn_cipher_ccmp_suite = 0x00 ∷ 0x0f ∷ 0xac ∷ 0x04 ∷ []

abbrev pub rsn_akm_psk_suite : List ℕ
rsn_akm_psk_suite = 0x00 ∷ 0x0f ∷ 0xac ∷ 0x02 ∷ []

-- `bytes.get(a..b)`
unfoldable pub get_range : List ℕ → ℕ → ℕ → Option (List ℕ)
get_range bytes a b =
    if leb a b && leb b (length bytes) then some (take (b - a) (drop a bytes)) else none

-- The readers return the offset behind what they read.
unfoldable pub take_bytes : List ℕ → ℕ → ℕ → Outcome Wpa2Error (List ℕ × ℕ)
take_bytes bytes offset count = do
  end ← ok_or (checked_add offset count) Wpa2Error.invalid_rsn_information_element
  value ← ok_or (get_range bytes offset end) Wpa2Error.invalid_rsn_information_element
  ok (value, end)

unfoldable pub take_u16 : List ℕ → ℕ → Outcome Wpa2Error (ℕ × ℕ)
take_u16 bytes offset = do
  (value, end) ← take_bytes bytes offset 2
  b0 ← index value 0
  b1 ← index value 1
  ok (le_u16 b0 b1, end)

unfoldable pub take_suite : List ℕ → ℕ → Outcome Wpa2Error (List ℕ × ℕ)
take_suite bytes offset = take_bytes bytes offset 4

unfoldable pub take_suite_bytes : List ℕ → ℕ → ℕ → Outcome Wpa2Error (List ℕ × ℕ)
take_suite_bytes bytes offset count = do
  byte_len ← ok_or (checked_mul count 4) Wpa2Error.invalid_rsn_information_element
  take_bytes bytes offset byte_len

unfoldable pub take_nonzero_suite_count : List ℕ → ℕ → Outcome Wpa2Error (ℕ × ℕ)
take_nonzero_suite_count bytes offset = do
  (count, end) ← take_u16 bytes offset
  reject_if (count == 0) Wpa2Error.invalid_rsn_information_element
  ok (count, end)

-- `suites.chunks_exact(4).any(|suite| suite == required)`
unfoldable pub any_suite : List ℕ → List ℕ → Bool
any_suite required (a ∷ b ∷ c ∷ d ∷ rest) =
    bytes_eq (a ∷ b ∷ c ∷ d ∷ []) required || any_suite required rest
any_suite required _ = false

unfoldable pub take_required_suite_list : List ℕ → ℕ → List ℕ → Outcome Wpa2Error ℕ
take_required_suite_list bytes offset required = do
  (count, start) ← take_nonzero_suite_count bytes offset
  (suites, end) ← take_suite_bytes bytes start count
  reject_if (not (any_suite required suites)) Wpa2Error.invalid_rsn_information_element
  ok end

unfoldable pub validate_fixed_rsn_fields : List ℕ → ℕ → Outcome Wpa2Error ℕ
validate_fixed_rsn_fields body offset = do
  (version, o1) ← take_u16 body offset
  reject_if (not (version == 1)) Wpa2Error.invalid_rsn_information_element
  (suite, o2) ← take_suite body o1
  reject_if (not (bytes_eq suite rsn_cipher_ccmp_suite)) Wpa2Error.invalid_rsn_information_element
  ok o2

unfoldable pub validate_rsn_capabilities : List ℕ → ℕ → Outcome Wpa2Error ℕ
validate_rsn_capabilities bytes offset = do
  (capabilities, end) ← take_u16 bytes offset
  reject_if (bit_set capabilities 6 || bit_set capabilities 7)
      Wpa2Error.unsupported_rsn_capabilities
  ok end

unfoldable pub validate_optional_pmkid : List ℕ → ℕ → Outcome Wpa2Error (Unit {0})
validate_optional_pmkid bytes offset = if offset == length bytes then ok tt else do
  (pmkid_count, end) ← take_u16 bytes offset
  reject_if (not (pmkid_count == 0)) Wpa2Error.unsupported_rsn_capabilities
  reject_if (not (end == length bytes)) Wpa2Error.unsupported_rsn_capabilities

unfoldable pub validate_optional_rsn_fields : List ℕ → ℕ → Outcome Wpa2Error (Unit {0})
validate_optional_rsn_fields bytes offset =
    if offset == length bytes
    then ok tt
    else do end ← validate_rsn_capabilities bytes offset; validate_optional_pmkid bytes end

unfoldable pub rsn_body : List ℕ → Outcome Wpa2Error (List ℕ)
rsn_body rsn_ie = do
  reject_if (not (in_range 4 max_rsn_ie_len (length rsn_ie)))
      Wpa2Error.invalid_rsn_information_element
  element_id ← index rsn_ie 0
  reject_if (not (element_id == 0x30)) Wpa2Error.invalid_rsn_information_element
  len ← index rsn_ie 1
  reject_if (not (len + 2 == length rsn_ie)) Wpa2Error.invalid_rsn_information_element
  slice_from rsn_ie 2

unfoldable pub validate_rsn_ie : List ℕ → Outcome Wpa2Error (Unit {0})
validate_rsn_ie rsn_ie = do
  body ← rsn_body rsn_ie
  o1 ← validate_fixed_rsn_fields body 0
  o2 ← take_required_suite_list body o1 rsn_cipher_ccmp_suite
  o3 ← take_required_suite_list body o2 rsn_akm_psk_suite
  validate_optional_rsn_fields body o3

unfoldable pub is_zero_nonce : List ℕ → Bool
is_zero_nonce [] = true
is_zero_nonce (b ∷ bs) = b == 0 && is_zero_nonce bs

unfoldable pub validate_supplicant_nonce : List ℕ → Outcome Wpa2Error (Unit {0})
validate_supplicant_nonce nonce = reject_if (is_zero_nonce nonce) Wpa2Error.invalid_supplicant_nonce
