-- ===== src/Wpa2/Keys.antt =====
-- wpa2.rs: the key derivation, the RFC 3394 key unwrap, and the group key in the key data.
pub mod Gtk
pub mod Unwrap
pub mod Derive
use Prim.Native.Nat.{ℕ, zero, suc, ◌+◌, ◌-◌, ◌*◌, ◌/◌, ◌%◌, ◌^◌, min}
use embassy_zephyr_n_rf.Base.{
  List, [], ◌∷◌, ◌++◌, Bool, true, false, not, ◌&&◌, ◌||◌, ltb, leb, ◌==◌, in_range, if◌then◌else◌,
  Option, none, some, length, take, drop, replicate, Outcome, ok, err, panic, ◌>>=◌, ◌>>◌,
  reject_if, bytes_eq, u8_mod,
}
use embassy_zephyr_n_rf.Base.Bytes.{index, slice, slice_from}
use embassy_zephyr_n_rf.Wpa2.Types.{Wpa2Error, GroupKeyInstall, wpa2_ptk_len, max_key_data_len}
use embassy_zephyr_n_rf.Wpa2.Crypto.{Crypto}
use embassy_zephyr_n_rf.Wpa2.Frame.{EapolKeyFrame, kek, key_receive_sequence}

-- `left <= right` on byte arrays of one length
unfoldable pub bytes_leb : List ℕ → List ℕ → Bool
bytes_leb [] ys = true
bytes_leb (x ∷ xs) [] = false
bytes_leb (x ∷ xs) (y ∷ ys) = ltb x y || x == y && bytes_leb xs ys

-- The two sides one after the other, the smaller first.
unfoldable pub ordered : List ℕ → List ℕ → List ℕ
ordered left right = if bytes_leb left right then left ++ right else right ++ left

-- "Pairwise key expansion"
abbrev pub wpa2_prf_label : List ℕ
wpa2_prf_label =
    80 ∷ 97 ∷ 105 ∷ 114 ∷ 119 ∷ 105 ∷ 115 ∷ 101 ∷ 32 ∷ 107 ∷ 101 ∷ 121 ∷ 32 ∷ 101 ∷ 120 ∷ 112 ∷ 97
    ∷ 110 ∷ 115 ∷ 105 ∷ 111 ∷ 110 ∷ []

-- `^` on bytes, by `n` binary digits
unfoldable pub xor_bits : ℕ → ℕ → ℕ → ℕ
xor_bits zero a b = 0
xor_bits (suc n) a b = (a + b) % 2 + xor_bits n (a / 2) (b / 2) * 2

unfoldable pub xor_bytes : List ℕ → List ℕ → List ℕ
xor_bytes [] bs = []
xor_bytes (a ∷ as') [] = []
xor_bytes (a ∷ as') (b ∷ bs) = xor_bits 8 a b ∷ xor_bytes as' bs

-- `to_be_bytes` of a `u64`
unfoldable pub u64_be_bytes : ℕ → List ℕ
u64_be_bytes x =
    x / 2 ^ 56 % u8_mod
    ∷ x / 2 ^ 48 % u8_mod
    ∷ x / 2 ^ 40 % u8_mod
    ∷ x / 2 ^ 32 % u8_mod
    ∷ x / 2 ^ 24 % u8_mod
    ∷ x / 2 ^ 16 % u8_mod
    ∷ x / 2 ^ 8 % u8_mod
    ∷ x % u8_mod
    ∷ []

-- `out[start..start + 8].copy_from_slice(part)`
unfoldable pub replace_part : ℕ → List ℕ → List ℕ → List ℕ
replace_part start part out = take start out ++ (part ++ drop (start + 8) out)

module _ (crypto : Crypto) where
  -- `Pmk::derive`
  unfoldable pub derive : List ℕ → List ℕ → Outcome Wpa2Error (List ℕ)
  derive passphrase ssid = do
    reject_if (not (in_range 8 63 (length passphrase))) Wpa2Error.invalid_passphrase_length
    reject_if (length ssid == 0 || ltb 32 (length ssid)) Wpa2Error.invalid_ssid_length
    ok (crypto.pbkdf2_hmac_sha1 passphrase ssid 4096 32)

  -- The loop of `derive_ptk`: at most `rounds` further blocks.
  unfoldable pub expand : List ℕ → List ℕ → ℕ → ℕ → List ℕ → List ℕ
  expand pmk context zero counter bytes = bytes
  expand pmk context (suc rounds) counter bytes =
      let block = crypto.hmac_sha1 pmk (wpa2_prf_label ++ 0 ∷ context ++ counter ∷ []) in
      let count = min (length block) (wpa2_ptk_len - length bytes) in
      let rest = expand pmk context rounds ((counter + 1) % u8_mod) (bytes ++ take count block) in
      if ltb (length bytes) wpa2_ptk_len then rest else bytes

  -- The arguments are the addresses and nonces, the authenticator's first.
  unfoldable pub derive_ptk : List ℕ → List ℕ → List ℕ → List ℕ → List ℕ → List ℕ
  derive_ptk pmk authenticator_address supplicant_address authenticator_nonce supplicant_nonce =
      expand pmk
        (ordered authenticator_address supplicant_address
          ++ ordered authenticator_nonce supplicant_nonce)
        wpa2_ptk_len 0 []

  -- The body of the loops of `unwrap_key_blocks`, on the register and the blocks.
  unfoldable pub unwrap_block :
      List ℕ → ℕ → ℕ → ℕ → List ℕ × List ℕ → Outcome Wpa2Error (List ℕ × List ℕ)
  unwrap_block key n round i (a, out) = do
    part ← slice out ((i - 1) * 8) ((i - 1) * 8 + 8)
    let block = crypto.aes128_decrypt key (xor_bytes a (u64_be_bytes (n * round + i)) ++ part)
    ok (take 8 block, replace_part ((i - 1) * 8) (take 8 (drop 8 block)) out)

  -- `index` from the given one down to 1
  unfoldable pub unwrap_indices :
      List ℕ → ℕ → ℕ → ℕ → List ℕ × List ℕ → Outcome Wpa2Error (List ℕ × List ℕ)
  unwrap_indices key n round zero st = ok st
  unwrap_indices key n round (suc i) st = do
    st' ← unwrap_block key n round (suc i) st
    unwrap_indices key n round i st'

  -- `round` from one below the given one down to 0
  unfoldable pub unwrap_rounds :
      List ℕ → ℕ → ℕ → List ℕ × List ℕ → Outcome Wpa2Error (List ℕ × List ℕ)
  unwrap_rounds key n zero st = ok st
  unwrap_rounds key n (suc round) st = do
    st' ← unwrap_indices key n round n st
    unwrap_rounds key n round st'

  unfoldable pub unwrap_key_blocks :
      List ℕ → ℕ → List ℕ × List ℕ → Outcome Wpa2Error (List ℕ × List ℕ)
  unwrap_key_blocks key n st = unwrap_rounds key n 6 st

-- The second argument is the length of the buffer for the plain data.
unfoldable pub validate_wrapped_key_lengths : List ℕ → ℕ → Outcome Wpa2Error ℕ
validate_wrapped_key_lengths encrypted out_len = do
  reject_if (ltb (length encrypted) 24 || not (length encrypted % 8 == 0))
      Wpa2Error.invalid_encrypted_key_data
  reject_if (ltb out_len (length encrypted - 8)) Wpa2Error.output_too_small
  ok (length encrypted - 8)

abbrev pub aes_key_wrap_iv : List ℕ
aes_key_wrap_iv = replicate 8 0xa6

-- The plain data is the result, in place of a buffer and a length.
unfoldable pub aes_key_unwrap : Crypto → List ℕ → List ℕ → ℕ → Outcome Wpa2Error (List ℕ)
aes_key_unwrap crypto key encrypted out_len = do
  plain_len ← validate_wrapped_key_lengths encrypted out_len
  a ← slice encrypted 0 8
  out ← slice_from encrypted 8
  (a', out') ← unwrap_key_blocks crypto key (plain_len / 8) (a, out)
  reject_if (not (bytes_eq a' aes_key_wrap_iv)) Wpa2Error.key_unwrap_integrity
  ok out'

pub record GtkKde : Type 0 where
  pub key_index : ℕ
  pub key : List ℕ

abbrev pub gtk_kde_oui_type : List ℕ
gtk_kde_oui_type = 0x00 ∷ 0x0f ∷ 0xac ∷ 0x01 ∷ []

unfoldable pub starts_with : List ℕ → List ℕ → Bool
starts_with xs [] = true
starts_with [] (p ∷ ps) = false
starts_with (x ∷ xs) (p ∷ ps) = x == p && starts_with xs ps

-- The end of `take_kde`, with the length of the element.
unfoldable pub take_body : List ℕ → ℕ → ℕ → ℕ → Outcome Wpa2Error (Option (ℕ × List ℕ × ℕ))
take_body bytes offset element_id len = if len == 0 then ok none else do
  reject_if (ltb (length bytes - (offset + 2)) len) Wpa2Error.missing_group_key
  body ← slice bytes (offset + 2) (offset + 2 + len)
  ok (some (element_id, body, offset + 2 + len))

-- The end of `take_kde`, with the identifier of the element.
unfoldable pub take_element : List ℕ → ℕ → ℕ → Outcome Wpa2Error (Option (ℕ × List ℕ × ℕ))
take_element bytes offset element_id = if element_id == 0 then ok none else do
  reject_if (ltb (length bytes - offset) 2) Wpa2Error.missing_group_key
  len ← index bytes (offset + 1)
  take_body bytes offset element_id len

-- The element, and the offset behind it.
unfoldable pub take_kde : List ℕ → ℕ → Outcome Wpa2Error (Option (ℕ × List ℕ × ℕ))
take_kde bytes offset =
    if leb (length bytes) offset
    then ok none
    else do element_id ← index bytes offset; take_element bytes offset element_id

unfoldable pub parse_gtk_body : List ℕ → Outcome Wpa2Error GtkKde
parse_gtk_body body = do
  reject_if (not (length body == 22)) Wpa2Error.invalid_encrypted_key_data
  key_id ← index body 4
  reserved ← index body 5
  reject_if (not (key_id / 8 % 2 ^ 5 == 0) || not (reserved == 0))
      Wpa2Error.invalid_encrypted_key_data
  key ← slice_from body 6
  ok (record { key_index = key_id % 4; key = key })

-- The body of the loop of `parse_gtk_kde`; `rest` is the next iteration, from an offset.
unfoldable pub scan_kde :
    (ℕ → Outcome Wpa2Error GtkKde) → Option (ℕ × List ℕ × ℕ) → Outcome Wpa2Error GtkKde
scan_kde rest none = err Wpa2Error.missing_group_key
scan_kde rest (some (element_id, body, next)) =
    if element_id == 0xdd && starts_with body gtk_kde_oui_type
    then parse_gtk_body body
    else rest next

-- The loop of `parse_gtk_kde`, for at most `rounds` iterations; out of rounds counts as a panic.
unfoldable pub search_gtk : ℕ → List ℕ → ℕ → Outcome Wpa2Error GtkKde
search_gtk zero bytes offset = panic
search_gtk (suc rounds) bytes offset = do
  taken ← take_kde bytes offset
  scan_kde (λ next. search_gtk rounds bytes next) taken

unfoldable pub parse_gtk_kde : List ℕ → Outcome Wpa2Error GtkKde
parse_gtk_kde bytes = search_gtk (suc (length bytes)) bytes 0

unfoldable pub group_key_install :
    Crypto → EapolKeyFrame → List ℕ → Outcome Wpa2Error GroupKeyInstall
group_key_install crypto frame ptk = do
  plain ← aes_key_unwrap crypto (kek ptk) frame.key_data max_key_data_len
  gtk ← parse_gtk_kde plain
  ok record {
    key_index = gtk.key_index;
    key = gtk.key;
    receive_sequence = key_receive_sequence frame;
  }
