-- ===== src/Wpa2/Frame/Parse.antt =====
-- wpa2.rs: what the parser of EAPOL-Key frames accepts.
use Prim.Native.Nat.{ℕ, ◌+◌, ◌-◌, ◌≤◌}
use embassy_zephyr_n_rf.Base.{◌↔◌, Returns}
use embassy_zephyr_n_rf.Base.Post.{Post-ok, Post-Returns}
use embassy_zephyr_n_rf.Base.{
  Bool-cases, sym, ==_iff, reject_if, ◌==◌, ◌≡◌, refl, List, not, ◌⊎◌, inl, inr, ok, ◌>>=◌, ◌>>◌,
  arith, length, get_or, drop, take_all, length-drop, index_lem,
}
use embassy_zephyr_n_rf.Base.Bytes.{be_u16, index_lem, slice_lem, slice}
use embassy_zephyr_n_rf.Base.Post.{Post, Post-bind}
use embassy_zephyr_n_rf.Wpa2.Types.{Wpa2Error}
use embassy_zephyr_n_rf.Wpa2.Frame.{
  EapolKeyFrame, parse, validate_eapol_size, validate_eapol_header, read_be_u16, eapol_total_length,
  eapol_key_data_end,
}

abbrev be_u16_at : List ℕ → ℕ → ℕ
be_u16_at bs i = be_u16 (get_or bs i 0) (get_or bs (i + 1) 0)

-- The layout of an EAPOL-Key frame of RSN.
pub record IsFrame (bytes : List ℕ) : Type 0 where
  pub long : 99 ≤ length bytes
  pub short : length bytes ≤ 512
  pub version : (get_or bytes 0 0 ≡ 1) ⊎ (get_or bytes 0 0 ≡ 2)
  pub packet_type : get_or bytes 1 0 ≡ 3
  pub descriptor : get_or bytes 4 0 ≡ 2
  pub body_len : 4 + be_u16_at bytes 2 ≡ length bytes
  pub key_data_len : 99 + be_u16_at bytes 97 ≡ length bytes

abbrev pub frame_of : List ℕ → EapolKeyFrame
frame_of bytes = record { bytes = bytes; key_info = be_u16_at bytes 5; key_data = drop 99 bytes }

read_be_u16_lem : (bs : List ℕ) (i : ℕ) → i + 2 ≤ length bs → read_be_u16 bs i ≡ ok (be_u16_at bs i)
unfolding read_be_u16
read_be_u16_lem bs i h = rw (index_lem bs i 0 (omega arith), index_lem bs (i + 1) 0 (omega arith))

slice_key_data :
    (bs : List ℕ) (n : ℕ)
    → 99 + n ≡ length bs
    → slice {E = Wpa2Error} bs 99 (99 + n) ≡ ok (drop 99 bs)
slice_key_data bs n h = rw (
  slice_lem {E = Wpa2Error} bs 99 (99 + n) (omega arith) (omega arith),
  take_all (99 + n - 99) (drop 99 bs) (omega (arith, length-drop 99 bs)),
)

abbrev IsSize : List ℕ → Type 0
IsSize bytes = (99 ≤ length bytes) × (length bytes ≤ 512)

abbrev IsHeader : List ℕ → Type 0
IsHeader bytes =
    ((get_or bytes 0 0 ≡ 1) ⊎ (get_or bytes 0 0 ≡ 2))
    × (get_or bytes 1 0 ≡ 3)
    × (get_or bytes 4 0 ≡ 2)

validate_eapol_size-IsSize : (bytes : List ℕ) → Post (λ _. IsSize bytes) (validate_eapol_size bytes)
unfolding validate_eapol_size
validate_eapol_size-IsSize bytes = ground arith

validate_eapol_header-IsHeader :
    (bytes : List ℕ) → IsSize bytes → Post (λ _. IsHeader bytes) (validate_eapol_header bytes)
unfolding validate_eapol_header
validate_eapol_header-IsHeader bytes h =
    rw
      (
        index_lem {E = Wpa2Error} bytes 0 0 (omega arith),
        index_lem {E = Wpa2Error} bytes 1 0 (omega arith),
        index_lem {E = Wpa2Error} bytes 4 0 (omega arith),
      )
      (ground arith)

eapol_total_length-Post :
    (bytes : List ℕ)
    → IsSize bytes
    → Post
        (λ total. (total ≡ length bytes) × (4 + be_u16_at bytes 2 ≡ length bytes))
        (eapol_total_length bytes)
unfolding eapol_total_length
eapol_total_length-Post bytes h = rw (read_be_u16_lem bytes 2 (omega arith)) (ground arith)

eapol_key_data_end-Post :
    (bytes : List ℕ)
    → IsSize bytes
    → Post (λ end. end ≡ 99 + be_u16_at bytes 97) (eapol_key_data_end bytes)
unfolding eapol_key_data_end
eapol_key_data_end-Post bytes h = rw (read_be_u16_lem bytes 97 (omega arith)) (ground arith)

abbrev pub Accepted : List ℕ → EapolKeyFrame → Type 0
Accepted bytes frame = IsFrame bytes × (frame ≡ frame_of bytes)

-- The end of the parser, behind its checks.
fields-Post :
    (bytes : List ℕ) (total end : ℕ)
    → IsSize bytes
    → IsHeader bytes
    → (total ≡ length bytes) × (4 + be_u16_at bytes 2 ≡ length bytes)
    → end ≡ 99 + be_u16_at bytes 97
    → Post (Accepted bytes) (do
      reject_if (not (end == total)) Wpa2Error.length_mismatch
      key_info ← read_be_u16 bytes 5
      key_data ← slice bytes 99 end
      ok (record { bytes = bytes; key_info = key_info; key_data = key_data }))
fields-Post bytes total end size header t e = elim (Bool-cases (end == total)) [
  | inr other ↦ rw other tt
  | inl same ↦
      let whole : 99 + be_u16_at bytes 97 ≡ length bytes = ground arith in
      rw
        (
          same,
          e,
          read_be_u16_lem bytes 5 (omega arith),
          slice_key_data bytes (be_u16_at bytes 97) whole,
        )
        (
          record {
            long = size.0;
            short = size.1;
            version = header.0;
            packet_type = header.1;
            descriptor = header.2;
            body_len = t.1;
            key_data_len = whole;
          },
          refl,
        )
]

-- Parsing never panics, whatever the bytes are; accepted bytes are an EAPOL-Key frame of RSN whose
-- lengths agree with their number, and the frame holds its own fields of them.
pub parse-IsFrame : (bytes : List ℕ) → Post (Accepted bytes) (parse bytes)
unfolding parse
parse-IsFrame bytes =
    Post-bind (λ _. IsSize bytes) (Accepted bytes) _ _ (validate_eapol_size-IsSize bytes)
      λ _ size.
        Post-bind (λ _. IsHeader bytes) (Accepted bytes) _ _
          (validate_eapol_header-IsHeader bytes size)
          λ _ header.
            Post-bind (λ total. (total ≡ length bytes) × (4 + be_u16_at bytes 2 ≡ length bytes))
              (Accepted bytes) _ _ (eapol_total_length-Post bytes size)
              λ total t.
                Post-bind (λ end. end ≡ 99 + be_u16_at bytes 97) (Accepted bytes) _ _
                  (eapol_key_data_end-Post bytes size)
                  λ end e. fields-Post bytes total end size header t e

size_accepts : (bytes : List ℕ) → IsFrame bytes → validate_eapol_size bytes ≡ ok tt
unfolding validate_eapol_size
size_accepts bytes f = ground (arith, f.long, f.short)

header_accepts : (bytes : List ℕ) → IsFrame bytes → validate_eapol_header bytes ≡ ok tt
unfolding validate_eapol_header
header_accepts bytes f =
    rw
      (
        index_lem {E = Wpa2Error} bytes 0 0 (omega (arith, f.long)),
        index_lem {E = Wpa2Error} bytes 1 0 (omega (arith, f.long)),
        index_lem {E = Wpa2Error} bytes 4 0 (omega (arith, f.long)),
      )
      (ground (arith, f.version, f.packet_type, f.descriptor))

total_accepts : (bytes : List ℕ) → IsFrame bytes → eapol_total_length bytes ≡ ok (length bytes)
unfolding eapol_total_length
total_accepts bytes f =
    rw (read_be_u16_lem bytes 2 (omega (arith, f.long)))
      (ground (arith, f.body_len, f.long, f.short))

end_accepts : (bytes : List ℕ) → IsFrame bytes → eapol_key_data_end bytes ≡ ok (length bytes)
unfolding eapol_key_data_end
end_accepts bytes f =
    rw (read_be_u16_lem bytes 97 (omega (arith, f.long))) (ground (arith, f.key_data_len, f.short))

-- Every EAPOL-Key frame of RSN within the limits is accepted.
pub parse_accepts : (bytes : List ℕ) → IsFrame bytes → parse bytes ≡ ok (frame_of bytes)
unfolding parse
parse_accepts bytes f = rw (
  size_accepts bytes f,
  header_accepts bytes f,
  total_accepts bytes f,
  end_accepts bytes f,
  (==_iff (length bytes) (length bytes)).1 refl,
  read_be_u16_lem bytes 5 (omega (arith, f.long)),
  sym f.key_data_len,
  slice_key_data bytes (be_u16_at bytes 97) f.key_data_len,
)

-- The parser accepts a byte string, with a frame, exactly when it is an EAPOL-Key frame of RSN, of 99
-- to 512 bytes with agreeing lengths, and the frame holds its fields; it never panics.
pub parse_iff :
    (bytes : List ℕ) (frame : EapolKeyFrame)
    → ((parse bytes ≡ ok frame) ↔ (IsFrame bytes × (frame ≡ frame_of bytes)))
      × Returns (parse bytes)
parse_iff bytes frame = (
  (
    λ e. Post-ok (Accepted bytes) (parse bytes) frame (parse-IsFrame bytes) e,
    λ (f, e). rw e (parse_accepts bytes f),
  ),
  Post-Returns (Accepted bytes) (parse bytes) (parse-IsFrame bytes),
)
