-- ===== src/Data/Convert/Bounds.antt =====
-- data.rs: a converted frame fits its buffer, and when the conversion panics.
use Prim.Native.Nat.{◌<◌, ℕ, ◌+◌, ◌-◌, ◌≤◌}
use embassy_zephyr_n_rf.Base.{
  [], ◌∷◌, ◌∷◌, panic, u16_at, read_u16_lem, le→ltb_not, index, read_u16, Bool-cases, inl, inr, ltb,
  ok_or, ◌>>=◌, ◌≡◌, List, ◌++◌, arith, length, dec_lt, take, drop, length-append, length-take,
  length-drop, slice_lem, index_lem,
}
use embassy_zephyr_n_rf.Base.Post.{Post-bind, Post}
use embassy_zephyr_n_rf.Data.Types.{DataProtocolError}
use embassy_zephyr_n_rf.Data.Convert.{
  llc_skip, RxPayloadType, convert_to_ethernet, convert_msdu, convert_mpdu, checked_add, be_bytes,
  llc_ether_type, rebuild_ethernet, ieee80211_addresses,
}

-- The frame of `n` bytes has a header and lies in a buffer of the old size.
abbrev pub Fits : List ℕ → List ℕ × ℕ → Type 0
Fits frame (frame', n) = (14 ≤ n) × (n ≤ length frame) × (length frame' ≡ length frame)

rebuilt_length :
    (frame destination source : List ℕ) (offset ether_type : ℕ)
    → length destination ≡ 6
    → length source ≡ 6
    → offset ≤ length frame
    → 14 + (length frame - offset) ≤ length frame
    → length (
        destination
        ++ (source
            ++ (be_bytes ether_type
                ++ (drop offset frame ++ drop (14 + (length frame - offset)) frame))))
      ≡ length frame
rebuilt_length frame destination source offset ether_type d s h k =
    simp (length-append, length-drop, d, s) (omega arith)

rebuild_ethernet-Fits :
    (frame destination source : List ℕ) (offset ether_type : ℕ)
    → length destination ≡ 6
    → length source ≡ 6
    → Post (Fits frame) (rebuild_ethernet frame offset destination source ether_type)
unfolding rebuild_ethernet
rebuild_ethernet-Fits frame destination source offset ether_type d s =
    elim (dec_lt (length frame) offset) [
      | yes outside ↦ ground arith
      | no inside ↦ elim (dec_lt (length frame) (14 + (length frame - offset))) [
        | yes large ↦ ground arith
        | no fits ↦
            let size =
              rebuilt_length frame destination source offset ether_type d s (omega arith)
                (omega arith) in
            ground arith
      ]
    ]

abbrev Addresses : List ℕ × List ℕ → Type 0
Addresses (destination, source) = (length destination ≡ 6) × (length source ≡ 6)

slice_size :
    (frame : List ℕ) (a : ℕ) → a + 6 ≤ length frame → length (take (a + 6 - a) (drop a frame)) ≡ 6
slice_size frame a h = omega (arith, length-take (a + 6 - a) (drop a frame), length-drop a frame)

ieee80211_addresses-Post : (frame : List ℕ) (fc : ℕ) → Post Addresses (ieee80211_addresses frame fc)
unfolding ieee80211_addresses
ieee80211_addresses-Post frame fc = elim (dec_lt (length frame) 24) [
  | yes short ↦ ground arith
  | no long ↦
      let s1 = slice_size frame 4 (omega arith) in
      let s2 = slice_size frame 10 (omega arith) in
      let s3 = slice_size frame 16 (omega arith) in
      rw
        (
          slice_lem {E = DataProtocolError} frame 4 10 (omega arith) (omega arith),
          slice_lem {E = DataProtocolError} frame 10 16 (omega arith) (omega arith),
          slice_lem {E = DataProtocolError} frame 16 22 (omega arith) (omega arith),
        )
        (elim (dec_lt (length frame) 30) [
          | yes three ↦ ground arith
          | no four ↦
              let s4 = slice_size frame 24 (omega arith) in
              let e4 = slice_lem {E = DataProtocolError} frame 24 30 (omega arith) (omega arith) in
              rw e4 (ground arith)
        ])
]

llc_ether_type-Post :
    (frame : List ℕ) (offset : ℕ) → Post (λ _. Unit {0}) (llc_ether_type frame offset)
unfolding llc_ether_type
llc_ether_type-Post frame offset = elim (dec_lt (length frame) (offset + 8)) [
  | yes short ↦ ground arith
  | no long ↦
      rw
        (
          index_lem {E = DataProtocolError} frame (offset + 6) 0 (omega arith),
          index_lem {E = DataProtocolError} frame (offset + 7) 0 (omega arith),
        )
        (ground arith)
]

-- The common end of both conversions.
ended-Fits :
    (frame destination source : List ℕ) (llc : ℕ)
    → length destination ≡ 6
    → length source ≡ 6
    → Post (Fits frame) (
        llc_ether_type frame llc >>= λ ether_type.
        ok_or (checked_add llc (llc_skip ether_type)) DataProtocolError.invalid_length >>= λ offset.
        rebuild_ethernet frame offset destination source ether_type)
ended-Fits frame destination source llc d s =
    Post-bind (λ _. Unit {0}) (Fits frame) _ _ (llc_ether_type-Post frame llc)
      λ ether_type _. elim (Bool-cases (ltb (llc + llc_skip ether_type) 4294967296)) [
        | inl narrow ↦ rw narrow (
            rebuild_ethernet-Fits frame destination source (llc + llc_skip ether_type) ether_type d
              s)
        | inr wide ↦ rw wide tt
      ]

convert_msdu-Fits : (frame : List ℕ) (amsdu : ℕ) → Post (Fits frame) (convert_msdu frame amsdu)
unfolding convert_msdu
convert_msdu-Fits frame amsdu = elim (dec_lt (length frame) (amsdu + 14)) [
  | yes short ↦ ground arith
  | no long ↦ elim (Bool-cases (ltb (amsdu + 14) 4294967296)) [
    | inr wide ↦ rw wide tt
    | inl narrow ↦
        rw
          (
            narrow,
            le→ltb_not (amsdu + 14) (length frame) (omega arith),
            slice_lem {E = DataProtocolError} frame amsdu (amsdu + 6) (omega arith) (omega arith),
            slice_lem {E = DataProtocolError} frame (amsdu + 6) (amsdu + 12) (omega arith)
                (omega arith),
          )
          (ended-Fits frame _ _ (amsdu + 14) (slice_size frame amsdu (omega arith)) (
            omega (
              arith,
              length-take (amsdu + 12 - (amsdu + 6)) (drop (amsdu + 6) frame),
              length-drop (amsdu + 6) frame,
            )))
  ]
]

convert_mpdu-Fits :
    (frame : List ℕ) (mac_header_len : ℕ)
    → 2 ≤ length frame
    → Post (Fits frame) (convert_mpdu frame mac_header_len)
unfolding convert_mpdu
convert_mpdu-Fits frame mac h = elim (Bool-cases (ltb mac 24)) [
  | inl short ↦ rw short tt
  | inr long ↦
      rw (long, read_u16_lem {E = DataProtocolError} frame 0 h)
        (Post-bind Addresses (Fits frame) _ _ (ieee80211_addresses-Post frame (u16_at frame 0))
          λ (destination, source) (d, s). ended-Fits frame destination source mac d s)
]

-- Converting a received frame of at least two bytes does not panic, and the Ethernet frame that it
-- returns has a header and fits the buffer, whose size stays the same.
pub convert_to_ethernet-Fits :
    (frame : List ℕ) (kind : RxPayloadType) (mac_header_len : ℕ)
    → 2 ≤ length frame
    → Post (Fits frame) (convert_to_ethernet frame kind mac_header_len)
unfolding convert_to_ethernet
convert_to_ethernet-Fits frame RxPayloadType.mpdu mac h = convert_mpdu-Fits frame mac h
convert_to_ethernet-Fits frame RxPayloadType.msdu_with_mac mac h = convert_msdu-Fits frame mac
convert_to_ethernet-Fits frame RxPayloadType.msdu mac h = convert_msdu-Fits frame 0

-- An MPDU of fewer than two bytes panics in the conversion, whenever the firmware reports a MAC
-- header of at least 24 bytes.
pub short_mpdu_panics :
    (frame : List ℕ) (mac_header_len : ℕ)
    → length frame < 2
    → 24 ≤ mac_header_len
    → convert_to_ethernet frame RxPayloadType.mpdu mac_header_len ≡ panic
unfolding convert_to_ethernet convert_mpdu read_u16 index
short_mpdu_panics [] mac h k = ground arith
short_mpdu_panics (b ∷ []) mac h k = ground arith
short_mpdu_panics (b ∷ c ∷ bs) mac h k = absurd (omega arith)
