-- ===== src/Wpa2/Keys/Derive.antt =====
-- wpa2.rs: the key expansion ends, with a key of the full length.
use Prim.Native.Nat.{◌%◌, ℕ, zero, suc, ◌+◌, ◌-◌, ◌*◌, ◌≤◌, min}
use embassy_zephyr_n_rf.Base.{
  u8_mod, ◌≡◌, List, [], ◌∷◌, ◌++◌, arith, length, take, drop, length-append, length-take,
  length-drop,
}
use embassy_zephyr_n_rf.Wpa2.Types.{wpa2_ptk_len}
use embassy_zephyr_n_rf.Wpa2.Crypto.{Crypto, IsSized}
use embassy_zephyr_n_rf.Wpa2.Frame.{kck, kek, temporal_key}
use embassy_zephyr_n_rf.Wpa2.Keys.{wpa2_prf_label, expand, derive_ptk}

extended : List ℕ → List ℕ → List ℕ
extended bytes block = bytes ++ take (min (length block) (wpa2_ptk_len - length bytes)) block

length-extended :
    (bytes block : List ℕ)
    → length block ≡ 20
    → length (extended bytes block) ≡ length bytes + min 20 (48 - length bytes)
unfolding extended
length-extended bytes block h = omega (
  arith,
  length-append bytes (take (min (length block) (wpa2_ptk_len - length bytes)) block),
  length-take (min (length block) (wpa2_ptk_len - length bytes)) block,
)

module _ (crypto : Crypto) (sized : IsSized crypto) where
  -- Each round adds a block or fills the key up, so few rounds are enough.
  expand-length :
      (pmk context : List ℕ) (rounds counter : ℕ) (bytes : List ℕ)
      → length bytes ≤ 48
      → 48 ≤ length bytes + rounds * 20
      → length (expand crypto pmk context rounds counter bytes) ≡ 48
  unfolding expand extended
  expand-length pmk context zero counter bytes h k = omega arith
  expand-length pmk context (suc rounds) counter bytes h k =
      let block = crypto.hmac_sha1 pmk (wpa2_prf_label ++ 0 ∷ context ++ counter ∷ []) in
      let e = length-extended bytes block (sized.hmac_size pmk _) in
      ground (
        arith,
        expand-length pmk context rounds ((counter + 1) % u8_mod) (extended bytes block)
            (omega (arith, e)),
      )

  -- Where HMAC-SHA1 has 20 bytes, the loop of the key derivation ends with exactly the 48 bytes of a
  -- pairwise transient key, so that each of its three keys has 16 bytes.
  pub derive_ptk-length :
      (pmk aa sa an sn : List ℕ)
      → let ptk = derive_ptk crypto pmk aa sa an sn in
        (length ptk ≡ 48)
        × (length (kck ptk) ≡ 16)
        × (length (kek ptk) ≡ 16)
        × (length (temporal_key ptk) ≡ 16)
  unfolding derive_ptk kck kek temporal_key
  derive_ptk-length pmk aa sa an sn =
      let p = derive_ptk crypto pmk aa sa an sn in
      let h : length p ≡ 48 = expand-length pmk _ 48 0 [] (omega arith) (omega arith) in
      (
        h,
        omega (arith, h, length-take 16 p),
        omega (arith, h, length-take 16 (drop 16 p), length-drop 16 p),
        omega (arith, h, length-take 16 (drop 32 p), length-drop 32 p),
      )
