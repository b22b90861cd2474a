-- ===== src/Wpa2/Crypto.antt =====
-- What wpa2.rs calls of the crates sha1, sha2, hmac, aes and pbkdf2.
use Prim.Native.Nat.{ℕ}
use embassy_zephyr_n_rf.Base.{List, ◌≡◌, length}

-- The functions on byte strings: a digest, HMAC-SHA1 of a key and a message, the decryption of one
-- block with an AES-128 key, and PBKDF2 of a passphrase, a salt, a number of rounds and a length.
pub record Crypto : Type 0 where
  pub sha256 : List ℕ → List ℕ
  pub hmac_sha1 : List ℕ → List ℕ → List ℕ
  pub aes128_decrypt : List ℕ → List ℕ → List ℕ
  pub pbkdf2_hmac_sha1 : List ℕ → List ℕ → ℕ → ℕ → List ℕ

-- The sizes of the results.
pub record IsSized (crypto : Crypto) : Type 0 where
  pub hmac_size : (key message : List ℕ) → length (crypto.hmac_sha1 key message) ≡ 20
  pub block_size : (key block : List ℕ) → length (crypto.aes128_decrypt key block) ≡ 16
