-- ===== src/Wpa2/Response/RoundTrip.antt =====
-- wpa2.rs: a response that the supplicant builds is read back by its own parser.
use Prim.Native.Nat.{ℕ, ◌+◌, ◌^◌, ◌<◌, ◌≤◌}
use embassy_zephyr_n_rf.Base.{ok, true}
use embassy_zephyr_n_rf.Wpa2.Types.{EapolTxFrame}
use embassy_zephyr_n_rf.Wpa2.Crypto.{Crypto, IsSized}
use embassy_zephyr_n_rf.Base.{
  bytes_eq_refl, length-take, append_assoc, append-nil, ◌≡◌, refl, ◌∙◌, List, ◌++◌, ◌⊎◌, arith,
  length, get_or, drop, take, replicate, length-append, drop_past, take_past, get_or_past,
}
use embassy_zephyr_n_rf.Wpa2.Frame.{
  verify_mic, kck, parse, replay_counter, protocol_version, nonce, mic, key_length, EapolKeyFrame,
  be_number,
}
use embassy_zephyr_n_rf.Wpa2.Frame.Parse.{parse_accepts, frame_of, IsFrame}
use embassy_zephyr_n_rf.Wpa2.Keys.{u64_be_bytes}
use embassy_zephyr_n_rf.Wpa2.Response.{build_response, sign, u16_be_bytes, response_bytes}

be_number-u64 : (x : ℕ) → x < 2 ^ 64 → be_number 0 (u64_be_bytes x) ≡ x
unfolding be_number u64_be_bytes
be_number-u64 x h = omega arith

be_number-u16 : (x : ℕ) → x < 2 ^ 16 → be_number 0 (u16_be_bytes x) ≡ x
unfolding be_number
be_number-u16 x h = omega arith

-- The bytes from the nonce on, for any bytes `z` between the nonce and the MIC.
module _ (n z m rest : List ℕ) (hn : length n ≡ 32) (hz : length z ≡ 32) (hm : length m ≡ 16) where
  tail-length : length (n ++ (z ++ (m ++ rest))) ≡ 80 + length rest
  tail-length =
      omega (
        arith,
        length-append n (z ++ (m ++ rest)),
        length-append z (m ++ rest),
        length-append m rest,
      )

  tail-nonce : take 32 (n ++ (z ++ (m ++ rest))) ≡ n
  tail-nonce = take_past 32 0 n (z ++ (m ++ rest)) (omega arith) ∙ append-nil n

  tail-mic : take 16 (drop 64 (n ++ (z ++ (m ++ rest)))) ≡ m
  tail-mic = rw (
    drop_past 64 32 n (z ++ (m ++ rest)) (omega arith),
    drop_past 32 0 z (m ++ rest) (omega arith),
    take_past 16 0 m rest (omega arith),
    append-nil m,
  )

  tail-rest : (i : ℕ) → drop (80 + i) (n ++ (z ++ (m ++ rest))) ≡ drop i rest
  tail-rest i = rw (
    drop_past (80 + i) (48 + i) n (z ++ (m ++ rest)) (omega arith),
    drop_past (48 + i) (16 + i) z (m ++ rest) (omega arith),
    drop_past (16 + i) i m rest (omega arith),
  )

  tail-get_or : (i : ℕ) → get_or (n ++ (z ++ (m ++ rest))) (80 + i) 0 ≡ get_or rest i 0
  tail-get_or i = rw (
    get_or_past (80 + i) (48 + i) n (z ++ (m ++ rest)) 0 (omega arith),
    get_or_past (48 + i) (16 + i) z (m ++ rest) 0 (omega arith),
    get_or_past (16 + i) i m rest 0 (omega arith),
  )

  tail-signed :
      (m' : List ℕ) → take 64 (n ++ (z ++ (m ++ rest))) ++ (m' ++ rest) ≡ n ++ (z ++ (m' ++ rest))
  tail-signed m' = rw (
    take_past 64 32 n (z ++ (m ++ rest)) (omega arith),
    take_past 32 0 z (m ++ rest) (omega arith),
    append-nil z,
    append_assoc n z (m' ++ rest),
  )

module _ (version info len replay : ℕ) (n m kd : List ℕ) (hn : length n ≡ 32)
    (hm : length m ≡ 16) where
  abbrev tail : List ℕ
  tail = u16_be_bytes (length kd) ++ kd

  response_bytes-IsFrame :
      (version ≡ 1) ⊎ (version ≡ 2)
      → length kd ≤ 413
      → IsFrame (response_bytes version info len replay n m kd)
  unfolding response_bytes u64_be_bytes
  response_bytes-IsFrame v h = record {
    long = omega (arith, tail-length n (replicate 32 0) m tail hn refl hm);
    short = omega (arith, tail-length n (replicate 32 0) m tail hn refl hm);
    version = v;
    packet_type = refl;
    descriptor = refl;
    body_len = omega (arith, tail-length n (replicate 32 0) m tail hn refl hm);
    key_data_len = omega (
      arith,
      tail-length n (replicate 32 0) m tail hn refl hm,
      tail-get_or n (replicate 32 0) m tail hn refl hm 0,
      tail-get_or n (replicate 32 0) m tail hn refl hm 1,
    );
  }

  -- The frame that the parser returns for these bytes.
  abbrev parsed : EapolKeyFrame
  parsed = frame_of (response_bytes version info len replay n m kd)

  parsed-nonce : nonce parsed ≡ n
  unfolding response_bytes u64_be_bytes nonce
  parsed-nonce = tail-nonce n (replicate 32 0) m tail hn refl hm

  parsed-mic : mic parsed ≡ m
  unfolding response_bytes u64_be_bytes mic
  parsed-mic = tail-mic n (replicate 32 0) m tail hn refl hm

  parsed-key_data : parsed.key_data ≡ kd
  unfolding response_bytes u64_be_bytes
  parsed-key_data = tail-rest n (replicate 32 0) m tail hn refl hm 2

  parsed-key_info : info < 2 ^ 16 → parsed.key_info ≡ info
  unfolding response_bytes u64_be_bytes
  parsed-key_info h = omega arith

  parsed-key_length : len < 2 ^ 16 → key_length parsed ≡ len
  unfolding response_bytes u64_be_bytes key_length be_number
  parsed-key_length h = omega arith

  parsed-replay_counter : replay < 2 ^ 64 → replay_counter parsed ≡ replay
  unfolding response_bytes u64_be_bytes replay_counter be_number
  parsed-replay_counter h = omega arith

  parsed-protocol_version : protocol_version parsed ≡ version
  unfolding response_bytes u64_be_bytes protocol_version
  parsed-protocol_version = refl

  -- The message of the MIC: the frame with a zero MIC field.
  parsed-signed :
      take 81 parsed.bytes ++ (replicate 16 0 ++ drop 97 parsed.bytes)
      ≡ response_bytes version info len replay n (replicate 16 0) kd
  unfolding response_bytes u64_be_bytes
  parsed-signed = rw (
    tail-rest n (replicate 32 0) m tail hn refl hm 0,
    tail-signed n (replicate 32 0) m tail hn refl hm (replicate 16 0),
  )

module _ (crypto : Crypto) (sized : IsSized crypto) where
  -- The MIC that `sign` writes.
  mic_of : List ℕ → List ℕ → List ℕ
  mic_of ptk unsigned = take 16 (crypto.hmac_sha1 (kck ptk) unsigned)

  length-mic_of : (ptk unsigned : List ℕ) → length (mic_of ptk unsigned) ≡ 16
  unfolding mic_of
  length-mic_of ptk unsigned = omega (
    arith,
    length-take 16 (crypto.hmac_sha1 (kck ptk) unsigned),
    sized.hmac_size (kck ptk) unsigned,
  )

  build_response_lem :
      (peer : List ℕ) (version info len replay : ℕ) (n kd ptk : List ℕ)
      → length kd ≤ 413
      → build_response crypto peer version info len replay n kd ptk
        ≡ ok record {
          peer = peer;
          bytes =
              response_bytes version info len replay n
                (mic_of ptk (response_bytes version info len replay n (replicate 16 0) kd))
                kd;
        }
  unfolding build_response sign mic_of
  build_response_lem peer version info len replay n kd ptk h = ground arith

  verify_mic-parsed :
      (version info len replay : ℕ) (n kd ptk : List ℕ) (hn : length n ≡ 32)
      → let m = mic_of ptk (response_bytes version info len replay n (replicate 16 0) kd) in
        verify_mic crypto (frame_of (response_bytes version info len replay n m kd)) ptk ≡ true
  unfolding verify_mic mic_of
  verify_mic-parsed version info len replay n kd ptk hn =
      let m = mic_of ptk (response_bytes version info len replay n (replicate 16 0) kd) in
      let hm = length-mic_of ptk (response_bytes version info len replay n (replicate 16 0) kd) in
      rw
        (
          parsed-signed version info len replay n m kd hn hm,
          parsed-mic version info len replay n m kd hn hm,
          hm,
        )
        (bytes_eq_refl m)

  -- What the receiver of a response reads: the parser accepts it, its fields are the given ones, and
  -- its MIC verifies under the same key.
  abbrev pub ReadsBack : ℕ → ℕ → ℕ → ℕ → List ℕ → List ℕ → List ℕ → EapolKeyFrame → Type 0
  ReadsBack version info len replay n kd ptk frame =
      (protocol_version frame ≡ version)
      × (frame.key_info ≡ info)
      × (key_length frame ≡ len)
      × (replay_counter frame ≡ replay)
      × (nonce frame ≡ n)
      × (frame.key_data ≡ kd)
      × (verify_mic crypto frame ptk ≡ true)

  -- Where HMAC-SHA1 has 20 bytes: a response of protocol version 1 or 2 whose numbers fit their
  -- fields, with a nonce of 32 bytes and at most 413 bytes of key data, is built, the parser accepts
  -- it, the frame has the given fields, and its MIC verifies under the key that it was built with.
  pub parse-build_response :
      (peer : List ℕ) (version info len replay : ℕ) (n kd ptk : List ℕ)
      → (version ≡ 1) ⊎ (version ≡ 2)
      → (info < 2 ^ 16) × (len < 2 ^ 16) × (replay < 2 ^ 64)
      → length n ≡ 32
      → length kd ≤ 413
      → (tx : EapolTxFrame) × (build_response crypto peer version info len replay n kd ptk ≡ ok tx)
        × ((frame : EapolKeyFrame) × (parse tx.bytes ≡ ok frame)
            × ReadsBack version info len replay n kd ptk frame)
  parse-build_response peer version info len replay n kd ptk v (hi, hl, hr) hn hk =
      let m = mic_of ptk (response_bytes version info len replay n (replicate 16 0) kd) in
      let hm = length-mic_of ptk (response_bytes version info len replay n (replicate 16 0) kd) in
      (
        _,
        build_response_lem peer version info len replay n kd ptk hk,
        (
          _,
          parse_accepts _ (response_bytes-IsFrame version info len replay n m kd hn hm v hk),
          (
            parsed-protocol_version version info len replay n m kd hn hm,
            parsed-key_info version info len replay n m kd hn hm hi,
            parsed-key_length version info len replay n m kd hn hm hl,
            parsed-replay_counter version info len replay n m kd hn hm hr,
            parsed-nonce version info len replay n m kd hn hm,
            parsed-key_data version info len replay n m kd hn hm,
            verify_mic-parsed version info len replay n kd ptk hn,
          ),
        ),
      )
