-- ===== src/Wpa2/Keys/Unwrap.antt =====
-- wpa2.rs: the key unwrap does not panic, and inverts the key wrap of RFC 3394.
pub mod RoundTrip
pub mod NoPanic
use Prim.Native.Nat.{ℕ, zero, suc, ◌+◌, ◌-◌, ◌*◌, ◌/◌, ◌^◌, ◌<◌, ◌≤◌}
use embassy_zephyr_n_rf.Base.{
  slice_lem, ok, take_all, ◌≡◌, refl, sym, ap, List, [], ◌∷◌, ◌++◌, arith, length, take, drop, All,
  All-append, All-take, All-drop, take-drop, drop-drop, length-append, length-take, length-drop,
  take_past, drop_past, append-nil, IsByte,
}
use embassy_zephyr_n_rf.Wpa2.Crypto.{Crypto}
use embassy_zephyr_n_rf.Wpa2.Keys.{
  Wpa2Error, unwrap_block, replace_part, xor_bits, xor_bytes, u64_be_bytes, aes_key_wrap_iv,
}

xor_bits-twice : (n a b : ℕ) → a < 2 ^ n → xor_bits n (xor_bits n a b) b ≡ a
unfolding xor_bits
xor_bits-twice zero a b h = omega arith
xor_bits-twice (suc n) a b h =
    let half : xor_bits (suc n) a b / 2 ≡ xor_bits n (a / 2) (b / 2) = omega arith in
    rw half (omega (arith, xor_bits-twice n (a / 2) (b / 2) (omega arith)))

xor_bits-bound : (n a b : ℕ) → xor_bits n a b < 2 ^ n
unfolding xor_bits
xor_bits-bound zero a b = omega arith
xor_bits-bound (suc n) a b = omega (arith, xor_bits-bound n (a / 2) (b / 2))

xor_bytes-twice :
    (as' bs : List ℕ)
    → All IsByte as'
    → length as' ≡ length bs
    → xor_bytes (xor_bytes as' bs) bs ≡ as'
unfolding xor_bytes
xor_bytes-twice [] bs h e = refl
xor_bytes-twice (a ∷ as') [] h e = absurd (omega arith)
xor_bytes-twice (a ∷ as') (b ∷ bs) h e =
    rw (xor_bits-twice 8 a b h.0, xor_bytes-twice as' bs h.1 (omega arith))

length-xor_bytes :
    (as' bs : List ℕ) → length as' ≡ length bs → length (xor_bytes as' bs) ≡ length as'
unfolding xor_bytes
length-xor_bytes [] bs e = refl
length-xor_bytes (a ∷ as') [] e = absurd (omega arith)
length-xor_bytes (a ∷ as') (b ∷ bs) e = ap suc (length-xor_bytes as' bs (omega arith))

xor_bytes-IsByte : (as' bs : List ℕ) → All IsByte (xor_bytes as' bs)
unfolding xor_bytes
xor_bytes-IsByte [] bs = tt
xor_bytes-IsByte (a ∷ as') [] = tt
xor_bytes-IsByte (a ∷ as') (b ∷ bs) = (xor_bits-bound 8 a b, xor_bytes-IsByte as' bs)

-- Replacing a part, and reading it back or putting the old one back.
module _ (start : ℕ) (part out : List ℕ) (size : length part ≡ 8)
    (fits : start + 8 ≤ length out) where
  pub length-replace_part : length (replace_part start part out) ≡ length out
  unfolding replace_part
  length-replace_part = omega (
    arith,
    length-append (take start out) (part ++ drop (start + 8) out),
    length-append part (drop (start + 8) out),
    length-take start out,
    length-drop (start + 8) out,
  )

  read-replace_part : take 8 (drop start (replace_part start part out)) ≡ part
  unfolding replace_part
  read-replace_part = rw (
    drop_past start 0 (take start out) (part ++ drop (start + 8) out)
        (omega (arith, length-take start out)),
    take_past 8 0 part (drop (start + 8) out) (omega arith),
    append-nil part,
  )

  replace_part-back :
      (old : List ℕ)
      → old ≡ take 8 (drop start out)
      → replace_part start old (replace_part start part out) ≡ out
  unfolding replace_part
  replace_part-back old e = rw (
    take_past start 0 (take start out) (part ++ drop (start + 8) out)
        (omega (arith, length-take start out)),
    append-nil (take start out),
    drop_past (start + 8) 8 (take start out) (part ++ drop (start + 8) out)
        (omega (arith, length-take start out)),
    drop_past 8 0 part (drop (start + 8) out) (omega arith),
    e,
    sym (drop-drop 8 start (start + 8) out refl),
    take-drop 8 (drop start out),
    take-drop start out,
  )

-- The register has 8 bytes and the plain data `n` blocks of 8 bytes.
abbrev pub IsState : ℕ → List ℕ × List ℕ → Type 0
IsState n st = (length st.0 ≡ 8) × (length st.1 ≡ n * 8) × All IsByte st.0 × All IsByte st.1

-- The key wrap of RFC 3394, by the encryption of one block.
module _ (encrypt : List ℕ → List ℕ → List ℕ) where
  abbrev pub wrap_block : List ℕ → ℕ → ℕ → ℕ → List ℕ × List ℕ → List ℕ × List ℕ
  wrap_block key n round i (a, out) =
      let block = encrypt key (a ++ take 8 (drop ((i - 1) * 8) out)) in
      (
        xor_bytes (take 8 block) (u64_be_bytes (n * round + i)),
        replace_part ((i - 1) * 8) (drop 8 block) out,
      )

  abbrev pub wrap_indices : List ℕ → ℕ → ℕ → ℕ → List ℕ × List ℕ → List ℕ × List ℕ
  wrap_indices key n round zero st = st
  wrap_indices key n round (suc i) st =
      wrap_block key n round (suc i) (wrap_indices key n round i st)

  abbrev pub wrap_rounds : List ℕ → ℕ → ℕ → List ℕ × List ℕ → List ℕ × List ℕ
  wrap_rounds key n zero st = st
  wrap_rounds key n (suc round) st = wrap_indices key n round n (wrap_rounds key n round st)

  -- The wrapped key data of a plain text of whole blocks.
  abbrev pub aes_key_wrap : List ℕ → List ℕ → List ℕ
  aes_key_wrap key plain =
      let (a, out) = wrap_rounds key (length plain / 8) 6 (aes_key_wrap_iv, plain) in a ++ out

-- The encryption is the inverse of the decryption, on blocks of 16 bytes.
pub record IsInverse (crypto : Crypto) (encrypt : List ℕ → List ℕ → List ℕ) : Type 0 where
  pub encrypt_size : (key block : List ℕ) → length block ≡ 16 → length (encrypt key block) ≡ 16
  pub encrypt_bytes : (key block : List ℕ) → All IsByte block → All IsByte (encrypt key block)
  pub decrypt_encrypt :
      (key block : List ℕ)
      → length block ≡ 16
      → All IsByte block
      → crypto.aes128_decrypt key (encrypt key block) ≡ block

take_shift : (start : ℕ) → start + 8 - start ≡ 8
take_shift start = omega arith

module _ (crypto : Crypto) (encrypt : List ℕ → List ℕ → List ℕ) (inverse : IsInverse crypto encrypt)
    (key : List ℕ) (n round : ℕ) where
  module _ (i : ℕ) (a out : List ℕ) (st : IsState n (a, out)) (h : suc i ≤ n) where
    -- The offset of the block, the block, and what the step enciphers.
    abbrev start : ℕ
    start = (suc i - 1) * 8

    abbrev old : List ℕ
    old = take 8 (drop start out)

    old-length : length old ≡ 8
    old-length = omega (arith, length-take 8 (drop start out), length-drop start out, st.1)

    input-length : length (a ++ old) ≡ 16
    input-length = omega (arith, length-append a old, old-length, st.0)

    input-IsByte : All IsByte (a ++ old)
    input-IsByte =
        All-append IsByte a old st.2
          (All-take IsByte 8 (drop start out) (All-drop IsByte start out st.3))

    abbrev cipher : List ℕ
    cipher = encrypt key (a ++ old)

    cipher-length : length cipher ≡ 16
    cipher-length = inverse.encrypt_size key (a ++ old) input-length

    low-length : length (drop 8 cipher) ≡ 8
    low-length = omega (arith, length-drop 8 cipher, cipher-length)

    high-length : length (take 8 cipher) ≡ 8
    high-length = omega (arith, length-take 8 cipher, cipher-length)

    abbrev counter : List ℕ
    counter = u64_be_bytes (n * round + suc i)

    counter-length : length counter ≡ 8
    unfolding u64_be_bytes
    counter-length = refl

    pub wrap_block-IsState : IsState n (wrap_block encrypt key n round (suc i) (a, out))
    unfolding replace_part
    wrap_block-IsState = (
      omega (
        arith,
        length-xor_bytes (take 8 cipher) counter (omega (arith, high-length, counter-length)),
        high-length,
      ),
      omega (
        arith,
        length-replace_part start (drop 8 cipher) out low-length (omega (arith, st.1)),
        st.1,
      ),
      xor_bytes-IsByte (take 8 cipher) counter,
      All-append IsByte (take start out) _ (All-take IsByte start out st.3) (
          All-append IsByte (drop 8 cipher) _
            (All-drop IsByte 8 cipher (inverse.encrypt_bytes key (a ++ old) input-IsByte))
            (All-drop IsByte (start + 8) out st.3)),
    )

    pub unwrap_block-wrap_block :
        unwrap_block crypto key n round (suc i) (wrap_block encrypt key n round (suc i) (a, out))
        ≡ ok (a, out)
    unfolding unwrap_block
    unwrap_block-wrap_block =
        let fits : start + 8 ≤ length out = omega (arith, st.1) in
        rw (
          slice_lem {E = Wpa2Error} (replace_part start (drop 8 cipher) out) start (start + 8)
              (omega arith)
              (omega (arith, length-replace_part start (drop 8 cipher) out low-length fits)),
          take_shift start,
          read-replace_part start (drop 8 cipher) out low-length fits,
          xor_bytes-twice (take 8 cipher) counter
              (All-take IsByte 8 cipher (inverse.encrypt_bytes key (a ++ old) input-IsByte))
              (omega (arith, high-length, counter-length)),
          take-drop 8 cipher,
          inverse.decrypt_encrypt key (a ++ old) input-length input-IsByte,
          take_past 8 0 a old (omega (arith, st.0)),
          append-nil a,
          drop_past 8 0 a old (omega (arith, st.0)),
          take_all 8 old (omega (arith, old-length)),
          replace_part-back start (drop 8 cipher) out low-length fits old refl,
        )
