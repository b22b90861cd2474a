-- ===== src/Memory/Rpu/Transfers.antt =====
-- memory.rs: `read` and `write` on a flat memory, in a region that both processors share.
use Prim.Native.Nat.{ℕ, ◌+◌, ◌-◌, ◌*◌, ◌/◌, ◌%◌, ◌^◌, ◌<◌}
use embassy_zephyr_n_rf.Base.{
  drop_all, take-append_left, drop-append_left, ◌∙◌, take, length-take, sym, ◌==◌, false, dec_lt,
  replicate, ◌≡◌, refl, sym, ap, List, ◌++◌, ok, some, arith, length, drop,
}
use embassy_zephyr_n_rf.Memory.Address.{
  Processor, shared_region_base, validate_access, checked_range,
}
use embassy_zephyr_n_rf.Memory.Address.Regions.{checked_range_shared}
use embassy_zephyr_n_rf.Memory.Rpu.{
  write, read, read_tail, write_tail, chunk_count, read_aligned, write_aligned,
}
use embassy_zephyr_n_rf.Memory.Rpu.Flat.{
  window-patch, window-append, FlatMemory, patch, window, flat, patch-nil, take-window,
}
use embassy_zephyr_n_rf.Memory.Rpu.Chunks.{
  patch_split, Contiguous, read_chunks_lem, write_chunks_lem,
}
use embassy_zephyr_n_rf.Base.{drop_all}

abbrev pub padded_len : ℕ → ℕ
padded_len len = (len + 3) / 4 * 4

-- The bytes with zeros up to a whole word.
abbrev pub padded : List ℕ → List ℕ
padded bytes = bytes ++ replicate (padded_len (length bytes) - length bytes) 0

validate_access-padded :
    {E : Type 0} (p : Processor) (addr len : ℕ)
    → validate_access {E = E} p addr len ≡ ok tt
    → checked_range {E = E} p addr (padded_len len) ≡ ok tt
unfolding validate_access
validate_access-padded p addr len h = ground arith

range-Contiguous :
    {E : Type 0} (p : Processor) (addr base len : ℕ)
    → shared_region_base addr ≡ some base
    → validate_access {E = E} p addr len ≡ ok tt
    → Contiguous p addr (base + addr % 2 ^ 24) 0 (padded_len len)
range-Contiguous {E} p addr base len h v k l =
    let r = validate_access-padded {E = E} p addr len v in
    let same : 0 + k ≡ k = omega arith in
    rw same (checked_range_shared {E = E} p addr base (padded_len len) k h r l)

tail_left : (len : ℕ) → len / 4 * 4 < len → (len - len / 4 * 4 == 0) ≡ false
tail_left len h = ground arith

patch-padded :
    (bytes : List ℕ) (m : FlatMemory) (o : ℕ)
    → patch
        (patch m o (take (length bytes / 4 * 4) bytes))
        (o + length bytes / 4 * 4)
        (drop (length bytes / 4 * 4) (padded bytes))
      ≡ patch m o (padded bytes)
patch-padded bytes m o =
    let zeros : List ℕ = replicate (padded_len (length bytes) - length bytes) 0 in
    let same = take-append_left (length bytes / 4 * 4) bytes zeros (omega arith) in
    rw (sym same) (patch_split m (length bytes / 4 * 4) o (padded bytes))

module _ {E : Type 0} (p : Processor) (addr o : ℕ) where
  write_aligned_lem :
      (bytes : List ℕ) (m : FlatMemory)
      → Contiguous p addr o 0 (length bytes)
      → write_aligned (flat E) p addr bytes m ≡ (patch m o bytes, ok tt)
  unfolding write_aligned
  write_aligned_lem bytes m c =
      let here : o + 0 ≡ o = omega arith in
      rw here at (
        write_chunks_lem {E = E} p addr o (chunk_count (length bytes)) 0 bytes m (omega arith)
          (omega arith) c)

  read_aligned_lem :
      (len : ℕ) (m : FlatMemory)
      → Contiguous p addr o 0 len
      → read_aligned (flat E) p addr len m ≡ (m, ok (window m o len))
  unfolding read_aligned
  read_aligned_lem len m c =
      let here : o + 0 ≡ o = omega arith in
      rw here at
        (read_chunks_lem {E = E} p addr o (chunk_count len) 0 len m (omega arith) (omega arith) c)

  write_tail_lem :
      (bytes : List ℕ) (m : FlatMemory)
      → Contiguous p addr o 0 (padded_len (length bytes))
      → write_tail (flat E) p addr (length bytes / 4 * 4) bytes m
        ≡ (patch m (o + length bytes / 4 * 4) (drop (length bytes / 4 * 4) (padded bytes)), ok tt)
  unfolding write_tail
  write_tail_lem bytes m c =
      let total =
        drop-append_left (length bytes / 4 * 4) bytes
          (replicate (padded_len (length bytes) - length bytes) 0) (omega arith) in
      elim (dec_lt (length bytes / 4 * 4) (length bytes)) [
        | yes h ↦
            let tail : (length bytes - length bytes / 4 * 4 == 0) ≡ false =
              tail_left (length bytes) h in
            let offset = c (length bytes / 4 * 4) (omega arith) in
            let start : 0 + length bytes / 4 * 4 ≡ length bytes / 4 * 4 = omega arith in
            let zeros : 4 - (length bytes - length bytes / 4 * 4)
                ≡ padded_len (length bytes) - length bytes =
              omega arith in
            rw (tail, rw start at offset, zeros, total) refl
        | no h ↦
            let tail : length bytes - length bytes / 4 * 4 ≡ 0 = omega arith in
            let zeros : padded_len (length bytes) - length bytes ≡ 0 = omega arith in
            let none_left = drop_all (length bytes / 4 * 4) bytes (omega arith) in
            rw (tail, total, zeros, none_left)
              (ap (λ s. (s, ok tt)) (sym (patch-nil m (o + length bytes / 4 * 4))))
      ]

  read_tail_lem :
      (len : ℕ) (m : FlatMemory)
      → Contiguous p addr o 0 (padded_len len)
      → read_tail (flat E) p addr (len / 4 * 4) len m
        ≡ (m, ok (window m (o + len / 4 * 4) (len % 4)))
  unfolding read_tail window
  read_tail_lem len m c = elim (dec_lt (len / 4 * 4) len) [
    | yes h ↦
        let tail : (len - len / 4 * 4 == 0) ≡ false = tail_left len h in
        let offset = c (len / 4 * 4) (omega arith) in
        let start : 0 + len / 4 * 4 ≡ len / 4 * 4 = omega arith in
        let rest : len - len / 4 * 4 ≡ len % 4 = omega arith in
        let part = take-window m (len % 4) 4 (o + len / 4 * 4) (omega arith) in
        rw (tail, rw start at offset, rest) (ap (λ bytes. (m, ok bytes)) part)
    | no h ↦
        let tail : len - len / 4 * 4 ≡ 0 = omega arith in
        let rest : len % 4 ≡ 0 = omega arith in rw (tail, rest) refl
  ]

  pub write_lem :
      (bytes : List ℕ) (m : FlatMemory)
      → validate_access {E = E} p addr (length bytes) ≡ ok tt
      → Contiguous p addr o 0 (padded_len (length bytes))
      → write (flat E) p addr bytes m ≡ (patch m o (padded bytes), ok tt)
  unfolding write
  write_lem bytes m v c =
      let al : length (take (length bytes / 4 * 4) bytes) ≡ length bytes / 4 * 4 =
        length-take (length bytes / 4 * 4) bytes ∙ omega arith in
      let words =
        write_aligned_lem (take (length bytes / 4 * 4) bytes) m (λ k l. c k (omega arith)) in
      let tail = write_tail_lem bytes (patch m o (take (length bytes / 4 * 4) bytes)) c in
      let joined = patch-padded bytes m o in rw (v, words, tail) (ap (λ s. (s, ok tt)) joined)

  read_lem :
      (len : ℕ) (m : FlatMemory)
      → validate_access {E = E} p addr len ≡ ok tt
      → Contiguous p addr o 0 (padded_len len)
      → read (flat E) p addr len m ≡ (m, ok (window m o len))
  unfolding read
  read_lem len m v c =
      let words = read_aligned_lem (len / 4 * 4) m (λ k l. c k (omega arith)) in
      let tail = read_tail_lem len m c in
      let total : len / 4 * 4 + len % 4 ≡ len = omega arith in
      rw (v, words, tail)
        (ap (λ bytes. (m, ok bytes))
          (window-append m (len / 4 * 4) (len % 4) o ∙ ap (window m o) total))

-- On a bus that is a flat memory, in a region that both processors share, where `validate_access`
-- accepts the range: writing succeeds and changes exactly the range in the host window, to the
-- bytes and zeros up to a whole word; and reading as many bytes back succeeds, returns the bytes
-- and changes nothing. This holds for every length that is accepted, whatever the number of chunks
-- and the size of the last word.
pub read-write :
    {E : Type 0} (p : Processor) (addr base : ℕ) (bytes : List ℕ) (m : FlatMemory)
    → shared_region_base addr ≡ some base
    → validate_access {E = E} p addr (length bytes) ≡ ok tt
    → (write (flat E) p addr bytes m ≡ (patch m (base + addr % 2 ^ 24) (padded bytes), ok tt))
      × (read (flat E) p addr (length bytes) (patch m (base + addr % 2 ^ 24) (padded bytes))
          ≡ (patch m (base + addr % 2 ^ 24) (padded bytes), ok bytes))
read-write {E} p addr base bytes m h v =
    let c = range-Contiguous {E = E} p addr base (length bytes) h v in
    let o = base + addr % 2 ^ 24 in
    let zeros : List ℕ = replicate (padded_len (length bytes) - length bytes) 0 in
    let back = window-patch m o bytes zeros in
    (
      write_lem {E = E} p addr o bytes m v c,
      rw (read_lem {E = E} p addr o (length bytes) (patch m o (padded bytes)) v c, back) refl,
    )
