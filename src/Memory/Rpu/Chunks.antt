-- ===== src/Memory/Rpu/Chunks.antt =====
-- memory.rs: the transfers in chunks, on a flat memory.
use Prim.Native.Nat.{ℕ, zero, suc, ◌+◌, ◌-◌, ◌*◌, ◌≤◌, ◌<◌, min}
use embassy_zephyr_n_rf.Base.{
  drop_all, length-drop, take_all, take-drop, length-take, append-nil, u32_mod, dec_lt, ◌≡◌, refl,
  sym, ap, ◌∙◌, List, [], ◌∷◌, ◌++◌, ok, arith, length, take, drop,
}
use embassy_zephyr_n_rf.Memory.Address.{
  Processor, host_offset, chunk_host_offset, shared_region_base, processor_region_base,
  lmac_region_base, umac_region_base, max_bus_chunk,
}
use embassy_zephyr_n_rf.Memory.Rpu.{read_chunks, write_chunks}
use embassy_zephyr_n_rf.Memory.Rpu.Flat.{
  FlatMemory, patch, window, flat, patch-append, patch-nil, window-append,
}

-- The bytes from an offset in the range are at the same distance from the start of the host window.
abbrev pub Contiguous : Processor → ℕ → ℕ → ℕ → ℕ → Type 0
Contiguous p addr o start len =
    (k : ℕ) → k < len → host_offset p (addr + (start + k)) ≡ ok (o + (start + k))

host_offset_fits : (p : Processor) (a o : ℕ) → host_offset p a ≡ ok o → a < u32_mod
unfolding host_offset shared_region_base processor_region_base lmac_region_base umac_region_base
host_offset_fits p a o h = ground arith

pub chunk_offset :
    {E : Type 0} (p : Processor) (addr i o : ℕ)
    → host_offset p (addr + i * max_bus_chunk) ≡ ok o
    → chunk_host_offset {E = E} p addr i ≡ ok o
unfolding chunk_host_offset
chunk_offset p addr i o h =
    let fits = host_offset_fits p (addr + i * max_bus_chunk) o h in ground arith

pub patch_split :
    (memory : FlatMemory) (c a : ℕ) (bytes : List ℕ)
    → patch (patch memory a (take c bytes)) (a + c) (drop c bytes) ≡ patch memory a bytes
patch_split memory c a bytes = elim (dec_lt c (length bytes)) [
  | yes h ↦
      let full : length (take c bytes) ≡ c = length-take c bytes ∙ omega arith in
      let joined = patch-append memory a (take c bytes) (drop c bytes) in
      rw full at joined ∙ ap (patch memory a) (take-drop c bytes)
  | no h ↦
      let none_left : drop c bytes ≡ [] = drop_all c bytes (omega arith) in
      let everything = take_all c bytes (omega arith) in
      rw (none_left, everything) (patch-nil (patch memory a bytes) (a + c))
]

window_split :
    (memory : FlatMemory) (c a len : ℕ)
    → window memory a (min c len) ++ window memory (a + c) (len - c) ≡ window memory a len
unfolding window
window_split memory c a len = elim (dec_lt c len) [
  | yes h ↦
      let chunk : min c len ≡ c = omega arith in
      let total : c + (len - c) ≡ len = omega arith in
      rw chunk (window-append memory c (len - c) a ∙ ap (window memory a) total)
  | no h ↦
      let chunk : min c len ≡ len = omega arith in
      let none_left : len - c ≡ 0 = omega arith in
      rw (chunk, none_left) (append-nil (window memory a len))
]

next_chunk :
    (p : Processor) (addr o i len rest : ℕ)
    → rest ≡ len - max_bus_chunk
    → Contiguous p addr o (i * max_bus_chunk) len
    → Contiguous p addr o ((i + 1) * max_bus_chunk) rest
next_chunk p addr o i len rest e c k h =
    let same : i * max_bus_chunk + (max_bus_chunk + k) ≡ (i + 1) * max_bus_chunk + k =
      omega arith in
    rw same at (c (max_bus_chunk + k) (omega arith))

module _ {E : Type 0} (p : Processor) (addr o : ℕ) where
  -- The rounds write the bytes to the host window, in their places.
  pub write_chunks_lem :
      (n i : ℕ) (bytes : List ℕ) (m : FlatMemory)
      → length bytes ≤ n * max_bus_chunk
      → n * max_bus_chunk < length bytes + max_bus_chunk
      → Contiguous p addr o (i * max_bus_chunk) (length bytes)
      → write_chunks (flat E) p addr n i bytes m ≡ (patch m (o + i * max_bus_chunk) bytes, ok tt)
  unfolding write_chunks
  write_chunks_lem zero i [] m h k c =
      sym (ap (λ s. (s, ok tt)) (patch-nil m (o + i * max_bus_chunk)))
  write_chunks_lem zero i (x ∷ bytes) m h k c = absurd (omega arith)
  write_chunks_lem (suc n) i bytes m h k c =
      let here : i * max_bus_chunk + 0 ≡ i * max_bus_chunk = omega arith in
      let offset =
        chunk_offset {E = E} p addr i (o + i * max_bus_chunk) (rw here at (c 0 (omega arith))) in
      let left = length-drop max_bus_chunk bytes in
      let rest =
        write_chunks_lem n (i + 1) (drop max_bus_chunk bytes)
          (patch m (o + i * max_bus_chunk) (take max_bus_chunk bytes)) (omega arith) (omega arith)
          (next_chunk p addr o i (length bytes) (length (drop max_bus_chunk bytes)) (omega arith)
            c) in
      let next : o + (i + 1) * max_bus_chunk ≡ o + i * max_bus_chunk + max_bus_chunk =
        omega arith in
      rw offset (
        rest
        ∙ ap (λ s. (s, ok tt))
            (rw next (patch_split m max_bus_chunk (o + i * max_bus_chunk) bytes)))

  pub read_chunks_lem :
      (n i len : ℕ) (m : FlatMemory)
      → len ≤ n * max_bus_chunk
      → n * max_bus_chunk < len + max_bus_chunk
      → Contiguous p addr o (i * max_bus_chunk) len
      → read_chunks (flat E) p addr n i len m ≡ (m, ok (window m (o + i * max_bus_chunk) len))
  unfolding read_chunks window
  read_chunks_lem zero i zero m h k c = refl
  read_chunks_lem zero i (suc len) m h k c = absurd (omega arith)
  read_chunks_lem (suc n) i len m h k c =
      let here : i * max_bus_chunk + 0 ≡ i * max_bus_chunk = omega arith in
      let offset =
        chunk_offset {E = E} p addr i (o + i * max_bus_chunk) (rw here at (c 0 (omega arith))) in
      let rest =
        read_chunks_lem n (i + 1) (len - max_bus_chunk) m (omega arith) (omega arith)
          (next_chunk p addr o i len (len - max_bus_chunk) refl c) in
      let next : o + (i + 1) * max_bus_chunk ≡ o + i * max_bus_chunk + max_bus_chunk =
        omega arith in
      let joined = window_split m max_bus_chunk (o + i * max_bus_chunk) len in
      rw (offset, rest, next, joined) refl
