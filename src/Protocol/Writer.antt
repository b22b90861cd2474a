-- ===== src/Protocol/Writer.antt =====
-- codec.rs: the bounded little-endian writer.
pub mod Appends
use Prim.Native.Nat.{◌-◌, ◌*◌, ◌%◌, ℕ, ◌+◌}
use embassy_zephyr_n_rf.Base.{
  ◌∷◌, u8_mod, u16_bytes, u64_bytes, replicate, List, [], ◌++◌, ltb, leb, ◌&&◌, if◌then◌else◌, ok,
  err, length, u32_bytes, usize_mod,
}
use embassy_zephyr_n_rf.Base.Actions.{Action, ◌>>◌}
use embassy_zephyr_n_rf.Protocol.Types.{ProtocolError}

-- The size of the buffer and the bytes before `position`; what lies behind them is left out.
pub record Writer : Type 0 where
  pub capacity : ℕ
  pub written : List ℕ

-- `Writer::new`
abbrev pub new_writer : ℕ → Writer
new_writer capacity = record { capacity = capacity; written = [] }

abbrev pub Write : Type 0
Write = Action Writer ProtocolError (Unit {0})

unfoldable pub write_bytes : List ℕ → Write
write_bytes value w =
    let end = length w.written + length value in
    if ltb end usize_mod && leb end w.capacity
    then (record w { written = w.written ++ value }, ok tt)
    else (w, err ProtocolError.buffer_too_small)

unfoldable pub write_u32 : ℕ → Write
write_u32 value = write_bytes (u32_bytes value)

unfoldable pub write_u8 : ℕ → Write
write_u8 value = write_bytes (value % u8_mod ∷ [])

unfoldable pub write_u16 : ℕ → Write
write_u16 value = write_bytes (u16_bytes value)

unfoldable pub write_u64 : ℕ → Write
write_u64 value = write_bytes (u64_bytes value)

unfoldable pub write_zeros : ℕ → Write
write_zeros count = write_bytes (replicate count 0)

-- A value in a field of `width` bytes, padded with zeros.
unfoldable pub write_fixed : List ℕ → ℕ → Write
write_fixed value width w =
    if ltb width (length value)
    then (w, err ProtocolError.limit_exceeded)
    else (write_bytes value >> write_zeros (width - length value)) w

unfoldable pub write_u32s : List ℕ → Write
write_u32s [] w = (w, ok tt)
write_u32s (item ∷ items) w = (write_u32 item >> write_u32s items) w

unfoldable pub write_fixed_u32 : List ℕ → ℕ → Write
write_fixed_u32 value count w =
    if ltb count (length value)
    then (w, err ProtocolError.limit_exceeded)
    else (write_u32s value >> write_zeros ((count - length value) * 4)) w
