-- ===== src/Protocol/Writer/Appends.antt =====
-- codec.rs: a write that has room appends its bytes, and so do writes in a row.
use Prim.Native.Nat.{ℕ, ◌+◌, ◌*◌, ◌<◌, ◌≤◌}
use Prim.Native.Nat.{◌%◌}
use embassy_zephyr_n_rf.Base.{
  u8_mod, u32_bytes, u64_bytes, ◌∙◌, Bool, false, err, ltb, if◌then◌else◌, ◌≡◌, refl, List, [], ◌∷◌,
  ◌++◌, ok, arith, length, replicate, length-append, length-replicate, append_assoc, append-nil,
}
use embassy_zephyr_n_rf.Base.Tests.{le→ltb_not}
use embassy_zephyr_n_rf.Base.Actions.{◌>>◌}
use embassy_zephyr_n_rf.Protocol.Types.{ProtocolError}
use embassy_zephyr_n_rf.Protocol.Writer.{
  Write, write_u8, write_u16, write_u32, write_u64, Writer, write_bytes, write_zeros, write_fixed,
  write_u32s, write_fixed_u32,
}

-- The writer after the bytes.
abbrev pub appended : List ℕ → Writer → Writer
appended bs w = record w { written = w.written ++ bs }

-- With room for the bytes, the write succeeds and appends them.
unfoldable pub Appends : List ℕ → Write → Type 0
Appends bs act =
    (w : Writer)
    → length w.written + length bs ≤ w.capacity
    → w.capacity < 4294967296
    → act w ≡ (appended bs w, ok tt)

-- With room for `n` bytes, the write succeeds and appends as many.
pub record Takes (n : ℕ) (act : Write) : Type 0 where
  pub bytes : List ℕ
  pub size : length bytes ≡ n
  pub appends : Appends bytes act

pub write_bytes-Appends : (bs : List ℕ) → Appends bs (write_bytes bs)
unfolding Appends write_bytes
write_bytes-Appends bs w h k = ground arith

pub write_u8-Appends : (x : ℕ) → Appends (x % u8_mod ∷ []) (write_u8 x)
unfolding write_u8
write_u8-Appends x = write_bytes-Appends (x % u8_mod ∷ [])

pub write_u32-Appends : (x : ℕ) → Appends (u32_bytes x) (write_u32 x)
unfolding write_u32
write_u32-Appends x = write_bytes-Appends (u32_bytes x)

pub write_u64-Appends : (x : ℕ) → Appends (u64_bytes x) (write_u64 x)
unfolding write_u64
write_u64-Appends x = write_bytes-Appends (u64_bytes x)

pub >>-Appends :
    (xs ys : List ℕ) (a b : Write) → Appends xs a → Appends ys b → Appends (xs ++ ys) (a >> b)
unfolding Appends
>>-Appends xs ys a b f g w h k =
    let size = length-append xs ys in
    rw
      (
        f w (omega arith) k,
        g (appended xs w) (omega (arith, length-append w.written xs)) k,
        append_assoc w.written xs ys,
      )
      refl

pub write_bytes-Takes : (bs : List ℕ) → Takes (length bs) (write_bytes bs)
write_bytes-Takes bs = record { bytes = bs; size = refl; appends = write_bytes-Appends bs }

pub >>-Takes : {m n : ℕ} {a b : Write} → Takes m a → Takes n b → Takes (m + n) (a >> b)
>>-Takes p q = record {
  bytes = p.bytes ++ q.bytes;
  size = omega (arith, length-append p.bytes q.bytes, p.size, q.size);
  appends = >>-Appends p.bytes q.bytes _ _ p.appends q.appends;
}

pub Takes-resize : {m n : ℕ} {a : Write} → m ≡ n → Takes m a → Takes n a
Takes-resize e p = record { bytes = p.bytes; size = p.size ∙ e; appends = p.appends }

pub write_u8-Takes : (x : ℕ) → Takes 1 (write_u8 x)
unfolding write_u8
write_u8-Takes x = write_bytes-Takes _

pub write_u16-Takes : (x : ℕ) → Takes 2 (write_u16 x)
unfolding write_u16
write_u16-Takes x = write_bytes-Takes _

pub write_u32-Takes : (x : ℕ) → Takes 4 (write_u32 x)
unfolding write_u32
write_u32-Takes x = write_bytes-Takes _

pub write_u64-Takes : (x : ℕ) → Takes 8 (write_u64 x)
unfolding write_u64
write_u64-Takes x = write_bytes-Takes _

pub write_zeros-Takes : (n : ℕ) → Takes n (write_zeros n)
unfolding write_zeros
write_zeros-Takes n = Takes-resize (length-replicate n 0) (write_bytes-Takes (replicate n 0))

-- The test of a padded field passes when the value fits.
Takes-guard :
    (b : Bool) (e : ProtocolError) (n : ℕ) (act : Write)
    → b ≡ false
    → Takes n act
    → Takes n (λ w. if b then (w, err e) else act w)
Takes-guard b e n act h p = rw h p

pub write_fixed-Takes :
    (value : List ℕ) (width : ℕ) → length value ≤ width → Takes width (write_fixed value width)
unfolding write_fixed
write_fixed-Takes value width h =
    Takes-guard (ltb width (length value)) _ width _ (le→ltb_not (length value) width h)
      (Takes-resize (omega arith) (>>-Takes (write_bytes-Takes value) (write_zeros-Takes _)))

pub write_u32s-Takes : (items : List ℕ) → Takes (length items * 4) (write_u32s items)
unfolding write_u32s Appends
write_u32s-Takes [] = record {
  bytes = [];
  size = refl;
  appends = λ w h k. rw (append-nil w.written) refl;
}
write_u32s-Takes (item ∷ items) =
    Takes-resize (omega arith) (>>-Takes (write_u32-Takes item) (write_u32s-Takes items))

pub write_fixed_u32-Takes :
    (value : List ℕ) (count : ℕ)
    → length value ≤ count
    → Takes (count * 4) (write_fixed_u32 value count)
unfolding write_fixed_u32
write_fixed_u32-Takes value count h =
    Takes-guard (ltb count (length value)) _ (count * 4) _ (le→ltb_not (length value) count h)
      (Takes-resize (omega arith) (>>-Takes (write_u32s-Takes value) (write_zeros-Takes _)))
