-- ===== src/Protocol/Queues.antt =====
-- protocol.rs: the queue map of the firmware, read in order.
pub mod Parse
use Prim.Native.Nat.{ℕ, ◌+◌}
use embassy_zephyr_n_rf.Base.{
  List, [], ◌∷◌, leb, ltb, if◌then◌else◌, Outcome, ok, err, length, u32_at,
}
use embassy_zephyr_n_rf.Base.Results
use embassy_zephyr_n_rf.Base.Actions.{Action, ◌>>=◌, pure}
use embassy_zephyr_n_rf.Protocol.Types.{ProtocolError, Hpq, HpqmInfo}

pub record Reader : Type 0 where
  pub bytes : List ℕ
  pub position : ℕ

abbrev pub Read : Type 0 → Type 0
Read A = Action Reader ProtocolError A

-- `Reader::new`
abbrev pub new_reader : List ℕ → Reader
new_reader bytes = record { bytes = bytes; position = 0 }

-- `Reader::u32`; the position stays below the length of a queue map and does not wrap.
unfoldable pub reader_u32 : Read ℕ
reader_u32 r =
    let end = r.position + 4 in
    if leb end (length r.bytes)
    then (record r { position = end }, ok (u32_at r.bytes r.position))
    else (r, err ProtocolError.invalid_length)

-- `Reader::hpq`
unfoldable pub reader_hpq : Read Hpq
reader_hpq = reader_u32 >>= λ enqueue_address. reader_u32 >>= λ dequeue_address.
    pure (ok record { enqueue_address = enqueue_address; dequeue_address = dequeue_address })

unfoldable pub read_primary_queues : Read (Hpq × Hpq × Hpq × Hpq)
read_primary_queues = reader_hpq >>= λ event_busy. reader_hpq >>= λ event_available.
    reader_hpq >>= λ command_busy. reader_hpq >>= λ command_available.
    pure (ok (event_busy, event_available, command_busy, command_available))

unfoldable pub read_rx_queues : Read (List Hpq)
read_rx_queues = reader_hpq >>= λ first.
    reader_hpq >>= λ second. reader_hpq >>= λ third. pure (ok (first ∷ second ∷ third ∷ []))

unfoldable pub read_hpqm_info : Read HpqmInfo
read_hpqm_info =
    read_primary_queues >>= λ (event_busy, event_available, command_busy, command_available).
    read_rx_queues >>= λ rx_buffer_busy. pure (
      ok record {
        event_busy = event_busy;
        event_available = event_available;
        command_busy = command_busy;
        command_available = command_available;
        rx_buffer_busy = rx_buffer_busy;
      })

abbrev pub hpqm_info_len : ℕ
hpqm_info_len = 56

-- `HpqmInfo::parse`
unfoldable pub parse_hpqm_info : List ℕ → Outcome ProtocolError HpqmInfo
parse_hpqm_info bytes =
    if ltb (length bytes) hpqm_info_len
    then err ProtocolError.invalid_length
    else (read_hpqm_info (new_reader bytes)).1
