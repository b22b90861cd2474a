-- ===== src/Protocol/Queues/Parse.antt =====
-- protocol.rs: which byte strings the parser of the queue map accepts, and what it reads.
use Prim.Native.Nat.{ℕ, ◌+◌, ◌*◌, ◌≤◌, ◌<◌}
use embassy_zephyr_n_rf.Base.{
  le→ltb_not, lt→ltb, dec_lt, List, [], ◌∷◌, ◌≡◌, refl, le→leb, arith, ok, err, length, u32_at, ◌⊎◌,
  inl, inr,
}
use embassy_zephyr_n_rf.Protocol.Types.{ProtocolError, Hpq, HpqmInfo}
use embassy_zephyr_n_rf.Protocol.Queues.{
  reader_u32, reader_hpq, read_primary_queues, read_rx_queues, read_hpqm_info, parse_hpqm_info,
  new_reader,
}

-- The queue of a number in the packed map: two words.
abbrev pub hpq_at : List ℕ → ℕ → Hpq
hpq_at bytes n = record {
  enqueue_address = u32_at bytes (n * 8);
  dequeue_address = u32_at bytes (n * 8 + 4);
}

abbrev pub hpqm_info_at : List ℕ → HpqmInfo
hpqm_info_at bytes = record {
  event_busy = hpq_at bytes 0;
  event_available = hpq_at bytes 1;
  command_busy = hpq_at bytes 2;
  command_available = hpq_at bytes 3;
  rx_buffer_busy = hpq_at bytes 4 ∷ hpq_at bytes 5 ∷ hpq_at bytes 6 ∷ [];
}

reader_hpq_lem :
    (bytes : List ℕ) (n : ℕ)
    → n * 8 + 8 ≤ length bytes
    → reader_hpq (record { bytes = bytes; position = n * 8 })
      ≡ (record { bytes = bytes; position = n * 8 + 8 }, ok (hpq_at bytes n))
unfolding reader_hpq reader_u32
reader_hpq_lem bytes n h =
    let second : n * 8 + 4 + 4 ≡ n * 8 + 8 = omega arith in
    rw
      (le→leb (n * 8 + 4) (length bytes) (omega arith), second, le→leb (n * 8 + 8) (length bytes) h)
      refl

read_hpqm_info_lem :
    (bytes : List ℕ)
    → 56 ≤ length bytes
    → (read_hpqm_info (new_reader bytes)).1 ≡ ok (hpqm_info_at bytes)
unfolding read_hpqm_info read_primary_queues read_rx_queues
read_hpqm_info_lem bytes h =
    rw
      (
        reader_hpq_lem bytes 0 (omega arith),
        reader_hpq_lem bytes 1 (omega arith),
        reader_hpq_lem bytes 2 (omega arith),
        reader_hpq_lem bytes 3 (omega arith),
        reader_hpq_lem bytes 4 (omega arith),
        reader_hpq_lem bytes 5 (omega arith),
        reader_hpq_lem bytes 6 (omega arith),
      )
      refl

-- The parser of the queue map refuses a byte string of fewer than 56 bytes with `InvalidLength`,
-- and reads from every other one seven queues in order, the first word of each as its push and the
-- second as its pop register, as the packed layout places them.
pub parse_hpqm_info-reads :
    (bytes : List ℕ)
    → ((length bytes < 56) × (parse_hpqm_info bytes ≡ err ProtocolError.invalid_length))
      ⊎ ((56 ≤ length bytes) × (parse_hpqm_info bytes ≡ ok (hpqm_info_at bytes)))
unfolding parse_hpqm_info
parse_hpqm_info-reads bytes = elim (dec_lt (length bytes) 56) [
  | yes h ↦ inl (h, rw (lt→ltb (length bytes) 56 h) refl)
  | no h ↦ inr (
    omega arith,
    rw (le→ltb_not 56 (length bytes) (omega arith)) (read_hpqm_info_lem bytes (omega arith)),
  )
]
