-- ===== src/Data/Layout/Regions.antt =====
-- data.rs: the slots of a layout that `DataPath::new` accepts lie in packet RAM, apart.
use Prim.Native.Nat.{ℕ, zero, suc, ◌+◌, ◌*◌, ◌/◌, ◌%◌, ◌≤◌, ◌<◌}
use native.Mathlib.Nat.{mul-le-mul_right}
use embassy_zephyr_n_rf.Base.{Succeeds, some, ◌≡◌, false, ok, arith, replicate}
use embassy_zephyr_n_rf.Data.Types.{packet_end, packet_ram_size, max_tx_tokens}
use embassy_zephyr_n_rf.Data.Layout.{packet_base, tx_slot_address, rx_slot_address, DataPath, new}

-- What an accepted layout guarantees.
pub record Laid (RX TX rx_size tx_size : ℕ) (p : DataPath) : Type 0 where
  pub sizes : (p.rx_buffer_size ≡ rx_size) × (p.tx_buffer_size ≡ tx_size)
  pub rx_count : (0 < RX) × (RX ≤ 65535)
  pub tx_count : (0 < TX) × (TX ≤ max_tx_tokens)
  pub rx_room : (rx_size + 4 ≤ p.rx_stride) × (p.rx_stride % 4 ≡ 0)
  pub tx_room : (tx_size + 52 ≤ p.tx_stride) × (p.tx_stride % 4 ≡ 0)
  pub fits : p.rx_stride * RX + p.tx_stride * TX ≤ packet_ram_size
  pub base : p.rx_base + p.rx_stride * RX ≡ packet_end + 1
  pub free : p.tx_in_flight ≡ replicate TX false
  pub unposted : p.rx_posted ≡ replicate RX false
  pub start : p.next_tx ≡ 0

pub new-Laid :
    (RX TX rx_size tx_size : ℕ) (p : DataPath)
    → new RX TX rx_size tx_size ≡ ok p
    → Laid RX TX rx_size tx_size p
unfolding new
new-Laid RX TX rx_size tx_size p h = ground arith

slot_within : (i n stride : ℕ) → i < n → i * stride + stride ≤ stride * n
slot_within i n stride h = omega (arith, mul-le-mul_right {m = suc i} {n = n} stride h)

slots_ordered : (i j stride : ℕ) → i < j → i * stride + stride ≤ j * stride
slots_ordered i j stride h = omega (arith, mul-le-mul_right {m = suc i} {n = j} stride h)

aligned_multiple : (i stride : ℕ) → stride % 4 ≡ 0 → i * stride % 4 ≡ 0
aligned_multiple zero stride h = omega arith
aligned_multiple (suc i) stride h = omega (arith, aligned_multiple i stride h)

-- The address of a token's slot, without the wrapping.
tx_slot_address_lem :
    {RX TX rx_size tx_size : ℕ} {p : DataPath} (token : ℕ)
    → Laid RX TX rx_size tx_size p
    → token < TX
    → tx_slot_address RX TX token p ≡ some (packet_base + token * p.tx_stride)
unfolding tx_slot_address
tx_slot_address_lem {TX = TX} {p = p} token laid h =
    let within = slot_within token TX p.tx_stride h in let fits = laid.fits in ground arith

rx_slot_address_lem :
    {RX TX rx_size tx_size : ℕ} {p : DataPath} (descriptor : ℕ)
    → Laid RX TX rx_size tx_size p
    → descriptor < RX
    → rx_slot_address RX TX descriptor p ≡ some (p.rx_base + descriptor * p.rx_stride)
unfolding rx_slot_address
rx_slot_address_lem {RX = RX} {p = p} descriptor laid h =
    let within = slot_within descriptor RX p.rx_stride h in let base = laid.base in ground arith

-- In an accepted layout every TX token and every RX descriptor has a slot in packet RAM, computed
-- without wrapping and aligned to four bytes: a TX slot ends before every RX slot starts, each has
-- room for a buffer of the configured size and its headroom, and no RX slot passes the end of the
-- packet RAM.
pub slots_in_packet_ram :
    (RX TX rx_size tx_size : ℕ) (p : DataPath) (token descriptor : ℕ)
    → new RX TX rx_size tx_size ≡ ok p
    → token < TX
    → descriptor < RX
    → (a : ℕ) × (b : ℕ) × (tx_slot_address RX TX token p ≡ some a)
      × (rx_slot_address RX TX descriptor p ≡ some b)
      × (packet_base ≤ a)
      × (a + tx_size + 52 ≤ b)
      × (b + rx_size + 4 ≤ packet_end + 1)
      × (a % 4 ≡ 0)
      × (b % 4 ≡ 0)
slots_in_packet_ram RX TX rx_size tx_size p token descriptor h t d =
    let laid = new-Laid RX TX rx_size tx_size p h in
    let within_tx = slot_within token TX p.tx_stride t in
    let within_rx = slot_within descriptor RX p.rx_stride d in
    let tx_aligned = aligned_multiple token p.tx_stride laid.tx_room.1 in
    let rx_aligned = aligned_multiple descriptor p.rx_stride laid.rx_room.1 in
    let all_aligned = aligned_multiple RX p.rx_stride laid.rx_room.1 in
    let fits = laid.fits in
    let base = laid.base in
    let rx_room = laid.rx_room.0 in
    let tx_room = laid.tx_room.0 in
    (
      packet_base + token * p.tx_stride,
      p.rx_base + descriptor * p.rx_stride,
      tx_slot_address_lem token laid t,
      rx_slot_address_lem descriptor laid d,
      omega arith,
      omega arith,
      omega arith,
      omega arith,
      omega arith,
    )

-- In an accepted layout the slots of two TX tokens do not overlap, and neither do those of two RX
-- descriptors.
pub slots_disjoint :
    (RX TX rx_size tx_size : ℕ) (p : DataPath) (i j k l : ℕ)
    → new RX TX rx_size tx_size ≡ ok p
    → i < j
    → j < TX
    → k < l
    → l < RX
    → ((a : ℕ) × (b : ℕ) × (tx_slot_address RX TX i p ≡ some a)
        × (tx_slot_address RX TX j p ≡ some b)
        × (a + tx_size + 52 ≤ b))
      × ((a : ℕ) × (b : ℕ) × (rx_slot_address RX TX k p ≡ some a)
          × (rx_slot_address RX TX l p ≡ some b)
          × (a + rx_size + 4 ≤ b))
slots_disjoint RX TX rx_size tx_size p i j k l h ij jn kl ln =
    let laid = new-Laid RX TX rx_size tx_size p h in
    let tx_order = slots_ordered i j p.tx_stride ij in
    let rx_order = slots_ordered k l p.rx_stride kl in
    let rx_room = laid.rx_room.0 in
    let tx_room = laid.tx_room.0 in
    (
      (_, _, tx_slot_address_lem i laid (omega arith), tx_slot_address_lem j laid jn, omega arith),
      (_, _, rx_slot_address_lem k laid (omega arith), rx_slot_address_lem l laid ln, omega arith),
    )

-- `DataPath::new` accepts every layout whose counts and sizes are in range and whose aligned slots
-- together fit the packet RAM.
pub new_accepts :
    (RX TX rx_size tx_size : ℕ)
    → 0 < RX
    → RX ≤ 65535
    → 0 < TX
    → TX ≤ 137
    → 0 < rx_size
    → rx_size ≤ 65535
    → 14 ≤ tx_size
    → tx_size ≤ 65535
    → (rx_size + 7) / 4 * 4 * RX + (tx_size + 55) / 4 * 4 * TX ≤ packet_ram_size
    → Succeeds (new RX TX rx_size tx_size)
unfolding new
new_accepts RX TX rx_size tx_size r0 r1 t0 t1 s0 s1 u0 u1 fits =
    let rx_same : (rx_size + 4 + 3) % 4294967296 ≡ rx_size + 7 = omega arith in
    let tx_same : (tx_size + 52 + 3) % 4294967296 ≡ tx_size + 55 = omega arith in ground arith
