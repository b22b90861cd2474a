-- ===== src/Memory/Address/Regions.antt =====
-- memory.rs: what the address translation and the range check guarantee.
use Prim.Native.Nat.{ℕ, ◌+◌, ◌-◌, ◌%◌, ◌^◌, ◌≤◌, ◌<◌}
use embassy_zephyr_n_rf.Base.{err, ◌≡◌, sym, ◌∙◌, some, ok, arith, ltb, if◌then◌else◌}
use embassy_zephyr_n_rf.Base.{◌⊎◌, inl, inr, ap}
use embassy_zephyr_n_rf.Memory.Address.{
  AddressError, sbus_end, pbus_end, gram_end, pktram_end, host_sbus_base, Processor, host_offset,
  checked_range, shared_region_base, sbus_start, pbus_start, gram_start, pktram_start,
  lmac_rom_start, lmac_rom_end, lmac_ret_start, lmac_ret_end, host_pbus_base, host_gram_base,
  host_pktram_base, host_lmac_direct_base, host_umac_direct_base,
}

-- The RPU address that the host window shows at an offset.
abbrev pub rpu_address : ℕ → ℕ
rpu_address o =
    if ltb o host_pbus_base
    then sbus_start + o
    else if ltb o host_gram_base
    then pbus_start + (o - host_pbus_base)
    else if ltb o host_pktram_base
    then gram_start + (o - host_gram_base)
    else if ltb o host_lmac_direct_base
    then pktram_start + (o - host_pktram_base)
    else if ltb o host_umac_direct_base
    then lmac_rom_start + (o - host_lmac_direct_base)
    else lmac_rom_start + (o - host_umac_direct_base)

-- A translated address lands inside the 24 bits of the host window, and the window's layout gives
-- the address back.
pub host_offset_back :
    (p : Processor) (a o : ℕ) → host_offset p a ≡ ok o → (o < 2 ^ 24) × (rpu_address o ≡ a)
unfolding host_offset shared_region_base
host_offset_back p a o h = ground arith

-- Two addresses that a processor sees at the same place of the host window are the same address.
host_offset_injective :
    (p : Processor) (a b o : ℕ) → host_offset p a ≡ ok o → host_offset p b ≡ ok o → a ≡ b
host_offset_injective p a b o h k = sym (host_offset_back p a o h).1 ∙ (host_offset_back p b o k).1

-- A range of the LMAC that starts in its ROM and ends in its retained RAM passes the check, although
-- every address between the two regions lies in the range and is refused by the translation as
-- unsupported.
pub checked_range_gap :
    {E : Type 0} (a len b : ℕ)
    → lmac_rom_start ≤ a
    → a ≤ lmac_rom_end
    → lmac_ret_start < a + len
    → a + len ≤ lmac_ret_end + 1
    → lmac_rom_end < b
    → b < lmac_ret_start
    → (checked_range {E = E} Processor.lmac a len ≡ ok tt)
      × (a ≤ b)
      × (b < a + len)
      × (host_offset Processor.lmac b ≡ err (AddressError.unsupported b))
unfolding checked_range host_offset shared_region_base
checked_range_gap a len b h0 h1 h2 h3 h4 h5 = (ground arith, omega arith, omega arith, ground arith)

shared_offset :
    (p : Processor) (a base : ℕ)
    → shared_region_base a ≡ some base
    → host_offset p a ≡ ok (base + a % 2 ^ 24)
unfolding host_offset
shared_offset p a base h = ground arith

-- The last byte of a range that passes the check is as far from the first in the host window.
range_end :
    {E : Type 0} (p : Processor) (a len first : ℕ)
    → host_offset p a ≡ ok first
    → checked_range {E = E} p a len ≡ ok tt
    → 0 < len
    → host_offset p (a + (len - 1)) ≡ ok (first + (len - 1))
unfolding checked_range
range_end p a len first h r l = ground arith

-- The offset lies in the mapped part of its window, where the window is of a shared region.
abbrev Shown : ℕ → Type 0
Shown o =
    (o < 262144 → o ≤ 32767)
    × (262144 ≤ o → o < 524288 → o ≤ 524287)
    × (524288 ≤ o → o < 786432 → o ≤ 590335)
    × (786432 ≤ o → o < 1048576 → o ≤ 987135)

host_offset-Shown : (p : Processor) (a o : ℕ) → host_offset p a ≡ ok o → Shown o
unfolding host_offset shared_region_base
host_offset-Shown p a o h = ground arith

-- An address between the start and the end of a region, with the region's base.
abbrev In : ℕ → ℕ → ℕ → ℕ → ℕ → Type 0
In start last host a base = (start ≤ a) × (a ≤ last) × (base ≡ host)

shared_region_base-In :
    (a base : ℕ)
    → shared_region_base a ≡ some base
    → In sbus_start sbus_end host_sbus_base a base
      ⊎ In pbus_start pbus_end host_pbus_base a base
      ⊎ In gram_start gram_end host_gram_base a base
      ⊎ In pktram_start pktram_end host_pktram_base a base
unfolding shared_region_base
shared_region_base-In a base h = ground arith

-- Between two addresses of one region every address is in the region.
shared_between :
    (p : Processor) (a base b c : ℕ)
    → shared_region_base a ≡ some base
    → host_offset p b ≡ ok (base + a % 2 ^ 24 + (b - a))
    → a ≤ c
    → c ≤ b
    → shared_region_base c ≡ some base
unfolding shared_region_base
shared_between p a base b c h e ac cb =
    let back = (host_offset_back p b (base + a % 2 ^ 24 + (b - a)) e).1 in
    let shown = host_offset-Shown p b (base + a % 2 ^ 24 + (b - a)) e in
    elim (shared_region_base-In a base h) [
      | inl r ↦ ground arith
      | inr (inl r) ↦ ground arith
      | inr (inr (inl r)) ↦ ground arith
      | inr (inr (inr r)) ↦ ground arith
    ]

shared_low :
    (a base k : ℕ)
    → shared_region_base a ≡ some base
    → shared_region_base (a + k) ≡ some base
    → base + (a + k) % 2 ^ 24 ≡ base + a % 2 ^ 24 + k
shared_low a base k h i =
    let first = shared_region_base-In a base h in
    let last = shared_region_base-In (a + k) base i in ground arith

-- In a region that both processors share, every byte of a range that passes the check is mapped, and
-- the range is contiguous in the host window.
pub checked_range_shared :
    {E : Type 0} (p : Processor) (a base len k : ℕ)
    → shared_region_base a ≡ some base
    → checked_range {E = E} p a len ≡ ok tt
    → k < len
    → host_offset p (a + k) ≡ ok (base + a % 2 ^ 24 + k)
checked_range_shared {E} p a base len k h r l =
    let last =
      range_end {E = E} p a len (base + a % 2 ^ 24) (shared_offset p a base h) r (omega arith) in
    let same : a + (len - 1) - a ≡ len - 1 = omega arith in
    let inside =
      shared_between p a base (a + (len - 1)) (a + k) h (rw same last) (omega arith)
        (omega arith) in
    shared_offset p (a + k) base inside ∙ ap ok (shared_low a base k h inside)
