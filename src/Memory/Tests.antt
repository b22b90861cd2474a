-- ===== src/Memory/Tests.antt =====
-- memory.rs: the address translation at concrete addresses.
use Prim.Native.Nat.{ℕ, ◌+◌, ◌%◌, ◌^◌, ◌<◌}
use embassy_zephyr_n_rf.Memory.Rpu.{read, write, poll_register, control_register}
use embassy_zephyr_n_rf.Memory.Rpu.Flat.{FlatMemory, patch, flat}
use embassy_zephyr_n_rf.Memory.Rpu.Transfers.{padded, read-write}
use embassy_zephyr_n_rf.Memory.Rpu.Polls.{Ended, poll_register-Ended}
use Prim.Native.Nat.{◌≤◌}
use embassy_zephyr_n_rf.Base.{err, List, [], ◌∷◌, ◌≡◌, refl, ok, some, arith}
use embassy_zephyr_n_rf.Memory.Address.{
  AddressError, validate_access, Processor, host_offset, checked_range, shared_region_base,
}
use embassy_zephyr_n_rf.Memory.Address.Regions.{
  rpu_address, host_offset_back, checked_range_gap, checked_range_shared,
}

-- 0xb000_5000, where the packets start.
packets_mapped : host_offset Processor.umac 2952810496 ≡ ok 806912
unfolding host_offset
packets_mapped = refl

packets_checked : checked_range {E = ℕ} Processor.umac 2952810496 64 ≡ ok tt
unfolding checked_range host_offset
packets_checked = refl

packets_shared : shared_region_base 2952810496 ≡ some 786432
unfolding shared_region_base
packets_shared = refl

host_offset_back_example : (806912 < 2 ^ 24) × (rpu_address 806912 ≡ 2952810496)
host_offset_back_example = host_offset_back Processor.umac 2952810496 806912 packets_mapped

-- From 0x8003_3ffc over the gap to 0x8004_0003.
checked_range_gap_example :
    (checked_range {E = ℕ} Processor.lmac 2147696636 49160 ≡ ok tt)
    × (2147696636 ≤ 2147700000)
    × (2147700000 < 2147696636 + 49160)
    × (host_offset Processor.lmac 2147700000 ≡ err (AddressError.unsupported 2147700000))
checked_range_gap_example =
    checked_range_gap {E = ℕ} 2147696636 49160 2147700000 (omega arith) (omega arith) (omega arith)
      (omega arith) (omega arith) (omega arith)

checked_range_shared_example :
    host_offset Processor.umac (2952810496 + 63) ≡ ok (786432 + 2952810496 % 2 ^ 24 + 63)
checked_range_shared_example =
    checked_range_shared {E = ℕ} Processor.umac 2952810496 786432 64 63 packets_shared
      packets_checked (omega arith)

abbrev five_bytes : List ℕ
five_bytes = 17 ∷ 34 ∷ 51 ∷ 68 ∷ 85 ∷ []

abbrev blank : FlatMemory
blank i = 0

packets_access : validate_access {E = ℕ} Processor.umac 2952810496 5 ≡ ok tt
unfolding validate_access checked_range host_offset
packets_access = refl

-- Five bytes fill a word and, with three zeros, a second one.
read-write_example :
    (write (flat ℕ) Processor.umac 2952810496 five_bytes blank
      ≡ (patch blank (786432 + 2952810496 % 2 ^ 24) (padded five_bytes), ok tt))
    × (read
          (flat ℕ)
          Processor.umac
          2952810496
          5
          (patch blank (786432 + 2952810496 % 2 ^ 24) (padded five_bytes))
        ≡ (patch blank (786432 + 2952810496 % 2 ^ 24) (padded five_bytes), ok five_bytes))
read-write_example =
    read-write {E = ℕ} Processor.umac 2952810496 786432 five_bytes blank packets_shared
      packets_access

-- The reset bit of a memory of zeros reads as released.
poll_register-Ended_example :
    Ended
      (flat ℕ)
      (control_register Processor.lmac)
      1
      0
      10
      50
      0
      blank
      (poll_register (flat ℕ) (control_register Processor.lmac) 1 0 50 10 blank)
poll_register-Ended_example =
    poll_register-Ended (flat ℕ) (control_register Processor.lmac) 1 0 50 10 blank
