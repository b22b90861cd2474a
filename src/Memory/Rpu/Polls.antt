-- ===== src/Memory/Rpu/Polls.antt =====
-- memory.rs: how `poll_register` ends, on any bus.
use Prim.Native.Nat.{ℕ, zero, suc, ◌<◌, bit_and}
use embassy_zephyr_n_rf.Base.Results.{panic}
use embassy_zephyr_n_rf.Base.{
  if◌then◌else◌, Bool-cases, ◌≡◌, refl, ok, err, Outcome, arith, ◌==◌, true, false, ◌⊎◌, inl, inr,
}
use embassy_zephyr_n_rf.Base.Actions.{continue_with}
use embassy_zephyr_n_rf.Memory.Address.{RpuError}
use embassy_zephyr_n_rf.Memory.Rpu.{Bus, read_register, poll_rounds, poll_register}

module _ (bus : Bus) (addr mask expected delay : ℕ) where
  -- From the first state, that many reads give values that do not match, each with a delay after it;
  -- they lead to the second state, and the last value is the one named.
  unfoldable pub Missed : ℕ → ℕ → bus.State → bus.State → ℕ → Type 0
  Missed zero last s t v = (s ≡ t) × (last ≡ v)
  Missed (suc n) last s t v =
      (u : bus.State) × (w : ℕ) × (read_register bus addr s ≡ (u, ok w))
      × ((bit_and w mask == expected) ≡ false)
      × Missed n w (bus.delay_ms delay u) t v

  -- After fewer rounds than there are attempts, the next read has this result.
  abbrev pub Reads : ℕ → ℕ → bus.State → bus.State → Outcome (RpuError bus.Error) ℕ → Type 0
  Reads attempts last s t r =
      (k : ℕ) × (k < attempts)
      × (u : bus.State) × (v : ℕ) × Missed k last s u v
      × (read_register bus addr u ≡ (t, r))

  abbrev pub Matched : ℕ → ℕ → bus.State → bus.State → Type 0
  Matched attempts last s t =
      (w : ℕ) × ((bit_and w mask == expected) ≡ true) × Reads attempts last s t (ok w)

  unfoldable pub Ended :
      ℕ → ℕ → bus.State → bus.State × Outcome (RpuError bus.Error) (Unit {0}) → Type 0
  Ended attempts last s (t, ok _) = Matched attempts last s t
  Ended attempts last s (t, panic) = Reads attempts last s t panic
  Ended attempts last s (t, err e) =
      Reads attempts last s t (err e)
      ⊎ ((v : ℕ) × (e ≡ RpuError.poll_timeout addr mask expected v) × Missed attempts last s t v)

  Reads-next :
      (attempts last w : ℕ) (s u t : bus.State) (r : Outcome (RpuError bus.Error) ℕ)
      → read_register bus addr s ≡ (u, ok w)
      → (bit_and w mask == expected) ≡ false
      → Reads attempts w (bus.delay_ms delay u) t r
      → Reads (suc attempts) last s t r
  unfolding Missed
  Reads-next attempts last w s u t r e n (k, l, x, v, m, q) =
      (suc k, omega arith, x, v, (u, w, e, n, m), q)

  Ended-next :
      (attempts last w : ℕ) (s u : bus.State)
      (r : bus.State × Outcome (RpuError bus.Error) (Unit {0}))
      → read_register bus addr s ≡ (u, ok w)
      → (bit_and w mask == expected) ≡ false
      → Ended attempts w (bus.delay_ms delay u) r
      → Ended (suc attempts) last s r
  unfolding Ended Missed
  Ended-next attempts last w s u (t, ok x) e n (v, q, h) =
      (v, q, Reads-next attempts last w s u t (ok v) e n h)
  Ended-next attempts last w s u (t, panic) e n h = Reads-next attempts last w s u t panic e n h
  Ended-next attempts last w s u (t, err x) e n (inl h) =
      inl (Reads-next attempts last w s u t (err x) e n h)
  Ended-next attempts last w s u (t, err x) e n (inr (v, q, m)) = inr (v, q, (u, w, e, n, m))

  now :
      (attempts last : ℕ) (s t : bus.State) (r : Outcome (RpuError bus.Error) ℕ)
      → read_register bus addr s ≡ (t, r)
      → Reads (suc attempts) last s t r
  unfolding Missed
  now attempts last s t r e = (0, omega arith, s, last, (refl, refl), e)

  round-Ended :
      (attempts last : ℕ) (s : bus.State) (r : bus.State × Outcome (RpuError bus.Error) ℕ)
      → read_register bus addr s ≡ r
      → ((w : ℕ) (u : bus.State)
          → Ended attempts w u (poll_rounds bus addr mask expected delay attempts w u))
      → Ended (suc attempts) last s (
          continue_with
            (λ value u.
              if bit_and value mask == expected
              then (u, ok tt)
              else poll_rounds bus addr mask expected delay attempts value (bus.delay_ms delay u))
            r)
  unfolding Ended
  round-Ended attempts last s (u, ok w) e h = elim (Bool-cases (bit_and w mask == expected)) [
    | inl y ↦ rw y (w, y, now attempts last s u (ok w) e)
    | inr n ↦ rw n (Ended-next attempts last w s u _ e n (h w (bus.delay_ms delay u)))
  ]
  round-Ended attempts last s (u, panic) e h = now attempts last s u panic e
  round-Ended attempts last s (u, err x) e h = inl (now attempts last s u (err x) e)

  poll_rounds-Ended :
      (attempts last : ℕ) (s : bus.State)
      → Ended attempts last s (poll_rounds bus addr mask expected delay attempts last s)
  unfolding Ended Missed poll_rounds
  poll_rounds-Ended zero last s = inr (last, refl, (refl, refl))
  poll_rounds-Ended (suc attempts) last s =
      round-Ended attempts last s (read_register bus addr s) refl
        (λ w u. poll_rounds-Ended attempts w u)

-- On any bus, polling a register ends in one of these ways: fewer values than there are attempts
-- did not match, each with a delay after it, and then a read gave a matching value, or failed and
-- its error is the poll's, or panicked and the poll panics too; or all the attempts gave values
-- that did not match, each with a delay after it, and the poll fails with a timeout that names the
-- last value.
pub poll_register-Ended :
    (bus : Bus) (addr mask expected attempts delay : ℕ) (s : bus.State)
    → Ended bus addr mask expected delay attempts 0 s
        (poll_register bus addr mask expected attempts delay s)
unfolding poll_register
poll_register-Ended bus addr mask expected attempts delay s =
    poll_rounds-Ended bus addr mask expected delay attempts 0 s
