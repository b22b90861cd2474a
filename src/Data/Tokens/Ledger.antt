-- ===== src/Data/Tokens/Ledger.antt =====
-- data.rs: a token is handed out once at a time, and as long as one is free.
use Prim.Native.Nat.{ℕ, zero, suc, ◌+◌, ◌-◌, ◌%◌, ◌≤◌, ◌<◌}
use native.Mathlib.Nat.{mod-lt, mod-eq_of_lt, mod-eq-sub-mod}
use embassy_zephyr_n_rf.Base.{
  ◌≡◌, refl, sym, ap, ◌∙◌, subst, inl, inr, Option, none, some, true, false, Bool-cases, arith,
  length, dec_lt, ℕ_discrete,
}
use embassy_zephyr_n_rf.Data.Layout.{DataPath}
use embassy_zephyr_n_rf.Data.Tokens.{in_flight, set_in_flight, reserve_from, reserve_tx}

-- The state of the tokens: one flag each, the next in range, and no more than a byte can name.
pub record Tokens (TX : ℕ) (p : DataPath) : Type 0 where
  pub some_token : 0 < TX
  pub token_count : TX ≤ 137
  pub flags : length p.tx_in_flight ≡ TX
  pub next : p.next_tx < TX

-- The offset at which the loop meets a token.
offset_of : (TX next t : ℕ) → next < TX → t < TX → (d : ℕ) × (d < TX) × ((next + d) % TX ≡ t)
offset_of TX next t n h = elim (dec_lt t next) [
  | yes before ↦ (
    TX - next + t,
    omega arith,
    ap (λ x. x % TX) (omega arith)
        ∙ mod-eq-sub-mod {n = TX + t} {m = TX} (omega arith)
        ∙ ap (λ x. x % TX) (omega arith)
        ∙ mod-eq_of_lt h,
  )
  | no after ↦ (t - next, omega arith, ap (λ x. x % TX) (omega arith) ∙ mod-eq_of_lt h)
]

-- What the loop hands out was free and is in range, and it hands out nothing only if every token
-- that it looks at is in flight.
abbrev pub Handed : ℕ → ℕ → ℕ → DataPath → DataPath × Option ℕ → Type 0
Handed TX n offset p (p', none) =
    (p' ≡ p) × ((d : ℕ) → offset ≤ d → d < offset + n → in_flight ((p.next_tx + d) % TX) p ≡ true)
Handed TX n offset p (p', some t) =
    (t < TX)
    × (in_flight t p ≡ false)
    × (p' ≡ record (set_in_flight t true p) { next_tx = (t + 1) % TX })

Handed-skip :
    (TX n offset : ℕ) (p : DataPath) (r : DataPath × Option ℕ)
    → in_flight ((p.next_tx + offset) % TX) p ≡ true
    → Handed TX n (suc offset) p r
    → Handed TX (suc n) offset p r
Handed-skip TX n offset p (p', some t) busy h = h
Handed-skip TX n offset p (p', none) busy h = (
  h.0,
  λ d l m. elim (ℕ_discrete offset d) [
    | yes here ↦ subst (λ x. in_flight ((p.next_tx + x) % TX) p ≡ true) here busy
    | no later ↦ h.1 d (omega arith) (omega arith)
  ],
)

reserve_from-Handed :
    (RX TX n offset : ℕ) (p : DataPath)
    → Tokens TX p
    → Handed TX n offset p (reserve_from RX TX n offset p)
unfolding reserve_from
reserve_from-Handed RX TX zero offset p v = (refl, λ d l h. absurd (omega arith))
reserve_from-Handed RX TX (suc n) offset p v =
    let index = (p.next_tx + offset) % TX in
    let bound = mod-lt (p.next_tx + offset) {m = TX} v.some_token in
    let small : index % 256 ≡ index = mod-eq_of_lt (omega (arith, bound, v.token_count)) in
    elim (Bool-cases (in_flight index p)) [
      | inl busy ↦ rw busy (
          Handed-skip TX n offset p (reserve_from RX TX n (suc offset) p) busy
            (reserve_from-Handed RX TX n (suc offset) p v))
      | inr free ↦ rw (free, small) (bound, free, refl)
    ]

-- Reserving a token hands out one that was free and is in range, marks it and moves on; it hands
-- out none, and changes nothing, only if every token is in flight.
pub reserve_tx-Handed :
    (RX TX : ℕ) (p : DataPath) → Tokens TX p → Handed TX TX 0 p (reserve_tx RX TX p)
unfolding reserve_tx
reserve_tx-Handed RX TX p v = reserve_from-Handed RX TX TX 0 p v

-- When nothing is handed out, every token is in flight.
pub all_busy :
    (TX t : ℕ) (p q : DataPath)
    → Tokens TX p
    → Handed TX TX 0 p (q, none)
    → t < TX
    → in_flight t p ≡ true
all_busy TX t p q v (_, busy) h =
    let (d, dl, de) = offset_of TX p.next_tx t v.next h in
    subst (λ x. in_flight x p ≡ true) de (busy d (omega arith) (omega (arith, dl)))

-- When some token is free, a reservation succeeds: it returns a token that was free and is in
-- range, marks it as in flight, moves on behind it, and changes nothing else.
pub reserve_finds_free :
    (RX TX t : ℕ) (p : DataPath)
    → Tokens TX p
    → t < TX
    → in_flight t p ≡ false
    → (u : ℕ) × (u < TX)
      × (in_flight u p ≡ false)
      × (reserve_tx RX TX p ≡ (record (set_in_flight u true p) { next_tx = (u + 1) % TX }, some u))
reserve_finds_free RX TX t p v h free = go (reserve_tx RX TX p) refl (reserve_tx-Handed RX TX p v)
  where
    go :
        (r : DataPath × Option ℕ)
        → r ≡ reserve_tx RX TX p
        → Handed TX TX 0 p r
        → (u : ℕ) × (u < TX)
          × (in_flight u p ≡ false)
          × (reserve_tx RX TX p
              ≡ (record (set_in_flight u true p) { next_tx = (u + 1) % TX }, some u))
    go (p', some u) e (l, f, s) = (u, l, f, sym e ∙ ap (λ q. (q, some u)) s)
    go (p', none) e handed = absurd (cc (all_busy TX t p p' v handed h, free))
