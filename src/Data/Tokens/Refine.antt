-- ===== src/Data/Tokens/Refine.antt =====
-- data.rs: the TX tokens refine a set of outstanding tokens.
use Prim.Native.Nat.{ℕ, ◌%◌, ◌+◌, ◌<◌, ◌≤◌}
use native.Mathlib.Nat.{mod-lt}
use embassy_zephyr_n_rf.Base.{
  leb→le, ◌≡◌, sym, ◌∙◌, subst, ◌⊎◌, inl, inr, ◌≢◌, List, [], ◌∷◌, Option, none, some, Bool, true,
  false, Bool-cases, Outcome, ok, err, panic, arith, length-set, get_or-set_self, get_or-set_ne,
  length-replicate, get_or-replicate, leb,
}
use embassy_zephyr_n_rf.Data.Types.{DataProtocolError}
use embassy_zephyr_n_rf.Data.Layout.{DataPath}
use embassy_zephyr_n_rf.Data.Tokens.{
  in_flight, set_in_flight, reserve_tx, complete_tx, reset_after_rpu_reset,
}
use embassy_zephyr_n_rf.Data.Tokens.Ledger.{Tokens, Handed, reserve_tx-Handed, all_busy}

pub data TokenCall : Type 0 where
  reserve reset : TokenCall
  complete : ℕ → TokenCall

pub data Answer : Type 0 where
  token : Option ℕ → Answer
  completed refused cleared : Answer

-- The outstanding tokens.
abbrev pub Outstanding : Type 0
Outstanding = ℕ → Bool

-- `b` agrees with `a` but for `t`, which it maps to `v`.
abbrev pub Updates : ℕ → Bool → Outstanding → Outstanding → Type 0
Updates t v a b = (b t ≡ v) × ((u : ℕ) → t ≢ u → b u ≡ a u)

-- The promise: what an answer to a call says of the tokens that are out before and after it.
pub data Promise (TX : ℕ) : Outstanding → TokenCall → Answer → Outstanding → Type 0 where
  hands_out :
      {a b : Outstanding} (t : ℕ)
      → t < TX
      → a t ≡ false
      → Updates t true a b
      → Promise TX a TokenCall.reserve (Answer.token (some t)) b
  exhausted :
      {a : Outstanding}
      → ((t : ℕ) → t < TX → a t ≡ true)
      → Promise TX a TokenCall.reserve (Answer.token none) a
  takes_back :
      {a b : Outstanding} (t : ℕ)
      → t < TX
      → a t ≡ true
      → Updates t false a b
      → Promise TX a (TokenCall.complete t) Answer.completed b
  rejects :
      {a : Outstanding} (t : ℕ)
      → (TX ≤ t) ⊎ (a t ≡ false)
      → Promise TX a (TokenCall.complete t) Answer.refused a
  forgets :
      {a b : Outstanding} → ((t : ℕ) → b t ≡ false) → Promise TX a TokenCall.reset Answer.cleared b

-- A sequence of calls that keeps the promise.
pub data Kept (TX : ℕ) : Outstanding → List TokenCall → List Answer → Outstanding → Type 0 where
  done : {a : Outstanding} → Kept TX a [] [] a
  then_call :
      {a b c : Outstanding} {call : TokenCall} {answer : Answer} {calls : List TokenCall}
      {answers : List Answer}
      → Promise TX a call answer b
      → Kept TX b calls answers c
      → Kept TX a (call ∷ calls) (answer ∷ answers) c

abbrev pub outstanding : DataPath → Outstanding
outstanding p t = in_flight t p

abbrev completion : Outcome DataProtocolError (Unit {0}) → Answer
completion (ok _) = Answer.completed
completion (err _) = Answer.refused
completion panic = Answer.refused

module _ (RX TX : ℕ) where
  abbrev pub call_token : TokenCall → DataPath → DataPath × Answer
  call_token TokenCall.reserve p = let (q, r) = reserve_tx RX TX p in (q, Answer.token r)
  call_token (TokenCall.complete t) p = let (q, r) = complete_tx RX TX t p in (q, completion r)
  call_token TokenCall.reset p = (reset_after_rpu_reset RX TX p, Answer.cleared)

  unfoldable pub call_tokens : List TokenCall → DataPath → DataPath × List Answer
  call_tokens [] p = (p, [])
  call_tokens (call ∷ calls) p =
      let (q, answer) = call_token call p in
      let (r, answers) = call_tokens calls q in (r, answer ∷ answers)

  set_in_flight-Tokens :
      (t n : ℕ) (b : Bool) (p : DataPath)
      → Tokens TX p
      → n < TX
      → Tokens TX (record (set_in_flight t b p) { next_tx = n })
  set_in_flight-Tokens t n b p v h = record {
    some_token = v.some_token;
    token_count = v.token_count;
    flags = length-set p.tx_in_flight t b ∙ v.flags;
    next = h;
  }

  set_in_flight-Updates :
      (t : ℕ) (b : Bool) (p : DataPath)
      → Tokens TX p
      → t < TX
      → Updates t b (outstanding p) (outstanding (set_in_flight t b p))
  set_in_flight-Updates t b p v h = (
    get_or-set_self p.tx_in_flight t b false (omega (arith, h, v.flags)),
    λ u ne. get_or-set_ne p.tx_in_flight t u b false ne,
  )

  -- The state is sound after a call, and the answer keeps the promise.
  abbrev Good : TokenCall → DataPath → DataPath × Answer → Type 0
  Good call p (q, answer) = Tokens TX q × Promise TX (outstanding p) call answer (outstanding q)

  reserve-Good :
      (p : DataPath) (r : DataPath × Option ℕ)
      → Tokens TX p
      → Handed TX TX 0 p r
      → Good TokenCall.reserve p (r.0, Answer.token r.1)
  reserve-Good p (q, none) v h =
      subst
        (λ x.
          Tokens TX x
          × Promise TX (outstanding p) TokenCall.reserve (Answer.token none) (outstanding x))
        (sym h.0) (v, Promise.exhausted (λ t l. all_busy TX t p q v h l))
  reserve-Good p (q, some t) v (l, f, e) =
      subst
        (λ x.
          Tokens TX x
          × Promise TX (outstanding p) TokenCall.reserve (Answer.token (some t)) (outstanding x))
        (sym e)
        (
          set_in_flight-Tokens t ((t + 1) % TX) true p v (mod-lt (t + 1) v.some_token),
          Promise.hands_out t l f (set_in_flight-Updates t true p v l),
        )

  complete-Good :
      (t : ℕ) (p : DataPath)
      → Tokens TX p
      → Good (TokenCall.complete t) p (call_token (TokenCall.complete t) p)
  unfolding complete_tx
  complete-Good t p v = elim (Bool-cases (leb TX t)) [
    | inl out ↦ rw out (v, Promise.rejects t (inl (leb→le TX t out)))
    | inr inside ↦ elim (Bool-cases (in_flight t p)) [
      | inl busy ↦
          let l : t < TX = ground arith in
          rw (inside, busy)
            (
              set_in_flight-Tokens t p.next_tx false p v v.next,
              Promise.takes_back t l busy (set_in_flight-Updates t false p v l),
            )
      | inr free ↦ rw (inside, free) (v, Promise.rejects t (inr free))
    ]
  ]

  reset-Good : (p : DataPath) → Tokens TX p → Good TokenCall.reset p (call_token TokenCall.reset p)
  unfolding reset_after_rpu_reset
  reset-Good p v = (
    record {
      some_token = v.some_token;
      token_count = v.token_count;
      flags = length-replicate TX false;
      next = v.some_token;
    },
    Promise.forgets (λ t. get_or-replicate TX t false),
  )

  call_token-Good :
      (call : TokenCall) (p : DataPath) → Tokens TX p → Good call p (call_token call p)
  call_token-Good TokenCall.reserve p v =
      reserve-Good p (reserve_tx RX TX p) v (reserve_tx-Handed RX TX p v)
  call_token-Good (TokenCall.complete t) p v = complete-Good t p v
  call_token-Good TokenCall.reset p v = reset-Good p v

  -- From a sound state, any sequence of reservations, completions and resets keeps the promise of
  -- the set of outstanding tokens: a token is handed out only while it is not out, none is refused
  -- while one is free, and only a token that is out can be completed.
  pub call_tokens-Kept :
      (calls : List TokenCall) (p : DataPath)
      → Tokens TX p
      → Kept TX (outstanding p) calls (call_tokens calls p).1 (outstanding (call_tokens calls p).0)
  unfolding call_tokens
  call_tokens-Kept [] p v = Kept.done
  call_tokens-Kept (call ∷ calls) p v =
      let (sound, kept) = call_token-Good call p v in
      Kept.then_call kept (call_tokens-Kept calls (call_token call p).0 sound)
