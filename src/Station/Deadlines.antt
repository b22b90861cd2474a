-- ===== src/Station/Deadlines.antt =====
-- station.rs: `advance_time` over a sequence of timer ticks.
use Prim.Native.Nat.{ℕ, ◌+◌, ◌-◌, ◌≤◌, ◌<◌}
use embassy_zephyr_n_rf.Base.{
  sym, subst, ap, dec_lt, ◌∙◌, ◌≡◌, refl, List, [], ◌∷◌, none, some, arith,
}
use embassy_zephyr_n_rf.Station.Types.{StationState, StationFault, StationController}
use embassy_zephyr_n_rf.Station.Core.{advance_time}

unfoldable pub advance_all : List ℕ → StationController → StationController
advance_all [] c = c
advance_all (elapsed ∷ rest) c = advance_all rest (advance_time elapsed c).0

abbrev pub total : List ℕ → ℕ
total [] = 0
total (elapsed ∷ rest) = elapsed + total rest

abbrev pub TimedOut : StationController → StationController → Type 0
TimedOut c c' =
    (c'.state ≡ StationState.fault)
    × (c'.last_fault ≡ some (StationFault.timeout c.state))
    × (c'.pending_command ≡ none)
    × (c'.pending_return_state ≡ none)
    × (c'.remaining_ms ≡ none)

advance_time_idle :
    (elapsed : ℕ) (c : StationController) → c.remaining_ms ≡ none → (advance_time elapsed c).0 ≡ c
unfolding advance_time
advance_time_idle elapsed c e = ground arith

advance_all_idle :
    (ticks : List ℕ) (c : StationController) → c.remaining_ms ≡ none → advance_all ticks c ≡ c
unfolding advance_all
advance_all_idle [] c e = refl
advance_all_idle (elapsed ∷ rest) c e =
    rw (advance_time_idle elapsed c e) (advance_all_idle rest c e)

advance_time_early :
    (elapsed remaining : ℕ) (c : StationController)
    → c.remaining_ms ≡ some remaining
    → elapsed < remaining
    → (advance_time elapsed c).0 ≡ record c { remaining_ms = some (remaining - elapsed) }
unfolding advance_time
advance_time_early elapsed remaining c e h = ground arith

advance_time_late :
    (elapsed remaining : ℕ) (c : StationController)
    → c.remaining_ms ≡ some remaining
    → remaining ≤ elapsed
    → TimedOut c (advance_time elapsed c).0
unfolding advance_time
advance_time_late elapsed remaining c e h = ground arith

-- In a state with a running deadline, ticks that together reach it put the controller into the
-- fault state with the timeout of that state as its fault and nothing pending, however the time is
-- cut into ticks and whatever ticks follow.
pub deadline_reached :
    (ticks : List ℕ) (c : StationController) (remaining : ℕ)
    → c.remaining_ms ≡ some remaining
    → remaining ≤ total ticks
    → 0 < remaining
    → TimedOut c (advance_all ticks c)
unfolding advance_all
deadline_reached [] c remaining e h p = absurd (omega arith)
deadline_reached (elapsed ∷ rest) c remaining e h p = elim (dec_lt elapsed remaining) [
  | yes early ↦
      subst (λ x. TimedOut c (advance_all rest x))
        (sym (advance_time_early elapsed remaining c e early))
        (deadline_reached rest (record c { remaining_ms = some (remaining - elapsed) })
          (remaining - elapsed) refl (omega arith) (omega arith))
  | no late ↦
      let out = advance_time_late elapsed remaining c e (omega arith) in
      subst (TimedOut c) (sym (advance_all_idle rest (advance_time elapsed c).0 out.4)) out
]

-- Ticks that do not reach the deadline together only lower the remaining time, by their sum.
pub deadline_pending :
    (ticks : List ℕ) (c : StationController) (remaining : ℕ)
    → c.remaining_ms ≡ some remaining
    → total ticks < remaining
    → advance_all ticks c ≡ record c { remaining_ms = some (remaining - total ticks) }
unfolding advance_all
deadline_pending [] c remaining e h = ground arith
deadline_pending (elapsed ∷ rest) c remaining e h =
    rw (advance_time_early elapsed remaining c e (omega arith)) (
      deadline_pending rest (record c { remaining_ms = some (remaining - elapsed) })
        (remaining - elapsed) refl (omega arith)
      ∙ ap (λ r. record c { remaining_ms = some r }) (omega arith))
