-- ===== src/Game/Agreement.antt =====
-- `probe_clock`, which is asked while an engine thinks, and `stop_clock`, which is called when it
-- is done, of cope/tournament/time_control.py.
use cope_chess.Prelude.{
  ℕ, Option, none, some, Bool, true, ◌≡◌, ◌≢◌, refl, Bool-cases, inl, inr, ℤ, pos, not_positive,
  ◌-ℤ◌,
}
use cope_chess.Exec.{Result, ok, err}
use cope_chess.Game.TimeControl.{TimeControlCategory, increment, movetime, movestogo, movenodes}
use cope_chess.Game.Clock.{
  ChessClock, TimeManager, ClockError, time_left, probe_in, probe_clock, use_time, use_move_time,
  use_moves, stop_in, stop_clock, elapsed_or, some_left, stop_chess_clock, get_elapsed_time,
  Outcome,
}

-- what the two calls have in common: the result of the subtraction, checked
pub data Agree : Result ClockError (Option ℤ) → Outcome Bool → Type 0 where
  both_fail : (e : ClockError) (m : TimeManager) → Agree (err e) (err e, m)
  both_go_on : (t : Option ℤ) (m : TimeManager) → Agree (ok t) (ok true, m)

time-Agree :
    (m : TimeManager) (o : Option ℤ) (elapsed : ℤ)
    → Agree (some_left (time_left o elapsed)) (use_time m o elapsed)
unfolding time_left use_time
time-Agree m none elapsed = both_fail _ _
time-Agree m (some remaining) elapsed = elim (Bool-cases (not_positive (remaining -ℤ elapsed))) [
  | inl e ↦ rw e (both_fail _ _)
  | inr e ↦ rw e (both_go_on _ _)
]

move_time-Agree :
    (m : TimeManager) (o : Option ℤ) (elapsed : ℤ)
    → Agree (some_left (time_left o elapsed)) (use_move_time m o elapsed)
unfolding time_left use_move_time
move_time-Agree m none elapsed = both_fail _ _
move_time-Agree m (some remaining) elapsed =
    elim (Bool-cases (not_positive (remaining -ℤ elapsed))) [
      | inl e ↦ rw e (both_fail _ _)
      | inr e ↦ rw e (both_go_on _ _)
    ]

moves-Agree :
    (m : TimeManager) (o moves : Option ℤ) (elapsed : ℤ)
    → moves ≢ none
    → Agree (some_left (time_left o elapsed)) (use_moves m o moves elapsed)
unfolding use_moves time_left
moves-Agree m none moves elapsed there = both_fail _ _
moves-Agree m (some remaining) none elapsed there = absurd (there refl)
moves-Agree m (some remaining) (some moves) elapsed there =
    time-Agree (record m { moves_to_go = some (moves -ℤ pos 1) }) (some remaining) elapsed

in-Agree :
    (m : TimeManager) (c : ChessClock) (elapsed : ℤ) (category : TimeControlCategory)
    → (category ≡ movestogo → m.moves_to_go ≢ none)
    → Agree (probe_in m elapsed category) (stop_in (record m { chess_clock = c }) elapsed category)
unfolding probe_in stop_in
in-Agree m c elapsed increment there =
    time-Agree (record m { chess_clock = c }) m.remaining_time elapsed
in-Agree m c elapsed movetime there =
    move_time-Agree (record m { chess_clock = c }) m.remaining_move_time elapsed
in-Agree m c elapsed movestogo there =
    moves-Agree (record m { chess_clock = c }) m.remaining_time m.moves_to_go elapsed (there refl)
in-Agree m c elapsed movenodes there = both_go_on _ _

-- At one moment, with one elapsed time, `probe_clock` and `stop_clock` either raise the same
-- exception or both return, provided that a manager for moves to go has a number of them.
pub probe_clock-Agree :
    (now : ℕ) (given : Option ℤ) (m : TimeManager)
    → (m.time_control.category ≡ movestogo → m.moves_to_go ≢ none)
    → Agree (probe_clock now given m) (stop_clock now given m)
unfolding probe_clock stop_clock stop_chess_clock
probe_clock-Agree now given m there =
    in-Agree m (stop_chess_clock now m.chess_clock).1
      (elapsed_or given (get_elapsed_time now m.chess_clock)) m.time_control.category there
