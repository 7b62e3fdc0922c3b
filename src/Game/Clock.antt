-- ===== src/Game/Clock.antt =====
-- `TimeManager` and `ChessClock` of cope/tournament/time_control.py. Times that are floats of
-- milliseconds in the source are exact here: whole numbers of nanoseconds, the unit of
-- `time.perf_counter_ns`. `now` is the reading of that clock.
use cope_chess.Prelude.{
  ℕ, zero, suc, ◌+◌, ◌*◌, ◌/◌, ◌%◌, Option, none, some, Bool, true, false, ltb, if◌then◌else◌, ℤ,
  pos, negsuc, sub_ℕ, ◌+ℤ◌, ◌-ℤ◌, scale, not_positive,
}
use cope_chess.Exec.{Result, ok, err}
use cope_chess.Game.TimeControl.{
  TimeControlCategory, movetime, movestogo, movenodes, RuntimeTimeControl,
}

pub record ChessClock : Type 0 where
  pub running : Bool
  pub clock : ℕ

unfoldable pub start_chess_clock : ℕ → ChessClock → ChessClock
start_chess_clock now c = record { running = true; clock = now }

unfoldable pub get_elapsed_time : ℕ → ChessClock → ℤ
get_elapsed_time now c = if c.running then sub_ℕ now c.clock else pos 0

-- the elapsed time, and the stopped clock
unfoldable pub stop_chess_clock : ℕ → ChessClock → ℤ × ChessClock
unfolding get_elapsed_time
stop_chess_clock now c = (get_elapsed_time now c, record c { running = false })

pub record TimeManager : Type 0 where
  pub time_control : RuntimeTimeControl
  pub chess_clock : ChessClock
  pub remaining_time : Option ℤ
  pub remaining_move_time : Option ℤ
  pub moves_to_go : Option ℤ
  pub nodes : Option ℤ

-- `type_error` is arithmetic on None
pub data ClockError : Type 0 where
  timed_out type_error : ClockError

abbrev pub ns_per_ms : ℕ
ns_per_ms = 1000000

-- Python's `round` of n nanoseconds to milliseconds: halves go to the even neighbour
unfoldable pub round_half_even : ℕ → ℕ
round_half_even n =
    let q = n / ns_per_ms in
    let r = n % ns_per_ms in
    if ltb (2 * r) ns_per_ms then q else if ltb ns_per_ms (2 * r) then q + 1 else q + q % 2

abbrev pub negate : ℕ → ℤ
negate zero = pos 0
negate (suc n) = negsuc n

unfoldable pub round_ms : ℤ → ℤ
unfolding round_half_even
round_ms (pos n) = pos (round_half_even n)
round_ms (negsuc n) = negate (round_half_even (suc n))

abbrev pub of_ms : ℤ → ℤ
of_ms t = scale ns_per_ms t

abbrev pub option_of_ms : Option ℤ → Option ℤ
option_of_ms none = none
option_of_ms (some t) = some (of_ms t)

unfoldable pub create_manager : ℕ → RuntimeTimeControl → TimeManager
create_manager now t = record {
  time_control = t;
  chess_clock = record { running = false; clock = now };
  remaining_time = option_of_ms t.initial_time;
  remaining_move_time = option_of_ms t.move_time;
  moves_to_go = t.moves_to_go;
  nodes = t.nodes;
}

abbrev pub Outcome : Type 0 → Type 0
Outcome A = Result ClockError A × TimeManager

unfoldable pub started : ℕ → TimeManager → Outcome Bool
unfolding start_chess_clock
started now m = (ok true, record m { chess_clock = start_chess_clock now m.chess_clock })

unfoldable pub add_increment : ℕ → TimeManager → Option ℤ → Option ℤ → Outcome Bool
unfolding started round_ms
add_increment now m (some remaining) (some increment) =
    started now
      (record m { remaining_time = some (of_ms (round_ms (remaining +ℤ of_ms increment))) })
add_increment now m _ _ = (err type_error, m)

unfoldable pub start_in : ℕ → TimeManager → TimeControlCategory → Outcome Bool
unfolding add_increment started
start_in now m TimeControlCategory.increment =
    add_increment now m m.remaining_time m.time_control.increment
start_in now m movetime = started now m
start_in now m movestogo = started now m
start_in now m movenodes = started now m

-- `ok true` where the source returns
unfoldable pub start_clock : ℕ → TimeManager → Outcome Bool
unfolding start_in
start_clock now m = start_in now m m.time_control.category

abbrev pub elapsed_or : Option ℤ → ℤ → ℤ
elapsed_or none wall = wall
elapsed_or (some given) wall = given

-- `remaining - elapsed`, `_raise_if_timed_out` and `round`
unfoldable pub time_left : Option ℤ → ℤ → Result ClockError ℤ
unfolding round_ms
time_left none elapsed = err type_error
time_left (some remaining) elapsed =
    let left = remaining -ℤ elapsed in
    if not_positive left then err timed_out else ok (round_ms left)

abbrev pub some_left : Result ClockError ℤ → Result ClockError (Option ℤ)
some_left (ok t) = ok (some t)
some_left (err e) = err e

unfoldable pub probe_in : TimeManager → ℤ → TimeControlCategory → Result ClockError (Option ℤ)
unfolding time_left
probe_in m elapsed TimeControlCategory.increment = some_left (time_left m.remaining_time elapsed)
probe_in m elapsed movetime = some_left (time_left m.remaining_move_time elapsed)
probe_in m elapsed movestogo = some_left (time_left m.remaining_time elapsed)
probe_in m elapsed movenodes = ok m.nodes

unfoldable pub probe_clock : ℕ → Option ℤ → TimeManager → Result ClockError (Option ℤ)
unfolding probe_in get_elapsed_time
probe_clock now given m =
    probe_in m (elapsed_or given (get_elapsed_time now m.chess_clock)) m.time_control.category

-- `self._remaining_time -= elapsed` is written before the check
unfoldable pub use_time : TimeManager → Option ℤ → ℤ → Outcome Bool
unfolding round_ms
use_time m none elapsed = (err type_error, m)
use_time m (some remaining) elapsed =
    let left = remaining -ℤ elapsed in
    if not_positive left
    then (err timed_out, record m { remaining_time = some left })
    else (ok true, record m { remaining_time = some (of_ms (round_ms left)) })

unfoldable pub use_move_time : TimeManager → Option ℤ → ℤ → Outcome Bool
use_move_time m none elapsed = (err type_error, m)
use_move_time m (some remaining) elapsed =
    if not_positive (remaining -ℤ elapsed) then (err timed_out, m) else (ok true, m)

-- `self._remaining_time -= elapsed` and then `self._moves_to_go -= 1`
unfoldable pub use_moves : TimeManager → Option ℤ → Option ℤ → ℤ → Outcome Bool
unfolding use_time
use_moves m none moves elapsed = (err type_error, m)
use_moves m (some remaining) none elapsed =
    (err type_error, record m { remaining_time = some (remaining -ℤ elapsed) })
use_moves m (some remaining) (some moves) elapsed =
    use_time (record m { moves_to_go = some (moves -ℤ pos 1) }) (some remaining) elapsed

unfoldable pub stop_in : TimeManager → ℤ → TimeControlCategory → Outcome Bool
unfolding use_time use_move_time use_moves
stop_in m elapsed TimeControlCategory.increment = use_time m m.remaining_time elapsed
stop_in m elapsed movetime = use_move_time m m.remaining_move_time elapsed
stop_in m elapsed movestogo = use_moves m m.remaining_time m.moves_to_go elapsed
stop_in m elapsed movenodes = (ok true, m)

unfoldable pub stop_clock : ℕ → Option ℤ → TimeManager → Outcome Bool
unfolding stop_in stop_chess_clock
stop_clock now given m =
    let (wall, stopped) = stop_chess_clock now m.chess_clock in
    stop_in (record m { chess_clock = stopped }) (elapsed_or given wall) m.time_control.category

unfoldable pub stop_clock_after_timeout : ℕ → TimeManager → TimeManager
unfolding stop_chess_clock
stop_clock_after_timeout now m = record m { chess_clock = (stop_chess_clock now m.chess_clock).1 }

pub record Snapshot : Type 0 where
  pub remaining_time : Option ℤ
  pub remaining_move_time : Option ℤ
  pub moves_to_go : Option ℤ
  pub nodes : Option ℤ

unfoldable pub snapshot : TimeManager → Snapshot
snapshot m = record {
  remaining_time = m.remaining_time;
  remaining_move_time = m.remaining_move_time;
  moves_to_go = m.moves_to_go;
  nodes = m.nodes;
}

unfoldable pub restore : Snapshot → TimeManager → TimeManager
restore s m = record m {
  remaining_time = s.remaining_time;
  remaining_move_time = s.remaining_move_time;
  moves_to_go = s.moves_to_go;
  nodes = s.nodes;
}
