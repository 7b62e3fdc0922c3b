-- ===== src/Game/TimeControl.antt =====
-- `TimeControlCategory` and `RuntimeTimeControl` of cope/tournament/time_control.py.
use cope_chess.Prelude.{Option, Bool, ◌||◌, if◌then◌else◌, is_none, ℤ}
use cope_chess.Exec.{Result, ok, err}

pub data TimeControlCategory : Type 0 where
  increment movetime movestogo movenodes : TimeControlCategory

-- all times in milliseconds
pub record RuntimeTimeControl : Type 0 where
  pub category : TimeControlCategory
  pub initial_time : Option ℤ
  pub increment : Option ℤ
  pub move_time : Option ℤ
  pub moves_to_go : Option ℤ
  pub nodes : Option ℤ

-- the texts of the ValueErrors
pub data TimeControlError : Type 0 where
  increment_needs_times movetime_needs_time movestogo_needs_times movenodes_needs_nodes :
      TimeControlError

-- a value that the category needs is None
unfoldable pub lacks : RuntimeTimeControl → TimeControlCategory → Bool
lacks t TimeControlCategory.increment = is_none t.initial_time || is_none t.increment
lacks t movetime = is_none t.move_time
lacks t movestogo = is_none t.initial_time || is_none t.moves_to_go
lacks t movenodes = is_none t.nodes

abbrev error_of : TimeControlCategory → TimeControlError
error_of TimeControlCategory.increment = increment_needs_times
error_of movetime = movetime_needs_time
error_of movestogo = movestogo_needs_times
error_of movenodes = movenodes_needs_nodes

-- `RuntimeTimeControl.__init__`, of the values that are assigned first
unfoldable pub checked_time_control :
    RuntimeTimeControl → Result TimeControlError RuntimeTimeControl
unfolding lacks
checked_time_control t = if lacks t t.category then err (error_of t.category) else ok t
