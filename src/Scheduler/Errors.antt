-- ===== src/Scheduler/Errors.antt =====
-- The exceptions of cope/runner/scheduler.py: a constructor for each text of a ValueError, the
-- KeyError and IndexError of its lookups, and the error of a UNIQUE constraint that a row breaks.
pub data ScheduleError : Type 0 where
  round_robin_options_invalid : ScheduleError
  gauntlet_options_invalid : ScheduleError
  swiss_options_invalid : ScheduleError
  knockout_options_invalid : ScheduleError
  hero_added_as_opponent : ScheduleError
  not_in_list : ScheduleError
  unsupported_format : ScheduleError
  tournament_missing : ScheduleError
  not_startable : ScheduleError
  key_error : ScheduleError
  index_error : ScheduleError
  constraint_violated : ScheduleError
  odds_participants : ScheduleError
  odds_positions_missing : ScheduleError
