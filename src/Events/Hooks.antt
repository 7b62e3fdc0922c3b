-- ===== src/Events/Hooks.antt =====
-- What the scheduler uses of the events and of the chat: `odds_event` of cope/events/duck_vs_fish.py,
-- `advance_hand_brain` of cope/events/engine_hand_brain.py, `announce_tournament_started` of
-- cope/chat/system.py and `_reconcile_engine_relay_events_for_tournament` of cope/db/repo.py.
-- These keep their state in tables of their own.
use cope_chess.Prelude.{ℕ, Option, Bool}
use cope_chess.Tournament.Records.{TournamentRecord}
use cope_chess.Tournament.Store.{Db}
use cope_chess.Scheduler.Advance.{TournamentAdvance}

pub record Hooks : Type 0 where
  pub odds_event : ℕ → Db → Bool
  pub advance_hand_brain : TournamentRecord → Db → Option TournamentAdvance × Db
  pub announce_tournament_started : TournamentRecord → ℕ → Db → Db
  pub reconcile_engine_relay_events : ℕ → Db → Db
