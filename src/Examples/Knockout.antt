-- ===== src/Examples/Knockout.antt =====
-- Brackets of a few entrants.
use cope_chess.Prelude.{ℕ, ◌≡◌, ◌≤◌, ◌<◌, ◌*◌, refl, [], ◌∷◌, arith}
use cope_chess.Scheduler.Knockout.Bracket.{bracket_seed_order, bracket_size}
use cope_chess.Scheduler.Knockout.Bracket.Order.{
  doubled, IsOrder, bracket_seed_order-IsOrder, bracket_size-lem,
}
use cope_chess.Scheduler.Knockout.Bracket.Seeding.{IsFirstRound, first_pairings-IsFirstRound}

bracket_seed_order-IsOrder_example : IsOrder 8 (bracket_seed_order 8)
bracket_seed_order-IsOrder_example = bracket_seed_order-IsOrder 2 8 (unfold doubled in refl)

bracket_size-lem_example :
    (j : ℕ) × (bracket_size 5 ≡ doubled j 2) × (5 ≤ bracket_size 5) × (bracket_size 5 < 2 * 5)
bracket_size-lem_example = bracket_size-lem 5 (omega arith)

first_pairings-IsFirstRound_example : IsFirstRound (7 ∷ 8 ∷ 9 ∷ [])
first_pairings-IsFirstRound_example = first_pairings-IsFirstRound (7 ∷ 8 ∷ 9 ∷ []) (omega arith)
