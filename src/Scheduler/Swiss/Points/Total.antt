-- ===== src/Scheduler/Swiss/Points/Total.antt =====
-- The sum of the Swiss points, and when the scoring is defined.
use cope_chess.Prelude.{
  ℕ, ◌+◌, ◌*◌, List, [], ◌∷◌, Option, none, some, true, ◌≡◌, refl, ap, ◌∙◌, arith, if◌then◌else◌,
  ◌==◌, elem, All, Bool-cases, inl, inr,
}
use cope_chess.Tournament.Records.{
  GameRecord, GameResult, white_wins, black_wins, draw, MatchRecord, is_bye,
}
use cope_chess.Scheduler.Swiss.Points.{
  Points, ◌>>=◌, zero_points, add_points, add_result, add_games, add_byes, swiss_points,
}

unfoldable pub total : Points → ℕ
total [] = 0
total ((k, v) ∷ rest) = v + total rest

-- the keys of a dictionary
unfoldable pub keys : Points → List ℕ
keys [] = []
keys ((k, v) ∷ rest) = k ∷ keys rest

-- games that have a result, and matches that are byes
unfoldable pub with_result : List GameRecord → ℕ
with_result [] = 0
with_result (g ∷ gs) = (elim g.result [ none ↦ 0 | some r ↦ 1 ]) + with_result gs

unfoldable pub byes : List MatchRecord → ℕ
byes [] = 0
byes (m ∷ ms) = (if is_bye m.status then 1 else 0) + byes ms

-- a step that is defined, adds `amount` to the total and keeps the keys
pub record Scored (amount : ℕ) (before : Points) (o : Option Points) : Type 0 where
  pub after : Points
  pub result : o ≡ some after
  pub more : total after ≡ total before + amount
  pub same_keys : keys after ≡ keys before

add_points-Scored :
    (e v : ℕ) (ps : Points) → elem e (keys ps) ≡ true → Scored v ps (add_points e v ps)
unfolding add_points total keys
add_points-Scored e v [] h = cc
add_points-Scored e v ((k, w) ∷ ps) h = elim (Bool-cases (k == e)) [
  | inl same ↦ record {
    after = (k, w + v) ∷ ps;
    result = rw same;
    more = omega arith;
    same_keys = refl;
  }
  | inr ne ↦
      let rest = add_points-Scored e v ps (ground arith) in
      record {
        after = (k, w) ∷ rest.after;
        result = rw (ne, rest.result);
        more = omega (arith, rest.more);
        same_keys = ap (λ l. k ∷ l) rest.same_keys;
      }
]

-- one step after another
Scored-bind :
    (a b : ℕ) (before : Points) (o : Option Points) (f : Points → Option Points)
    → Scored a before o
    → ((after : Points) → keys after ≡ keys before → Scored b after (f after))
    → Scored (a + b) before (o >>= f)
Scored-bind a b before o f s step =
    let next = step s.after s.same_keys in
    record {
      after = next.after;
      result = rw s.result next.result;
      more = omega (arith, next.more, s.more);
      same_keys = next.same_keys ∙ s.same_keys;
    }

nothing-Scored : (ps : Points) → Scored 0 ps (some ps)
nothing-Scored ps = record { after = ps; result = refl; more = omega arith; same_keys = refl }

-- both players of a game are participants
abbrev pub PlayersIn : List ℕ → GameRecord → Type 0
PlayersIn participants g =
    (elem g.white_engine_id participants ≡ true) × (elem g.black_engine_id participants ≡ true)

abbrev pub ByeIn : List ℕ → MatchRecord → Type 0
ByeIn participants m = elem m.engine1_id participants ≡ true

abbrev weight : Option GameResult → ℕ
weight none = 0
weight (some r) = 2

result-Scored :
    (result : Option GameResult) (w b : ℕ) (ps : Points)
    → elem w (keys ps) ≡ true
    → elem b (keys ps) ≡ true
    → Scored (weight result) ps (add_result result w b ps)
unfolding add_result
result-Scored none w b ps hw hb = nothing-Scored ps
result-Scored (some white_wins) w b ps hw hb = add_points-Scored w 2 ps hw
result-Scored (some black_wins) w b ps hw hb = add_points-Scored b 2 ps hb
result-Scored (some draw) w b ps hw hb =
    Scored-bind 1 1 ps _ _ (add_points-Scored w 1 ps hw)
      (λ qs same. add_points-Scored b 1 qs (rw same hb))

games-Scored :
    (participants : List ℕ) (games : List GameRecord) (ps : Points)
    → keys ps ≡ participants
    → All (PlayersIn participants) games
    → Scored (2 * with_result games) ps (add_games games ps)
unfolding add_games with_result
games-Scored participants [] ps k h = nothing-Scored ps
games-Scored participants (g ∷ games) ps k h =
    let here =
      result-Scored g.result g.white_engine_id g.black_engine_id ps (rw k h.0.0) (rw k h.0.1) in
    let all_games =
      Scored-bind (weight g.result) (2 * with_result games) ps _ (add_games games) here
        (λ qs same. games-Scored participants games qs (same ∙ k) h.1) in
    record {
      after = all_games.after;
      result = all_games.result;
      more = ground (arith, all_games.more);
      same_keys = all_games.same_keys;
    }

bye-Scored :
    (m : MatchRecord) (ps : Points)
    → elem m.engine1_id (keys ps) ≡ true
    → Scored
        (if is_bye m.status then 2 else 0)
        ps
        (if is_bye m.status then add_points m.engine1_id 2 ps else some ps)
bye-Scored m ps h = elim (Bool-cases (is_bye m.status)) [
  | inl e ↦ rw e (add_points-Scored m.engine1_id 2 ps h)
  | inr e ↦ rw e (nothing-Scored ps)
]

byes-Scored :
    (participants : List ℕ) (matches : List MatchRecord) (ps : Points)
    → keys ps ≡ participants
    → All (ByeIn participants) matches
    → Scored (2 * byes matches) ps (add_byes matches ps)
unfolding add_byes byes
byes-Scored participants [] ps k h = nothing-Scored ps
byes-Scored participants (m ∷ matches) ps k h =
    let all_byes =
      Scored-bind _ (2 * byes matches) ps _ (add_byes matches) (bye-Scored m ps (rw k h.0))
        (λ qs same. byes-Scored participants matches qs (same ∙ k) h.1) in
    record {
      after = all_byes.after;
      result = all_byes.result;
      more = ground (arith, all_byes.more);
      same_keys = all_byes.same_keys;
    }

zero_points-keys : (participants : List ℕ) → keys (zero_points participants) ≡ participants
unfolding keys zero_points
zero_points-keys [] = refl
zero_points-keys (e ∷ es) = ap (λ l. e ∷ l) (zero_points-keys es)

zero_points-total : (participants : List ℕ) → total (zero_points participants) ≡ 0
unfolding total zero_points
zero_points-total [] = refl
zero_points-total (e ∷ es) = omega (arith, zero_points-total es)

-- Where all players of the games and of the matches are participants, `_swiss_points` raises no
-- KeyError, has an entry for each participant in order, and gives out two half points for each
-- game with a result and two for each bye.
pub swiss_points-total :
    (participants : List ℕ) (games : List GameRecord) (matches : List MatchRecord)
    → All (PlayersIn participants) games
    → All (ByeIn participants) matches
    → (points : Points) × (swiss_points participants games matches ≡ some points)
      × (keys points ≡ participants)
      × (total points ≡ 2 * with_result games + 2 * byes matches)
unfolding swiss_points
swiss_points-total participants games matches hg hm =
    let start = zero_points participants in
    let k = zero_points-keys participants in
    let s =
      Scored-bind (2 * with_result games) (2 * byes matches) start _ (add_byes matches)
        (games-Scored participants games start k hg)
        (λ qs same. byes-Scored participants matches qs (same ∙ k) hm) in
    (s.after, s.result, s.same_keys ∙ k, omega (arith, s.more, zero_points-total participants))
