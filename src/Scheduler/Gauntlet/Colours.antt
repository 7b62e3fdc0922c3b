-- ===== src/Scheduler/Gauntlet/Colours.antt =====
-- The colours of the games of a gauntlet.
use cope_chess.Prelude.{
  ℕ, suc, ◌+◌, ◌*◌, List, [], ◌∷◌, ◌++◌, ◌≡◌, ◌≢◌, ap, ◌∙◌, arith, length, flat_map, range,
  enumerate, if◌then◌else◌, ◌==◌, length-range_from, append-nil,
}
use cope_chess.Scheduler.Create.{GameRequest}
use cope_chess.Scheduler.Create.Counts.{
  whites, blacks, whites-append, blacks-append, whites-flat_map, blacks-flat_map, meetings,
  meetings-append, meetings-flat_map,
}
use cope_chess.Scheduler.Gauntlet.{opponents_of, gauntlet_request}
use cope_chess.Scheduler.Gauntlet.Plan.{leg_requests, gauntlet_cycle_requests, gauntlet_plan}

-- how often an engine stands in a list
unfoldable pub count : ℕ → List ℕ → ℕ
count e [] = 0
count e (x ∷ xs) = (if x == e then 1 else 0) + count e xs

-- the games of one leg from the opponent number `i` on
leg_from : ℕ → ℕ → ℕ → ℕ → ℕ → List ℕ → List GameRequest
leg_from hero n c leg i opponents =
    flat_map (λ (o : ℕ × ℕ). gauntlet_request hero n c leg o.0 o.1 ∷ []) (enumerate i opponents)

-- over the two legs of a cycle an opponent has each colour once
legs_opponent :
    (e hero n c i : ℕ) (opponents : List ℕ)
    → e ≢ hero
    → (whites e (leg_from hero n c 0 i opponents) + whites e (leg_from hero n c 1 i opponents)
        ≡ count e opponents)
      × (blacks e (leg_from hero n c 0 i opponents) + blacks e (leg_from hero n c 1 i opponents)
          ≡ count e opponents)
unfolding leg_from flat_map whites blacks gauntlet_request count
legs_opponent e _ n c i [] h = (omega arith, omega arith)
legs_opponent e hero n c i (x ∷ xs) h =
    let rest = legs_opponent e hero n c (suc i) xs h in
    (ground (arith, rest.0), ground (arith, rest.1))

-- over the two legs of a cycle the hero has each colour once against it
legs_hero :
    (e hero n c i : ℕ) (opponents : List ℕ)
    → e ≢ hero
    → (meetings hero e (leg_from hero n c 0 i opponents)
          + meetings hero e (leg_from hero n c 1 i opponents)
        ≡ count e opponents)
      × (meetings e hero (leg_from hero n c 0 i opponents)
            + meetings e hero (leg_from hero n c 1 i opponents)
          ≡ count e opponents)
unfolding leg_from flat_map meetings gauntlet_request count
legs_hero e _ n c i [] h = (omega arith, omega arith)
legs_hero e hero n c i (x ∷ xs) h =
    let rest = legs_hero e hero n c (suc i) xs h in
    (ground (arith, rest.0, h), ground (arith, rest.1, h))

module _ (e hero : ℕ) (opponents : List ℕ) (c : ℕ) where
  whites-cycle :
      whites e (gauntlet_cycle_requests hero opponents c)
      ≡ whites e (leg_from hero (length opponents) c 0 1 opponents)
        + whites e (leg_from hero (length opponents) c 1 1 opponents)
  unfolding gauntlet_cycle_requests leg_requests flat_map leg_from
  whites-cycle =
      let u = leg_from hero (length opponents) c 0 1 opponents in
      let v = leg_from hero (length opponents) c 1 1 opponents in
      whites-append e u (v ++ []) ∙ ap (λ l. whites e u + whites e l) (append-nil v)

  blacks-cycle :
      blacks e (gauntlet_cycle_requests hero opponents c)
      ≡ blacks e (leg_from hero (length opponents) c 0 1 opponents)
        + blacks e (leg_from hero (length opponents) c 1 1 opponents)
  unfolding gauntlet_cycle_requests leg_requests flat_map leg_from
  blacks-cycle =
      let u = leg_from hero (length opponents) c 0 1 opponents in
      let v = leg_from hero (length opponents) c 1 1 opponents in
      blacks-append e u (v ++ []) ∙ ap (λ l. blacks e u + blacks e l) (append-nil v)

meetings-cycle :
    (w b hero : ℕ) (opponents : List ℕ) (c : ℕ)
    → meetings w b (gauntlet_cycle_requests hero opponents c)
      ≡ meetings w b (leg_from hero (length opponents) c 0 1 opponents)
        + meetings w b (leg_from hero (length opponents) c 1 1 opponents)
unfolding gauntlet_cycle_requests leg_requests flat_map leg_from
meetings-cycle w b hero opponents c =
    let u = leg_from hero (length opponents) c 0 1 opponents in
    let v = leg_from hero (length opponents) c 1 1 opponents in
    meetings-append w b u (v ++ []) ∙ ap (λ l. meetings w b u + meetings w b l) (append-nil v)

-- In a gauntlet an opponent has White and Black once in each cycle.
pub gauntlet_plan-opponent :
    (e hero cycles : ℕ) (participants : List ℕ)
    → e ≢ hero
    → let opponents = opponents_of hero participants in
      let plan = gauntlet_plan hero opponents cycles in
      (whites e plan ≡ cycles * count e opponents) × (blacks e plan ≡ cycles * count e opponents)
unfolding gauntlet_plan
gauntlet_plan-opponent e hero cycles participants h =
    let opponents = opponents_of hero participants in
    let n = count e opponents in
    let legs = λ (c : ℕ). legs_opponent e hero (length opponents) c 1 opponents h in
    (
      whites-flat_map e n _ (λ c. whites-cycle e hero opponents c ∙ (legs c).0) (range cycles)
          ∙ ap (λ (k : ℕ). k * n) (length-range_from 0 cycles),
      blacks-flat_map e n _ (λ c. blacks-cycle e hero opponents c ∙ (legs c).1) (range cycles)
          ∙ ap (λ (k : ℕ). k * n) (length-range_from 0 cycles),
    )

-- In a gauntlet the hero has White once and Black once in each cycle against each other engine,
-- for each time that it is listed as an opponent.
pub gauntlet_plan-hero :
    (e hero cycles : ℕ) (participants : List ℕ)
    → e ≢ hero
    → let opponents = opponents_of hero participants in
      let plan = gauntlet_plan hero opponents cycles in
      (meetings hero e plan ≡ cycles * count e opponents)
      × (meetings e hero plan ≡ cycles * count e opponents)
unfolding gauntlet_plan
gauntlet_plan-hero e hero cycles participants h =
    let opponents = opponents_of hero participants in
    let n = count e opponents in
    let legs = λ (c : ℕ). legs_hero e hero (length opponents) c 1 opponents h in
    (
      meetings-flat_map hero e n _ (λ c. meetings-cycle hero e hero opponents c ∙ (legs c).0)
            (range cycles)
          ∙ ap (λ (k : ℕ). k * n) (length-range_from 0 cycles),
      meetings-flat_map e hero n _ (λ c. meetings-cycle e hero hero opponents c ∙ (legs c).1)
            (range cycles)
          ∙ ap (λ (k : ℕ). k * n) (length-range_from 0 cycles),
    )
