-- ===== src/Assignments/Safe.antt =====
-- The invariant of the tables of assignments and games in cope/db/repo.py, and updates of the two
-- tables.
pub mod Claiming
pub mod Playing
pub mod Resetting
pub mod Returning
pub mod Leaving
pub mod Replaying
use cope_chess.Prelude.{
  ℕ, List, [], ◌∷◌, ◌++◌, Bool, true, false, not, ◌&&◌, ◌==◌, if◌then◌else◌, map, keep, ltb, ◌≡◌,
  inl, inr, refl, Bool-cases, All, Unique, All-map, All-imp, All-both, All-kept, All-all,
  map-map_same, Unique-map-keep, sym, ap, arith,
}
use cope_chess.Tournament.Records.{GameRecord, GameStatus}
use cope_chess.Assignments.Records.{AssignmentRecord, Pool, is_active, update_where}

-- a game that is to be played, again or for the first time
abbrev pub is_open : GameStatus → Bool
is_open GameStatus.pending = true
is_open GameStatus.abandoned = true
is_open _ = false

abbrev pub apart : AssignmentRecord → GameRecord → Bool
apart a g = not (is_active a.status && (a.game_id == g.id && is_open g.status))

abbrev pub IsApart : List AssignmentRecord → List GameRecord → Type 0
IsApart xs gs = All (λ a. All (λ g. apart a g ≡ true) gs) xs

-- No active assignment is for a game that is pending or abandoned; a game has at most one
-- assignment; ids are different and below the next one.
pub record Safe (xs : List AssignmentRecord) (gs : List GameRecord) (next : ℕ) : Type 0 where
  pub apart : IsApart xs gs
  pub one_each : Unique (map (λ a. a.game_id) xs)
  pub ids : Unique (map (λ a. a.id) xs)
  pub game_ids : Unique (map (λ g. g.id) gs)
  pub fresh : All (λ a. ltb a.id next ≡ true) xs

abbrev pub IsSafe : Pool → Type 0
IsSafe p = Safe p.assignments p.db.games p.next_assignment_id

pub Apart-map :
    (E : AssignmentRecord → Type 0) (F : GameRecord → Type 0)
    (f : AssignmentRecord → AssignmentRecord)
    → (h : GameRecord → GameRecord) (xs : List AssignmentRecord) (gs : List GameRecord)
    → ((a : AssignmentRecord) (g : GameRecord)
        → E a
        → F g
        → apart a g ≡ true
        → apart (f a) (h g) ≡ true)
    → All E xs
    → All F gs
    → IsApart xs gs
    → IsApart (map f xs) (map h gs)
Apart-map E F f h xs gs step e ff ok =
    All-map (λ a. E a × All (λ g. apart a g ≡ true) gs) _ f xs
      (λ a x.
        All-map (λ g. F g × (apart a g ≡ true)) _ h gs (λ g y. step a g x.0 y.0 y.1)
          (All-both F (λ g. apart a g ≡ true) gs ff x.1))
      (All-both E _ xs e ok)

-- a conditional update of a row leaves what the update leaves
pub if_same {ℓ κ} :
    {A : Type ℓ} {B : Type κ} (k : A → B) (p : A → Bool) (set : A → A)
    → ((x : A) → k (set x) ≡ k x)
    → (x : A) → k (if p x then set x else x) ≡ k x
if_same k p set same x = elim (Bool-cases (p x)) [ inl e ↦ rw e (same x) | inr e ↦ rw e refl ]

module _ (E : AssignmentRecord → Type 0) (F : GameRecord → Type 0) (pa : AssignmentRecord → Bool)
    (sa : AssignmentRecord → AssignmentRecord) (pg : GameRecord → Bool)
    (sg : GameRecord → GameRecord) (same_game : (a : AssignmentRecord) → (sa a).game_id ≡ a.game_id)
    (same_id : (a : AssignmentRecord) → (sa a).id ≡ a.id)
    (same_game_id : (g : GameRecord) → (sg g).id ≡ g.id) where
  pub Safe-update :
      (xs : List AssignmentRecord) (gs : List GameRecord) (next : ℕ)
      → ((a : AssignmentRecord) (g : GameRecord)
          → E a
          → F g
          → apart a g ≡ true
          → apart (if pa a then sa a else a) (if pg g then sg g else g) ≡ true)
      → All E xs
      → All F gs
      → Safe xs gs next
      → Safe (update_where pa sa xs) (update_where pg sg gs) next
  unfolding update_where
  Safe-update xs gs next step e ff s = record {
    apart = Apart-map E F _ _ xs gs step e ff s.apart;
    one_each =
        rw
          (map-map_same (λ (a : AssignmentRecord). a.game_id) (λ a. if pa a then sa a else a) xs
            (if_same (λ a. a.game_id) pa sa same_game))
          s.one_each;
    ids =
        rw
          (map-map_same (λ (a : AssignmentRecord). a.id) (λ a. if pa a then sa a else a) xs
            (if_same (λ a. a.id) pa sa same_id))
          s.ids;
    game_ids =
        rw
          (map-map_same (λ (g : GameRecord). g.id) (λ g. if pg g then sg g else g) gs
            (if_same (λ g. g.id) pg sg same_game_id))
          s.game_ids;
    fresh = All-map _ _ _ xs (λ a h. rw (if_same (λ b. b.id) pa sa same_id a) h) s.fresh;
  }

-- an update of assignments that makes none active
pub Safe-assignments :
    (pa : AssignmentRecord → Bool) (sa : AssignmentRecord → AssignmentRecord)
    → ((a : AssignmentRecord) → (sa a).game_id ≡ a.game_id)
    → ((a : AssignmentRecord) → (sa a).id ≡ a.id)
    → ((a : AssignmentRecord)
        → pa a ≡ true
        → is_active (sa a).status ≡ true
        → is_active a.status ≡ true)
    → (xs : List AssignmentRecord) (gs : List GameRecord) (next : ℕ) → Safe xs gs next
    → Safe (update_where pa sa xs) gs next
unfolding update_where
Safe-assignments pa sa same_game same_id active xs gs next s = record {
  apart = All-map _ _ _ xs (λ a h. All-imp _ _ gs (still a) h) s.apart;
  one_each =
      rw
        (map-map_same (λ (a : AssignmentRecord). a.game_id) (λ a. if pa a then sa a else a) xs
          (if_same (λ a. a.game_id) pa sa same_game))
        s.one_each;
  ids =
      rw
        (map-map_same (λ (a : AssignmentRecord). a.id) (λ a. if pa a then sa a else a) xs
          (if_same (λ a. a.id) pa sa same_id))
        s.ids;
  game_ids = s.game_ids;
  fresh = All-map _ _ _ xs (λ a h. rw (if_same (λ b. b.id) pa sa same_id a) h) s.fresh;
}
  where
    still :
        (a : AssignmentRecord) (g : GameRecord)
        → apart a g ≡ true
        → apart (if pa a then sa a else a) g ≡ true
    still a g h = elim (Bool-cases (pa a)) [
      | inl e ↦
          rw e (let same = same_game a in let was = active a e in ground (arith, same, was, h))
      | inr e ↦ rw e h
    ]

-- an update of games that opens none with an active assignment
pub Safe-games :
    (E : AssignmentRecord → Type 0) (pg : GameRecord → Bool) (sg : GameRecord → GameRecord)
    → ((g : GameRecord) → (sg g).id ≡ g.id)
    → ((a : AssignmentRecord) (g : GameRecord)
        → E a
        → pg g ≡ true
        → is_open (sg g).status ≡ true
        → (is_active a.status && a.game_id == g.id) ≡ false)
    → (xs : List AssignmentRecord) (gs : List GameRecord) (next : ℕ) → All E xs
    → Safe xs gs next
    → Safe xs (update_where pg sg gs) next
unfolding update_where
Safe-games E pg sg same_id quiet xs gs next e s = record {
  apart =
      All-imp (λ a. E a × All (λ g. apart a g ≡ true) gs) _ xs
        (λ a x. All-map (λ g. apart a g ≡ true) _ _ gs (still a x.0) x.1)
        (All-both E _ xs e s.apart);
  one_each = s.one_each;
  ids = s.ids;
  game_ids =
      rw
        (map-map_same (λ (g : GameRecord). g.id) (λ g. if pg g then sg g else g) gs
          (if_same (λ g. g.id) pg sg same_id))
        s.game_ids;
  fresh = s.fresh;
}
  where
    still :
        (a : AssignmentRecord)
        → E a
        → (g : GameRecord) → apart a g ≡ true
        → apart a (if pg g then sg g else g) ≡ true
    still a ea g h = elim (Bool-cases (pg g)) [
      | inl e ↦
          rw e (let same = same_id g in let no = quiet a g ea e in ground (arith, same, no, h))
      | inr e ↦ rw e h
    ]

-- rows that are deleted
pub Safe-keep :
    (pa : AssignmentRecord → Bool) (pg : GameRecord → Bool) (xs : List AssignmentRecord)
    → (gs : List GameRecord) (next : ℕ) → Safe xs gs next
    → Safe (keep pa xs) (keep pg gs) next
Safe-keep pa pg xs gs next s = record {
  apart = All-kept _ pa xs (All-imp _ _ xs (λ a h. All-kept _ pg gs h) s.apart);
  one_each = Unique-map-keep (λ a. a.game_id) pa xs s.one_each;
  ids = Unique-map-keep (λ a. a.id) pa xs s.ids;
  game_ids = Unique-map-keep (λ g. g.id) pg gs s.game_ids;
  fresh = All-kept _ pa xs s.fresh;
}
