-- ===== src/Scheduler/Create/Counts.antt =====
-- How often an engine has the white and the black pieces in a list of games.
use cope_chess.Prelude.{
  ℕ, ◌+◌, ◌*◌, List, [], ◌∷◌, ◌++◌, ◌≡◌, refl, arith, flat_map, if◌then◌else◌, ◌&&◌, ◌==◌, length,
  length-append,
}
use cope_chess.Scheduler.Create.{GameRequest}

unfoldable pub whites : ℕ → List GameRequest → ℕ
whites e [] = 0
whites e (r ∷ rs) = (if r.white_engine_id == e then 1 else 0) + whites e rs

unfoldable pub blacks : ℕ → List GameRequest → ℕ
blacks e [] = 0
blacks e (r ∷ rs) = (if r.black_engine_id == e then 1 else 0) + blacks e rs

-- how often one engine has White against another
unfoldable pub meetings : ℕ → ℕ → List GameRequest → ℕ
meetings w b [] = 0
meetings w b (r ∷ rs) =
    (if r.white_engine_id == w && r.black_engine_id == b then 1 else 0) + meetings w b rs

pub meetings-append :
    (w b : ℕ) (u v : List GameRequest) → meetings w b (u ++ v) ≡ meetings w b u + meetings w b v
unfolding meetings
meetings-append w b [] v = omega arith
meetings-append w b (r ∷ u) v = omega (arith, meetings-append w b u v)

pub whites-append : (e : ℕ) (u v : List GameRequest) → whites e (u ++ v) ≡ whites e u + whites e v
unfolding whites
whites-append e [] v = omega arith
whites-append e (r ∷ u) v = omega (arith, whites-append e u v)

pub blacks-append : (e : ℕ) (u v : List GameRequest) → blacks e (u ++ v) ≡ blacks e u + blacks e v
unfolding blacks
blacks-append e [] v = omega arith
blacks-append e (r ∷ u) v = omega (arith, blacks-append e u v)

-- what each part has as often in White as in Black, the whole has too
pub balanced-flat_map {ℓ} :
    {A : Type ℓ} (e : ℕ) (f : A → List GameRequest)
    → ((x : A) → whites e (f x) ≡ blacks e (f x))
    → (xs : List A) → whites e (flat_map f xs) ≡ blacks e (flat_map f xs)
unfolding whites blacks flat_map
balanced-flat_map e f each [] = refl
balanced-flat_map e f each (x ∷ xs) = omega (
  arith,
  whites-append e (f x) (flat_map f xs),
  blacks-append e (f x) (flat_map f xs),
  each x,
  balanced-flat_map e f each xs,
)

-- a total over parts that all have the same
pub whites-flat_map {ℓ} :
    {A : Type ℓ} (e n : ℕ) (f : A → List GameRequest)
    → ((x : A) → whites e (f x) ≡ n)
    → (xs : List A) → whites e (flat_map f xs) ≡ length xs * n
unfolding whites flat_map
whites-flat_map e n f each [] = omega arith
whites-flat_map e n f each (x ∷ xs) =
    omega (arith, whites-append e (f x) (flat_map f xs), each x, whites-flat_map e n f each xs)

pub blacks-flat_map {ℓ} :
    {A : Type ℓ} (e n : ℕ) (f : A → List GameRequest)
    → ((x : A) → blacks e (f x) ≡ n)
    → (xs : List A) → blacks e (flat_map f xs) ≡ length xs * n
unfolding blacks flat_map
blacks-flat_map e n f each [] = omega arith
blacks-flat_map e n f each (x ∷ xs) =
    omega (arith, blacks-append e (f x) (flat_map f xs), each x, blacks-flat_map e n f each xs)

pub meetings-flat_map {ℓ} :
    {A : Type ℓ} (w b n : ℕ) (f : A → List GameRequest)
    → ((x : A) → meetings w b (f x) ≡ n)
    → (xs : List A) → meetings w b (flat_map f xs) ≡ length xs * n
unfolding meetings flat_map
meetings-flat_map w b n f each [] = omega arith
meetings-flat_map w b n f each (x ∷ xs) =
    omega
      (arith, meetings-append w b (f x) (flat_map f xs), each x, meetings-flat_map w b n f each xs)

pub length-flat_map {ℓ} :
    {A : Type ℓ} (n : ℕ) (f : A → List GameRequest)
    → ((x : A) → length (f x) ≡ n)
    → (xs : List A) → length (flat_map f xs) ≡ length xs * n
unfolding flat_map
length-flat_map n f each [] = omega arith
length-flat_map n f each (x ∷ xs) =
    omega (arith, length-append (f x) (flat_map f xs), each x, length-flat_map n f each xs)
