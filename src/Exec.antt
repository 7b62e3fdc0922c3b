-- ===== src/Exec.antt =====
-- Methods that change a state and may raise: the state comes back beside the result or the error.
-- `for_each` is a loop over a list.
use cope_chess.Prelude.{List, [], ◌∷◌, ◌++◌, ◌≡◌, flat_map, sym, ◌∙◌, ap}

pub data Result {ℓ} (E A : Type ℓ) : Type ℓ where
  ok : A → Result E A
  err : E → Result E A

module _ {ℓ κ} {S : Type ℓ} {A : Type κ} where
  unfoldable pub for_each : List A → (A → S → S) → S → S
  for_each [] body s = s
  for_each (x ∷ xs) body s = for_each xs body (body x s)

  -- A loop whose every round does the writes that `writes x` lists does all of them in order.
  pub for_each-flat_map {μ} :
      {W : Type μ} (run : List W → S → S)
      → ((u v : List W) (s : S) → run (u ++ v) s ≡ run v (run u s))
      → ((s : S) → run [] s ≡ s)
      → (body : A → S → S) (writes : A → List W) → ((x : A) (s : S) → body x s ≡ run (writes x) s)
      → (xs : List A) (s : S) → for_each xs body s ≡ run (flat_map writes xs) s
  unfolding for_each flat_map
  for_each-flat_map run joins nothing body writes each [] s = sym (nothing s)
  for_each-flat_map run joins nothing body writes each (x ∷ xs) s =
      for_each-flat_map run joins nothing body writes each xs (body x s)
      ∙ ap (run (flat_map writes xs)) (each x s)
      ∙ sym (joins (writes x) (flat_map writes xs) s)
