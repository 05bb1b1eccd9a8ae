-- ===== src/Prelude/Maps.antt =====
-- Go maps with string keys, as association lists: `m[k]`, `m[k] = v`.
use mathlib.Core.Path.{◌≡◌, refl}
use mathlib.Core.Logic.{◌≢◌}
use mathlib.Core.Bool.{Bool, true, false}
use mathlib.Core.Option.{Option, none, some}
use mathlib.Core.List.{List, [], ◌∷◌}
use native.Mathlib.Omega.{arith}
use ironflow_go.Prelude.Tests.{if◌then◌else◌}
use ironflow_go.Prelude.Texts.{Text, text_eq, text_eq_refl, text_eq→eq, text_eq_ne}

module _ {ℓ} {V : Type ℓ} where
  unfoldable pub lookup : Text → List (Text × V) → Option V
  lookup k [] = none
  lookup k ((j, v) ∷ m) = if text_eq j k then some v else lookup k m

  unfoldable pub insert : Text → V → List (Text × V) → List (Text × V)
  insert k v [] = (k, v) ∷ []
  insert k v ((j, w) ∷ m) = if text_eq j k then (k, v) ∷ m else (j, w) ∷ insert k v m

  pub lookup-insert :
      (k j : Text) (v : V) (m : List (Text × V))
      → lookup j (insert k v m) ≡ (if text_eq k j then some v else lookup j m)
  unfolding lookup insert
  lookup-insert k j v [] = refl
  lookup-insert k j v ((i, w) ∷ m) = ground (
    arith,
    text_eq→eq k j,
    text_eq→eq i k,
    text_eq→eq i j,
    text_eq_refl k,
    text_eq_refl j,
    text_eq_refl i,
    lookup-insert k j v m,
  )

  pub lookup-insert_self :
      (k : Text) (v : V) (m : List (Text × V)) → lookup k (insert k v m) ≡ some v
  lookup-insert_self k v m = ground (arith, lookup-insert k k v m, text_eq_refl k)

  pub lookup-insert_ne :
      (k j : Text) (v : V) (m : List (Text × V)) → k ≢ j → lookup j (insert k v m) ≡ lookup j m
  lookup-insert_ne k j v m ne = ground (arith, lookup-insert k j v m, text_eq_ne k j ne)

  -- `_, ok := m[k]`
  abbrev pub contains : Text → List (Text × V) → Bool
  contains k m = elim (lookup k m) [ none ↦ false | some _ ↦ true ]
