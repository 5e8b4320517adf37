-- ===== src/GoMap.antt =====
-- Go's `map[string]V`: an association list with text keys. The sources range over such a map only
-- for what does not depend on the order of its entries.
use forge_wingman.Prelude.{
  ◌+◌, ◌≤◌, ◌≡◌, ◌≢◌, refl, Option, none, some, List, [], ◌∷◌, ◌++◌, arith, if◌then◌else◌, length,
}
use forge_wingman.Text.{Text, text_eq, text_eq_iff, text_eq_self}

abbrev pub GoMap {ℓ} : Type ℓ → Type ℓ
GoMap V = List (Text × V)

module _ {ℓ} {V : Type ℓ} where
  -- v, ok := m[k]
  unfoldable pub lookup : Text → GoMap V → Option V
  lookup k [] = none
  lookup k ((j, v) ∷ m) = if text_eq j k then some v else lookup k m

  -- m[k] = v
  unfoldable pub assign : Text → V → GoMap V → GoMap V
  assign k v [] = (k, v) ∷ []
  assign k v ((j, w) ∷ m) = if text_eq j k then (k, v) ∷ m else (j, w) ∷ assign k v m

  -- delete(m, k)
  unfoldable pub delete : Text → GoMap V → GoMap V
  delete k [] = []
  delete k ((j, w) ∷ m) = let rest = delete k m in if text_eq j k then rest else (j, w) ∷ rest

  pub lookup-assign :
      (k j : Text) (v : V) (m : GoMap V)
      → lookup j (assign k v m) ≡ (if text_eq k j then some v else lookup j m)
  unfolding lookup assign
  lookup-assign k j v [] = refl
  lookup-assign k j v ((i, w) ∷ m) =
      ground (arith, text_eq_iff k j, text_eq_iff i k, text_eq_iff i j, lookup-assign k j v m)

  pub lookup-delete :
      (k j : Text) (m : GoMap V)
      → lookup j (delete k m) ≡ (if text_eq k j then none else lookup j m)
  unfolding lookup delete
  lookup-delete k j [] = ground arith
  lookup-delete k j ((i, w) ∷ m) =
      ground (arith, text_eq_iff k j, text_eq_iff i k, text_eq_iff i j, lookup-delete k j m)

  pub lookup-delete_self : (k : Text) (m : GoMap V) → lookup k (delete k m) ≡ none
  lookup-delete_self k m = ground (arith, lookup-delete k k m, text_eq_self k)

  pub lookup-delete_other : (k j : Text) (m : GoMap V) → k ≢ j → lookup j (delete k m) ≡ lookup j m
  lookup-delete_other k j m n = ground (arith, lookup-delete k j m, text_eq_iff k j)

  pub length-delete-le : (k : Text) (m : GoMap V) → length (delete k m) ≤ length m
  unfolding delete
  length-delete-le k [] = omega arith
  length-delete-le k ((i, w) ∷ m) = ground (arith, length-delete-le k m)

  pub length-assign-le : (k : Text) (v : V) (m : GoMap V) → length (assign k v m) ≤ length m + 1
  unfolding assign
  length-assign-le k v [] = omega arith
  length-assign-le k v ((i, w) ∷ m) = ground (arith, length-assign-le k v m)

  -- A new key goes to the end.
  pub assign_new :
      (k : Text) (v : V) (m : GoMap V) → lookup k m ≡ none → assign k v m ≡ m ++ (k, v) ∷ []
  unfolding lookup assign
  assign_new k v [] h = refl
  assign_new k v ((i, w) ∷ m) h = ground (arith, assign_new k v m)

  pub delete-none : (k : Text) (m : GoMap V) → lookup k m ≡ none → delete k m ≡ m
  unfolding lookup delete
  delete-none k [] h = refl
  delete-none k ((i, w) ∷ m) h = ground (arith, delete-none k m)

  -- A key that was not there can be set and deleted without a trace.
  pub delete-assign :
      (k : Text) (v : V) (m : GoMap V) → lookup k m ≡ none → delete k (assign k v m) ≡ m
  unfolding lookup assign delete
  delete-assign k v [] h = ground (arith, text_eq_self k)
  delete-assign k v ((i, w) ∷ m) h = ground (arith, delete-assign k v m)

pub ruleset map_laws = (lookup-assign, lookup-delete)
