-- ===== src/Base/GoMap.antt =====
-- Go's maps with text keys, as lists of entries. A loop over a map visits the entries in an order
-- that the language leaves open: the loops of the model go through `Order`.
pub mod Counted
use mathlib.Core.Path.{◌≡◌, refl}
use mathlib.Core.Bool.{Bool}
use mathlib.Core.Option.{Option, none, some}
use mathlib.Core.List.{List, [], ◌∷◌}
use native.Mathlib.Omega.{arith}
use Prim.Native.String.{String}
use solr_collections_operato.Base.Logic.{◌==◌, if◌then◌else◌, is_some}
use solr_collections_operato.Base.Lists.{length}

abbrev pub GoMap : Type 0 → Type 0
GoMap V = List (String × V)

module _ {V : Type 0} where
  -- v, exists := m[k]
  unfoldable pub lookup : String → GoMap V → Option V
  lookup k [] = none
  lookup k ((j, v) ∷ m) = if k == j then some v else lookup k m

  -- m[k] = v
  unfoldable pub insert : String → V → GoMap V → GoMap V
  insert k v [] = (k, v) ∷ []
  insert k v ((j, w) ∷ m) = if k == j then (k, v) ∷ m else (j, w) ∷ insert k v m

  -- _, exists := m[k]
  unfoldable pub has_key : String → GoMap V → Bool
  unfolding lookup
  has_key k m = is_some (lookup k m)

  -- No key has two entries.
  abbrev pub NodupKeys : GoMap V → Type 0
  NodupKeys [] = Unit
  NodupKeys ((k, _) ∷ m) = (lookup k m ≡ none) × NodupKeys m

  pub lookup-nil : (k : String) → lookup k [] ≡ none
  unfolding lookup
  lookup-nil k = refl

  pub lookup-cons :
      (k j : String) (v : V) (m : GoMap V)
      → lookup k ((j, v) ∷ m) ≡ (if k == j then some v else lookup k m)
  unfolding lookup
  lookup-cons k j v m = refl

  pub lookup-insert :
      (k j : String) (v : V) (m : GoMap V)
      → lookup k (insert j v m) ≡ (if k == j then some v else lookup k m)
  unfolding lookup insert
  lookup-insert k j v [] = refl
  lookup-insert k j v ((i, w) ∷ m) = ground (arith, lookup-insert k j v m)

  pub insert-NodupKeys : (k : String) (v : V) (m : GoMap V) → NodupKeys m → NodupKeys (insert k v m)
  unfolding insert
  insert-NodupKeys k v [] h = (lookup-nil k, tt)
  insert-NodupKeys k v ((j, w) ∷ m) (fresh, h) =
      ground (arith, insert-NodupKeys k v m h, lookup-insert j k v m)

-- The order in which a `range` statement visits the entries: each statement has its own, and it may
-- depend on the map.
pub record Order (Site : Type 0) : Type 1 where
  pub visit : Site → (V : Type 0) → GoMap V → GoMap V

-- What the language promises: every entry is visited, and visited once.
pub record IsFair {Site : Type 0} (o : Order Site) : Type 1 where
  pub lookup-visit :
      (s : Site) (V : Type 0) (m : GoMap V)
      → NodupKeys m
      → (k : String) → lookup k (o.visit s V m) ≡ lookup k m
  pub visit-NodupKeys :
      (s : Site) (V : Type 0) (m : GoMap V) → NodupKeys m → NodupKeys (o.visit s V m)
  pub length-visit : (s : Site) (V : Type 0) (m : GoMap V) → length (o.visit s V m) ≡ length m
