-- ===== src/Controller/Names/Mapped.antt =====
-- Which collections a spec asks for: an independent description of `mapCollections`.
use mathlib.Core.Option.{or_else}
use solr_collections_operato.Base.{
  ◌≡◌, ◌∙◌, refl, String, ◌<>◌, Bool, true, false, ◌||◌, Option, none, some, List, [], ◌∷◌, arith,
  ◌==◌, if◌then◌else◌,
}
use solr_collections_operato.Base.GoMap.{
  GoMap, Order, IsFair, lookup, insert, lookup-nil, lookup-insert, NodupKeys, insert-NodupKeys,
}
use solr_collections_operato.Api.{SolrCollection}
use solr_collections_operato.Controller.Names.{blue, green, map_collections}

-- The name is one of the instances of the collection: its blue and green ones, or itself.
unfoldable pub is_instance : Bool → SolrCollection → String → Bool
is_instance true spec name = name == (spec.name <> green) || name == (spec.name <> blue)
is_instance false spec name = name == spec.name

-- The last collection of the spec that the name is an instance of.
unfoldable pub specified : Bool → List SolrCollection → String → Option SolrCollection
unfolding is_instance
specified is_blue_green [] name = none
specified is_blue_green (spec ∷ specs) name =
    or_else (specified is_blue_green specs name)
      (if is_instance is_blue_green spec name then some spec else none)

map_collections_onto :
    (is_blue_green : Bool) (specs : List SolrCollection) (m : GoMap SolrCollection) (name : String)
    → lookup name (map_collections specs m is_blue_green)
      ≡ or_else (specified is_blue_green specs name) (lookup name m)
unfolding map_collections specified or_else
map_collections_onto is_blue_green [] m name = refl
map_collections_onto true (spec ∷ specs) m name = ground (
  arith,
  map_collections_onto true specs
      (insert (spec.name <> green) spec (insert (spec.name <> blue) spec m)) name,
  lookup-insert name (spec.name <> green) spec (insert (spec.name <> blue) spec m),
  lookup-insert name (spec.name <> blue) spec m,
)
map_collections_onto false (spec ∷ specs) m name = ground (
  arith,
  map_collections_onto false specs (insert spec.name spec m) name,
  lookup-insert name spec.name spec m,
)

-- The map that `mapCollections` fills has under each name the last collection of the spec which that
-- name is an instance of, and nothing else.
pub lookup-map_collections :
    (is_blue_green : Bool) (specs : List SolrCollection) (name : String)
    → lookup name (map_collections specs [] is_blue_green) ≡ specified is_blue_green specs name
unfolding or_else
lookup-map_collections is_blue_green specs name =
    ground (
      arith,
      map_collections_onto is_blue_green specs [] name,
      lookup-nil {V = SolrCollection} name,
    )

pub map_collections-NodupKeys :
    (is_blue_green : Bool) (specs : List SolrCollection) (m : GoMap SolrCollection)
    → NodupKeys m
    → NodupKeys (map_collections specs m is_blue_green)
unfolding map_collections
map_collections-NodupKeys is_blue_green [] m h = h
map_collections-NodupKeys true (spec ∷ specs) m h =
    map_collections-NodupKeys true specs _
      (insert-NodupKeys (spec.name <> green) spec _ (insert-NodupKeys (spec.name <> blue) spec m h))
map_collections-NodupKeys false (spec ∷ specs) m h =
    map_collections-NodupKeys false specs _ (insert-NodupKeys spec.name spec m h)

-- A loop over that map finds the same.
pub lookup-visit_map_collections :
    {Site : Type 0} (o : Order Site)
    → IsFair o
    → (s : Site) (is_blue_green : Bool) (specs : List SolrCollection) (name : String)
    → lookup name (o.visit s SolrCollection (map_collections specs [] is_blue_green))
      ≡ specified is_blue_green specs name
lookup-visit_map_collections o fair s is_blue_green specs name =
    fair.lookup-visit s SolrCollection (map_collections specs [] is_blue_green)
      (map_collections-NodupKeys is_blue_green specs [] tt) name
    ∙ lookup-map_collections is_blue_green specs name
