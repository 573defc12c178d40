-- ===== src/Controller/Names.antt =====
-- internal/controller/solrcollectionset_controller.go: the names of collections, and the small
-- helpers of the reconciler.
pub mod Mapped
pub mod Colored
use solr_collections_operato.Base.{
  ℕ, suc, ◌*◌, String, ◌<>◌, Bool, true, false, not, ◌&&◌, List, [], ◌∷◌, length, ◌==◌,
  if◌then◌else◌,
}
use solr_collections_operato.Base.Int.{ℤ, pos, ltb_ℤ, sub32}
use solr_collections_operato.Base.Text.{has_prefix, trim_suffix}
use solr_collections_operato.Base.GoMap.{GoMap, insert}
use solr_collections_operato.Api.{SolrCollection}
use solr_collections_operato.Solr.{Collection}

abbrev pub blue : String
blue = "_blue"

abbrev pub green : String
green = "_green"

-- fmt.Sprintf(configChecksumsCollectionNameTemplate, collectionSetSpec.Name)
unfoldable pub checksums_collection_name : String → String
checksums_collection_name name = "_" <> (name <> "Checksums")

abbrev pub checksums_config_set_name : String
checksums_config_set_name = "_checksums"

-- `abs` of an `int32`: the least value is its own negation.
unfoldable pub abs : ℤ → ℤ
unfolding sub32
abs x = if ltb_ℤ x (pos 0) then sub32 (pos 0) x else x

unfoldable pub contains : List String → String → Bool
contains [] target = false
contains (v ∷ list) target = let rest = contains list target in if v == target then true else rest

-- mapCollections writes into the map that it is given.
unfoldable pub map_collections :
    List SolrCollection → GoMap SolrCollection → Bool → GoMap SolrCollection
map_collections [] storage is_blue_green = storage
map_collections (spec ∷ specs) storage is_blue_green =
    map_collections specs
      (if is_blue_green
        then insert (spec.name <> green) spec (insert (spec.name <> blue) spec storage)
        else insert spec.name spec storage)
      is_blue_green

-- for alias, collection := range aliases { m[collection] = alias }
unfoldable pub reverse_aliases : GoMap String → GoMap String → GoMap String
reverse_aliases [] m = m
reverse_aliases ((alias, collection) ∷ aliases) m =
    reverse_aliases aliases (insert collection alias m)

-- The name in the spec, where the name of a collection is that of a blue or green instance of it.
unfoldable pub trim_color : String → String
unfolding trim_suffix
trim_color name = trim_suffix (trim_suffix name blue) green

-- The names in the spec.
abbrev pub spec_names : List SolrCollection → List String
spec_names [] = []
spec_names (spec ∷ specs) = spec.name ∷ spec_names specs

-- The test that the loop of `countSolrCollections` makes.
unfoldable pub is_counted : List SolrCollection → Bool → Collection → Bool
unfolding contains trim_color
is_counted specs is_blue_green collection =
    not (has_prefix collection.name "_")
    && contains (spec_names specs)
        (if is_blue_green then trim_color collection.name else collection.name)

unfoldable pub count_solr_collections : GoMap Collection → List SolrCollection → Bool → ℕ
unfolding is_counted
count_solr_collections [] specs is_blue_green = 0
count_solr_collections ((_, collection) ∷ collections) specs is_blue_green =
    let count = count_solr_collections collections specs is_blue_green in
    if is_counted specs is_blue_green collection then suc count else count

unfoldable pub count_specified_collections : List SolrCollection → Bool → ℕ
count_specified_collections collections is_blue_green =
    length collections * (if is_blue_green then 2 else 1)
