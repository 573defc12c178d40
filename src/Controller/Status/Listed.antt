-- ===== src/Controller/Status/Listed.antt =====
-- The counts of the collections of the spec, and of those of the cluster with their names.
use solr_collections_operato.Base.{
  ℕ, ◌+◌, not, ◌||◌, length, ◌≡◌, refl, String, Bool, true, false, ◌&&◌, List, [], ◌∷◌, arith, ◌==◌,
  if◌then◌else◌,
}
use solr_collections_operato.Base.Text.{has_prefix, trim_suffix}
use solr_collections_operato.Base.GoMap.{GoMap}
use solr_collections_operato.Api.{SolrCollection}
use solr_collections_operato.Solr.{Collection}
use solr_collections_operato.Controller.Names.{
  contains, spec_names, trim_color, is_counted, count_solr_collections, count_specified_collections,
}

-- The spec has a collection of that name.
abbrev pub is_listed : List SolrCollection → String → Bool
is_listed [] name = false
is_listed (spec ∷ specs) name = spec.name == name || is_listed specs name

-- How many collections there are that are not the operator's own and have a name of the spec, in a
-- blue/green set after _blue and then _green are cut off its end.
abbrev pub count_listed : List SolrCollection → Bool → GoMap Collection → ℕ
count_listed specs is_blue_green [] = 0
count_listed specs is_blue_green ((_, x) ∷ m) =
    let rest = count_listed specs is_blue_green m in
    let name =
      if is_blue_green then trim_suffix (trim_suffix x.name "_blue") "_green" else x.name in
    if not (has_prefix x.name "_") && is_listed specs name then 1 + rest else rest

contains-is_listed :
    (specs : List SolrCollection) (name : String)
    → contains (spec_names specs) name ≡ is_listed specs name
unfolding contains
contains-is_listed [] name = refl
contains-is_listed (spec ∷ specs) name = ground (arith, contains-is_listed specs name)

pub count_solr_collections-count_listed :
    (m : GoMap Collection) (specs : List SolrCollection) (is_blue_green : Bool)
    → count_solr_collections m specs is_blue_green ≡ count_listed specs is_blue_green m
unfolding count_solr_collections is_counted trim_color
count_solr_collections-count_listed [] specs is_blue_green = refl
count_solr_collections-count_listed ((k, x) ∷ m) specs true = ground (
  arith,
  contains-is_listed specs (trim_suffix (trim_suffix x.name "_blue") "_green"),
  count_solr_collections-count_listed m specs true,
)
count_solr_collections-count_listed ((k, x) ∷ m) specs false =
    ground
      (arith, contains-is_listed specs x.name, count_solr_collections-count_listed m specs false)

-- A collection of the spec has one instance, and two in a blue/green set.
abbrev pub instances : List SolrCollection → Bool → ℕ
instances specs true = length specs + length specs
instances specs false = length specs

pub count_specified_collections-instances :
    (specs : List SolrCollection) (is_blue_green : Bool)
    → count_specified_collections specs is_blue_green ≡ instances specs is_blue_green
unfolding count_specified_collections
count_specified_collections-instances specs true = omega arith
count_specified_collections-instances specs false = omega arith
