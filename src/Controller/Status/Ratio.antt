-- ===== src/Controller/Status/Ratio.antt =====
-- The ready ratio of the status.
use solr_collections_operato.Base.{◌≡◌, ℕ, ◌+◌, false, List, [], ◌∷◌, if◌then◌else◌}
use solr_collections_operato.Base.Text.{has_prefix}
use solr_collections_operato.Base.GoMap.{GoMap, has_key}
use solr_collections_operato.Api.{SolrCollection}
use solr_collections_operato.Solr.{Collection}
use solr_collections_operato.Platform.{Platform}
use solr_collections_operato.Controller.Names.{contains, spec_names}

-- No name is listed twice, and none is like those of the operator's own collections.
abbrev pub AreProper : List SolrCollection → Type 0
AreProper [] = Unit
AreProper (spec ∷ specs) =
    (contains (spec_names specs) spec.name ≡ false)
    × (has_prefix spec.name "_" ≡ false)
    × AreProper specs

-- How many collections of the spec are there.
unfoldable pub count_present : GoMap Collection → List SolrCollection → ℕ
unfolding has_key
count_present solr [] = 0
count_present solr (spec ∷ specs) =
    (if has_key spec.name solr then 1 else 0) + count_present solr specs
