-- ===== src/Tests/ConfigSets.antt =====
-- `ManageConfigSets` at concrete data.
use solr_collections_operato.Base.{
  ◌≡◌, refl, String, true, ◌&&◌, none, some, List, [], ◌∷◌, ◌++◌, String-discrete, if◌then◌else◌,
  map,
}
use solr_collections_operato.Base.GoMap.{GoMap, lookup, insert, NodupKeys}
use solr_collections_operato.Platform.{ConfigMap, Request}
use solr_collections_operato.Controller.Names.{contains}
use solr_collections_operato.Controller.ConfigSets.{
  ConfigPlan, plan_config_sets, process_config_sets,
}
use solr_collections_operato.Controller.ConfigSets.Queued.{
  is_current, is_surplus, lookup-uploads, lookup-removes,
}
use solr_collections_operato.Controller.ConfigSets.Run.{
  Completes, upload_requests, remove_requests, process_config_sets-Completes,
}
use solr_collections_operato.Tests.Data.{
  in_order-IsFair as fair, platform, start, client, config_map,
}

abbrev maps : GoMap ConfigMap
maps = ("books", config_map "books" "b2") ∷ ("films", config_map "films" "f1") ∷ []

abbrev names : List String
names = "books" ∷ "old" ∷ "_default" ∷ []

abbrev checksums : GoMap String
checksums = ("books", "b1") ∷ []

abbrev queued : ConfigPlan
queued = plan_config_sets platform true names maps checksums

-- The changed and the missing config set are uploaded, and the stray one is removed.
process_run :
    map
      (λ (r : Request). r.url)
      (process_config_sets platform client "_libraryChecksums" queued start).1.sent
    ≡ "http://solr/solr/admin/configs?action=UPLOAD&name=books&overwrite=true&cleanup=true&wt=json"
      ∷ "http://solr/solr/_libraryChecksums/update?commit=true"
      ∷ "http://solr/solr/admin/configs?action=UPLOAD&name=films&overwrite=true&cleanup=true&wt=json"
      ∷ "http://solr/solr/_libraryChecksums/update?commit=true"
      ∷ "http://solr/solr/admin/configs?action=DELETE&name=old&wt=json" ∷ []
unfolding process_config_sets plan_config_sets lookup insert String-discrete
process_run = refl

maps-NodupKeys : NodupKeys maps
unfolding lookup String-discrete
maps-NodupKeys = (refl, (refl, tt))

lookup-uploads_example : lookup "books" queued.uploads ≡ elim (lookup "books" maps) [
  | none ↦ none
  | some cm ↦ if is_current platform names checksums "books" cm then none else some cm
]
lookup-uploads_example =
    lookup-uploads platform fair true names maps checksums maps-NodupKeys "books"

lookup-removes_example :
    lookup "old" queued.removes
    ≡ (if true && (contains names "old" && is_surplus maps "old") then some "old" else none)
lookup-removes_example = lookup-removes platform fair true names maps checksums "old"

process_config_sets-Completes_example :
    Completes platform
      (upload_requests platform client "_libraryChecksums" queued.uploads
        ++ remove_requests platform client "_libraryChecksums" queued.removes)
      start
      (process_config_sets platform client "_libraryChecksums" queued start)
process_config_sets-Completes_example =
    process_config_sets-Completes platform client "_libraryChecksums" queued start
