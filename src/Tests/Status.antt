-- ===== src/Tests/Status.antt =====
-- `populateCollectionSetStatus` at concrete data.
use mathlib.Core.Option.{map as map_option}
use solr_collections_operato.Base.{
  ◌≡◌, refl, ◌↔◌, String, ◌<>◌, true, false, some, [], ◌∷◌, if◌then◌else◌, String-discrete,
}
use solr_collections_operato.Base.Text.{trim_suffix}
use solr_collections_operato.Base.GoMap.{GoMap, lookup, NodupKeys}
use solr_collections_operato.Base.Outcome.{ok}
use solr_collections_operato.Api.{SolrCollectionSetStatus, settings}
use solr_collections_operato.Solr.{Collection, ClusterStatus}
use solr_collections_operato.Controller.Names.{blue, green, trim_color}
use solr_collections_operato.Controller.Names.Mapped.{specified}
use solr_collections_operato.Controller.Names.Colored.{is_target, trim_color-instance}
use solr_collections_operato.Controller.Status.{assess}
use solr_collections_operato.Controller.Status.Populate.{populate_collection_set_status}
use solr_collections_operato.Controller.Status.Stable.{
  IsStable, IsKept, condition_status, populate_collection_set_status-IsStable,
}
use solr_collections_operato.Controller.Status.Entries.{seen, unseen, lookup-assess}
use solr_collections_operato.Tests.Data.{
  in_order-IsFair as fair, platform, set_of, settings_of, collection, no_status,
  set_condition-status, solr, aliases,
}

abbrev colored : GoMap Collection
colored =
    ("books_blue", collection "books_blue" 2 2) ∷ ("books_green", collection "books_green" 2 1) ∷ []

abbrev cluster : ClusterStatus
cluster = record { collections = colored; aliases = ("books", "books_blue") ∷ [] }

colored-NodupKeys : NodupKeys colored
unfolding lookup String-discrete
colored-NodupKeys = (refl, (refl, tt))

aliases-NodupKeys : NodupKeys cluster.aliases
unfolding lookup
aliases-NodupKeys = (refl, tt)

platform-IsKept : IsKept platform
platform-IsKept = record { status_set = set_condition-status }

populate_collection_set_status-IsStable_example :
    (status : SolrCollectionSetStatus) × (events : GoMap String) × (populate_collection_set_status
        platform no_status
        (set_of (some true) (some false))
        cluster
      ≡ ok (status, events))
    × ((condition_status "Stable" status.conditions ≡ some "True")
        ↔ IsStable (settings_of true false) (set_of (some true) (some false)) cluster)
populate_collection_set_status-IsStable_example =
    populate_collection_set_status-IsStable platform fair platform-IsKept (settings_of true false)
      no_status (set_of (some true) (some false)) cluster (unfold settings in refl)
      colored-NodupKeys

lookup-assess_example :
    lookup "books_blue"
      (assess platform (settings_of true false) (set_of (some true) (some false)) cluster).statuses
    ≡ map_option
        (seen
          (if true then is_target cluster.aliases (trim_color "books_blue") else true)
          (lookup "books_blue" cluster.collections))
        (map_option
          (unseen true "books_blue")
          (specified true (set_of (some true) (some false)).spec.collections "books_blue"))
lookup-assess_example =
    lookup-assess platform fair (settings_of true false) (set_of (some true) (some false)) cluster
      colored-NodupKeys aliases-NodupKeys "books_blue"

trim_color-instance_example :
    (trim_color ("books" <> blue) ≡ "books") × (trim_color ("books" <> green) ≡ "books")
trim_color-instance_example =
    trim_color-instance "books" (unfold trim_suffix String-discrete in refl)

-- One of the two collections of the plain set is there.
abbrev plain : ClusterStatus
plain = record { collections = solr; aliases = aliases }
