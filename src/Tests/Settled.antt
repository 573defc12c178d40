-- ===== src/Tests/Settled.antt =====
-- A run of `Reconcile` on a cluster that is as the resource asks.
use solr_collections_operato.Base.{
  ◌≡◌, refl, ◌⊎◌, inl, inr, is_some, String, true, false, some, [], ◌∷◌, arith, String-discrete,
}
use solr_collections_operato.Base.Int.{pos}
use solr_collections_operato.Base.Decimal.{decimal, show_int}
use solr_collections_operato.Base.GoMap.{lookup, insert, has_key}
use solr_collections_operato.Base.Outcome.{ok}
use solr_collections_operato.Api.{settings, with_defaults}
use solr_collections_operato.Solr.{AreNamed, Collection}
use solr_collections_operato.Platform.{ConfigMap, NamespacedName}
use solr_collections_operato.Solr.Client.Delivery.{IsCivil}
use solr_collections_operato.Solr.Client.ClusterReport.{status_request}
use solr_collections_operato.Controller.Reconcile.Settled.{
  IsSettled, IsReported, reconcile_settled, w3,
}
use solr_collections_operato.Solr.Client.WellFormed.{IsWellFormed, get_cluster_status-IsWellFormed}
use solr_collections_operato.Controller.Zip.{zip}
use solr_collections_operato.Controller.Reconcile.Initialized.{
  Initializes, upload_request, create_request, initialize_solr_cluster-Initializes,
}
use solr_collections_operato.Controller.Names.{checksums_collection_name, contains}
use solr_collections_operato.Controller.Status.{assess}
use solr_collections_operato.Controller.Names.Mapped.{specified, is_instance}
use mathlib.Core.Option.{or_else}
use solr_collections_operato.Controller.Reconcile.{unscheduled, zero_status}
use solr_collections_operato.Controller.Status.Populate.{status_of, populate_collection_set_status}
use solr_collections_operato.Controller.Reconcile.Loop.{initialize_solr_cluster, reconcile}
use solr_collections_operato.Controller.ConfigSets.{config_set_data}
use solr_collections_operato.Tests.Data.{
  in_order-IsFair as fair, client, config_map, settings_of, books, collection,
}
use solr_collections_operato.Tests.Quiet.{quiet, start, cluster, set, queries}

civil : IsCivil quiet
civil = record {
  error_text = λ req s resp e bad. let fine : resp.status_code ≡ 200 = ground arith in ground arith;
}

known : settings set.spec ≡ ok (settings_of false true)
unfolding settings
known = refl

cluster_cases :
    (n : String) (x : Collection)
    → lookup n cluster.collections ≡ some x
    → ((n ≡ "books") × (x ≡ collection "books" 2 2))
      ⊎ ((n ≡ "_libraryChecksums") × (x ≡ collection "_libraryChecksums" 2 2))
unfolding lookup
cluster_cases n x e = ground arith

has_key_cases :
    (n : String) → has_key n cluster.collections ≡ true → (n ≡ "books") ⊎ (n ≡ "_libraryChecksums")
unfolding has_key lookup
has_key_cases n h = ground arith

lookup-config_maps :
    (n : String) (cm : ConfigMap)
    → lookup n (("books", config_map "books" "b1") ∷ []) ≡ some cm
    → (n ≡ "books") × (cm ≡ config_map "books" "b1")
unfolding lookup
lookup-config_maps n cm e = ground arith

contains-books : (n : String) → contains ("books" ∷ []) n ≡ true → n ≡ "books"
unfolding contains
contains-books n h = ground arith

specified-books : (n : String) → is_some (specified false (books ∷ []) n) ≡ true → n ≡ "books"
unfolding specified is_instance or_else
specified-books n h = ground arith

cluster-AreNamed : AreNamed cluster.collections
cluster-AreNamed n x e = elim (cluster_cases n x e) [
  | inl (p, q) ↦ rw (p, q) refl
  | inr (p, q) ↦ rw (p, q) refl
]

settled : IsSettled quiet fair civil client set (settings_of false true) start queries known
unfolding queries has_key lookup checksums_collection_name String-discrete contains config_set_data
    specified or_else
settled = record {
  current = record {
    uploaded = λ n cm e. let (p, q) = lookup-config_maps n cm e in rw (p, q) refl;
    removed = λ cleanup n h. rw (contains-books n h) refl;
  };
  aligned = record {
    present = λ n h. rw (specified-books n h) refl;
    factors =
        λ n x e h. elim (cluster_cases n x e) [ inl (p, q) ↦ rw q refl | inr (p, q) ↦ rw q refl ];
    clean = λ cleanup n h. elim (has_key_cases n h) [ inl p ↦ rw p refl | inr p ↦ rw p refl ];
  };
  full = record {
    full =
        λ n x e h. elim (cluster_cases n x e) [ inl (p, q) ↦ rw q refl | inr (p, q) ↦ rw q refl ];
  };
  initialized = refl;
}

abbrev key : NamespacedName
key = record { name = "library"; namespace = "default" }

reported :
    IsReported quiet fair civil client set (settings_of false true) start queries known settled key
unfolding queries populate_collection_set_status lookup insert String-discrete decimal show_int
reported = record {
  status =
      (status_of quiet (settings_of false true) zero_status set cluster
        (assess quiet (settings_of false true) set cluster)).0;
  populated = refl;
  same = refl;
  refetched = refl;
}

reconcile_settled_example :
    reconcile quiet key (record { world = start; solr_client = client })
    ≡ (ok unscheduled, record { world = w3 quiet client set start; solr_client = client })
unfolding with_defaults String-discrete
reconcile_settled_example =
    reconcile_settled quiet fair civil client set (settings_of false true) start queries known
      settled key reported refl refl refl refl refl

get_cluster_status-IsWellFormed_example : IsWellFormed quiet cluster
unfolding queries
get_cluster_status-IsWellFormed_example =
    get_cluster_status-IsWellFormed quiet client start cluster queries.status

-- The archive of the config set for the checksums.
abbrev archive : String
archive =
    "schema.xml=checksum_collection_configset/schema.xml;solrconfig.xml=checksum_collection_configset/solrconfig.xml;"

archive_made : zip quiet "checksum_collection_configset" ≡ ok archive
unfolding zip
archive_made = refl

initialize_solr_cluster-Initializes_example :
    Initializes quiet client
      (status_request client
        ∷ upload_request client archive
        ∷ create_request client "_other" (pos 2)
        ∷ status_request client
        ∷ [])
      start
      (initialize_solr_cluster quiet set
        (settings_of false true)
        "_other"
        (record { world = start; solr_client = client }))
unfolding queries has_key lookup String-discrete
initialize_solr_cluster-Initializes_example =
    initialize_solr_cluster-Initializes quiet client set (settings_of false true) "_other" archive
      archive_made start cluster refl queries.status refl
