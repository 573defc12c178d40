-- ===== src/Tests/Repeated.antt =====
-- Two runs of `Reconcile` on the small Solr.
use solr_collections_operato.Base.{
  ap, ◌≡◌, ◌⊎◌, inl, inr, refl, String, true, false, some, [], ◌∷◌, arith, ◌==◌, String-discrete,
}
use mathlib.Core.Option.{or_else}
use solr_collections_operato.Base.GoMap.{lookup, has_key}
use solr_collections_operato.Base.Outcome.{ok}
use solr_collections_operato.Api.{SolrCollection, settings, with_defaults}
use solr_collections_operato.Platform.{ConfigMap, World}
use solr_collections_operato.Solr.{Collection}
use solr_collections_operato.Controller.Names.{checksums_collection_name, contains}
use solr_collections_operato.Controller.Names.Mapped.{specified, is_instance}
use solr_collections_operato.Controller.ConfigSets.{config_set_data}
use solr_collections_operato.Controller.ConfigSets.Stored.{IsUploadable}
use solr_collections_operato.Controller.ConfigSets.Converged as ConfigSets
use solr_collections_operato.Controller.Collections.Ready.{IsReady}
use solr_collections_operato.Controller.Collections.Planned.{is_stray}
use solr_collections_operato.Controller.Reconcile.{immediately, unscheduled, is_zero}
use solr_collections_operato.Controller.Reconcile.Loop.{reconcile}
use solr_collections_operato.Controller.Reconcile.Deployment.{Deployment, active_settings}
use solr_collections_operato.Controller.Reconcile.Scaled.{AlignedAt, FullAt, ProvidedAt}
use solr_collections_operato.Controller.Reconcile.Converged.{reconcile_twice-converges}
use solr_collections_operato.Tests.Data.{in_order-IsFair as fair, client, config_map, books}
use solr_collections_operato.Tests.Quiet.{set}
use solr_collections_operato.Tests.Deployment.{store, checksums, contents, platform, names}
use solr_collections_operato.Tests.Converging.{civil, small_cluster}
use solr_collections_operato.Tests.Stored.{eq_cases, small_store}
use solr_collections_operato.Tests.Separated.{key, system, separate}
use solr_collections_operato.Tests.Answered.{reports, maps, kube}

abbrev start : World platform
start = record { cluster = store false false false false; sent = [] }

settled : settings set.spec ≡ ok (active_settings 2 false true)
unfolding settings
settled = refl

unchanged : (with_defaults set).1 ≡ false
unfolding with_defaults String-discrete
unchanged = refl

lookup-maps :
    (n : String) (cm : ConfigMap)
    → lookup n maps ≡ some cm
    → (n ≡ "books") × (cm ≡ config_map "books" "b1")
unfolding lookup
lookup-maps n cm e = (ground arith, ground arith)

uploadable :
    (n : String) (cm : ConfigMap)
    → lookup n maps ≡ some cm
    → IsUploadable platform client checksums small_store n cm
unfolding small_store config_set_data lookup String-discrete
uploadable n cm e =
    let (p, q) = lookup-maps n cm e in
    rw (p, q)
      (record { content = "b1"; is_decoded = refl; named = refl; archived = refl; summed = refl })

provides :
    ConfigSets.IsReady platform client checksums small_store true maps (names start.cluster) start
unfolding contains
provides = record {
  uploadable = uploadable;
  removable = λ cleanup n there surplus. absurd (ground arith);
}

specified-books :
    (n : String) (spec : SolrCollection)
    → specified false (books ∷ []) n ≡ some spec
    → (n ≡ "books") × (spec ≡ books)
unfolding specified is_instance or_else
specified-books n spec e = ground arith

-- Only the collection for the checksums is there, and it is not stray.
no_stray :
    (n : String) (x : Collection)
    → is_stray (active_settings 2 false true) (books ∷ []) n ≡ true
    → (contents start.cluster).collection n ≡ some x
    → (n == "books") ≡ true
unfolding String-discrete specified is_instance or_else
no_stray n x stray e = elim (eq_cases n) [
  | inl same ↦ rw same refl
  | inr (inl same) ↦ absurd (ground (arith, rw same at stray))
  | inr (inr (p, q)) ↦ absurd (ground arith)
]

mapped :
    (spec : SolrCollection)
    → spec.configset_name ≡ "books"
    → has_key spec.configset_name maps ≡ true
unfolding has_key lookup String-discrete
mapped spec e = rw e refl

places :
    IsReady platform client
      (active_settings 2 false true)
      small_cluster
      (books ∷ [])
      (λ n. has_key n maps)
      start
unfolding small_cluster String-discrete
places = record {
  positive = refl;
  named = λ n spec e. let (p, q) = specified-books n spec e in rw (p, q) (refl, refl, refl);
  configured = λ n spec e absent.
      mapped spec (ap (λ (x : SolrCollection). x.configset_name) (specified-books n spec e).1);
  existing = λ n x stray e. no_stray n x stray e;
  unaliased = λ n spec e. refl;
  distinct = λ h. ground arith;
  untargeted = λ n a h e. ground arith;
}

made : is_zero client ≡ false
unfolding String-discrete
made = refl

abbrev deployment : Deployment
deployment = record {
  platform = platform;
  fair = fair;
  civil = civil;
  client = client;
  made = made;
  key = key;
  set = set;
  complete = unchanged;
  factor = 2;
  positive = omega arith;
  bounded = omega arith;
  is_blue_green = false;
  is_cleanup = true;
  known = settled;
  solr = system;
  separate = separate;
  reports = reports;
  maps = maps;
  kube = kube;
}

reconcile_twice-converges_example :
    let first = reconcile platform key (record { world = start; solr_client = client }) in
    let second = reconcile platform key first.1 in
    ((first.0 ≡ ok immediately)
      ⊎ ((first.0 ≡ ok unscheduled) × FullAt deployment first.1.world.cluster))
    × (second.0 ≡ ok unscheduled)
    × ProvidedAt deployment second.1.world.cluster
    × AlignedAt deployment second.1.world.cluster
    × FullAt deployment second.1.world.cluster
unfolding String-discrete checksums_collection_name system small_store reports
reconcile_twice-converges_example =
    reconcile_twice-converges deployment start (inr provides) (inr places)
