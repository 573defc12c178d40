-- ===== src/Controller/Status/Entries.antt =====
-- What the status reports of each collection.
use mathlib.Core.Option.{or_else, map as map_option}
use solr_collections_operato.Base.{
  ◌<◌, Bool-cases, ==→≡, ap, String-discrete, ◌≡◌, refl, ◌∙◌, String, ◌<>◌, Bool, true, false,
  Option, none, some, List, [], ◌∷◌, arith, ◌==◌, if◌then◌else◌, Option-cases, inl, inr, ℕ,
}
use Prim.Native.String.{count}
use text.Mathlib.TextLemmas.{length-append}
use solr_collections_operato.Base.Int.{pos}
use solr_collections_operato.Base.Decimal.{show_int}
use solr_collections_operato.Base.Text.{has_prefix}
use solr_collections_operato.Base.GoMap.{
  GoMap, IsFair, lookup, insert, NodupKeys, lookup-insert, lookup-nil,
}
use solr_collections_operato.Api.{SolrCollection, SolrCollectionStatus, SolrCollectionSet, Settings}
use solr_collections_operato.Solr.{Collection, ClusterStatus}
use solr_collections_operato.Platform.{Platform, populate_aliases, populate_collections}
use solr_collections_operato.Controller.Names.{blue, green, trim_color, reverse_aliases}
use solr_collections_operato.Controller.Names.Colored.{is_target, has_key-reverse_aliases}
use solr_collections_operato.Controller.Names.Mapped.{is_instance, specified}
use solr_collections_operato.Controller.Status.{
  Assessment, assess_counts, new_solr_section_status, new_statuses, assess_replicas, assess_factor,
  observed, write_status, is_active_instance, assess_collection, assess_collections,
  first_assessment, assess,
}

-- The status of an instance that the cluster does not have.
abbrev pub unseen : Bool → String → SolrCollection → SolrCollectionStatus
unseen is_blue_green name spec = record {
  name = spec.name;
  instance_name = if is_blue_green then name else "";
  config_set = spec.configset_name;
  is_existing = false;
  is_active = false;
  is_blue_green = is_blue_green;
  replication_factor = pos 0;
  replica_count = pos 0;
  replication_status = "--";
}

-- The status of an instance, given what the cluster has under its name.
abbrev pub seen : Bool → Option Collection → SolrCollectionStatus → SolrCollectionStatus
seen is_active none status = status
seen is_active (some collection) status =
    if has_prefix collection.name "_" then status else record status {
      is_existing = true;
      is_active = is_active;
      replication_factor = collection.replication_factor;
      replica_count = collection.replica_count;
      replication_status =
          show_int collection.replica_count <> ("/" <> show_int collection.replication_factor);
    }

abbrev first_status : Bool → List SolrCollection → String → Option SolrCollectionStatus
first_status is_blue_green specs name =
    map_option (unseen is_blue_green name) (specified is_blue_green specs name)

-- The name of an instance is not empty.
colored-ne : (name color : String) → 0 < count color → ((name <> color) == "") ≡ false
colored-ne name color long = elim (Bool-cases ((name <> color) == "")) [
  | inl e ↦ absurd (omega (arith, ap count (==→≡ _ _ e), length-append name color))
  | inr e ↦ e
]

new_solr_section_status-colored :
    (spec : SolrCollection) (color : String)
    → 0 < count color
    → new_solr_section_status spec (spec.name <> color) ≡ unseen true (spec.name <> color) spec
unfolding new_solr_section_status
new_solr_section_status-colored spec color long = rw (colored-ne spec.name color long) refl

new_solr_section_status-plain :
    (spec : SolrCollection) (name : String)
    → new_solr_section_status spec "" ≡ unseen false name spec
unfolding new_solr_section_status String-discrete
new_solr_section_status-plain spec name = refl

lookup-new_statuses :
    (is_blue_green : Bool) (specs : List SolrCollection) (m : GoMap SolrCollectionStatus)
    (name : String)
    → lookup name (new_statuses is_blue_green specs m) ≡ elim (specified is_blue_green specs name) [
      | none ↦ lookup name m
      | some spec ↦ some (unseen is_blue_green name spec)
    ]
unfolding new_statuses specified is_instance or_else
lookup-new_statuses is_blue_green [] m name = refl
lookup-new_statuses true (spec ∷ specs) m name = ground (
  arith,
  new_solr_section_status-colored spec blue (omega arith),
  new_solr_section_status-colored spec green (omega arith),
  lookup-new_statuses true specs
      (insert (spec.name <> green) (unseen true (spec.name <> green) spec)
        (insert (spec.name <> blue) (unseen true (spec.name <> blue) spec) m))
      name,
  lookup-insert name (spec.name <> green) (unseen true (spec.name <> green) spec)
      (insert (spec.name <> blue) (unseen true (spec.name <> blue) spec) m),
  lookup-insert name (spec.name <> blue) (unseen true (spec.name <> blue) spec) m,
)
lookup-new_statuses false (spec ∷ specs) m name = ground (
  arith,
  new_solr_section_status-plain spec name,
  lookup-new_statuses false specs (insert spec.name (unseen false name spec) m) name,
  lookup-insert name spec.name (unseen false name spec) m,
)

lookup-write_status :
    (name : String) (is_active : Bool) (collection : Collection)
    (statuses : GoMap SolrCollectionStatus) (n : String)
    → lookup n (write_status name is_active collection statuses) ≡ (
        if n == name
        then map_option (observed is_active collection) (lookup n statuses)
        else lookup n statuses)
unfolding write_status
lookup-write_status name is_active collection statuses n =
    elim (Option-cases (lookup name statuses)) [
      | inl e ↦ rw (e, write_status) (ground (arith, e))
      | inr (status, e) ↦
          rw (e, write_status)
            (ground
              (arith, e, lookup-insert n name (observed is_active collection status) statuses))
    ]

assess_collection-statuses :
    (cfg : Settings) (set : SolrCollectionSet) (to_alias : GoMap String) (name : String)
    (collection : Collection) (a : Assessment)
    → (assess_collection cfg set to_alias name collection a).statuses ≡ (
        if has_prefix collection.name "_"
        then a.statuses
        else write_status name
            (is_active_instance cfg.is_blue_green to_alias name)
            collection
            a.statuses)
unfolding assess_collection assess_factor assess_replicas
assess_collection-statuses cfg set to_alias name collection a = ground arith

lookup-assess_collections :
    (cfg : Settings) (set : SolrCollectionSet) (to_alias : GoMap String) (m : GoMap Collection)
    (a : Assessment) (n : String)
    → NodupKeys m
    → lookup n (assess_collections cfg set to_alias m a).statuses
      ≡ map_option
          (seen (is_active_instance cfg.is_blue_green to_alias n) (lookup n m))
          (lookup n a.statuses)
unfolding assess_collections
lookup-assess_collections cfg set to_alias [] a n u = ground arith
lookup-assess_collections cfg set to_alias ((name, collection) ∷ m) a n (fresh, u) = ground (
  arith,
  lookup-assess_collections cfg set to_alias m
      (assess_collection cfg set to_alias name collection a) n u,
  assess_collection-statuses cfg set to_alias name collection a,
  lookup-write_status name (is_active_instance cfg.is_blue_green to_alias name) collection
      a.statuses n,
)

assess_counts-statuses :
    (set : SolrCollectionSet) (is_blue_green : Bool) (specified existing : ℕ) (a : Assessment)
    → (assess_counts set is_blue_green specified existing a).statuses ≡ a.statuses
unfolding assess_counts
assess_counts-statuses set is_blue_green specified existing a = ground arith

lookup-first_assessment :
    (P : Platform) (cfg : Settings) (set : SolrCollectionSet) (collections : GoMap Collection)
    (n : String)
    → lookup n (first_assessment P cfg set collections).statuses
      ≡ first_status cfg.is_blue_green set.spec.collections n
unfolding first_assessment
lookup-first_assessment P cfg set collections n = rw assess_counts-statuses (
    ground (
      arith,
      lookup-new_statuses cfg.is_blue_green set.spec.collections [] n,
      lookup-nil {V = SolrCollectionStatus} n,
    ))

-- On a platform whose loops are fair, with no collection and no alias listed twice: the status
-- has an entry exactly for the instances that the spec asks for, with the name and the config
-- set of the collection of the spec, and in a blue/green set with the name of the instance.
-- Where the cluster has a collection of that name that is not one of the operator's own, the
-- entry exists and has its replication factor and its number of replicas, and is active, in a
-- blue/green set only if an alias points to the name that is left without the color. Elsewhere
-- it does not exist, is not active and has the counts 0.
pub lookup-assess :
    (P : Platform)
    → IsFair P.order
    → (cfg : Settings) (set : SolrCollectionSet) (cluster : ClusterStatus)
    → NodupKeys cluster.collections
    → NodupKeys cluster.aliases
    → (n : String)
    → lookup n (assess P cfg set cluster).statuses
      ≡ map_option
          (seen
            (if cfg.is_blue_green then is_target cluster.aliases (trim_color n) else true)
            (lookup n cluster.collections))
          (map_option
            (unseen cfg.is_blue_green n)
            (specified cfg.is_blue_green set.spec.collections n))
unfolding assess is_active_instance
lookup-assess P fair cfg set cluster u v n =
    lookup-assess_collections cfg set
      (reverse_aliases (P.order.visit populate_aliases String cluster.aliases) [])
      (P.order.visit populate_collections Collection cluster.collections)
      (first_assessment P cfg set cluster.collections) n
      (fair.visit-NodupKeys populate_collections Collection cluster.collections u)
    ∙ rw
        (
          lookup-first_assessment,
          fair.lookup-visit populate_collections Collection cluster.collections u n,
          has_key-reverse_aliases P.order fair populate_aliases cluster.aliases v (trim_color n),
        )
        refl
