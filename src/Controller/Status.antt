-- ===== src/Controller/Status.antt =====
-- `populateCollectionSetStatus` of internal/controller/solrcollectionset_controller.go: what the
-- status of the resource says of the cluster.
pub mod Populate
pub mod Settled
pub mod Listed
pub mod Stable
pub mod Ratio
pub mod Entries
use solr_collections_operato.Base.{
  ℕ, ◌+◌, ◌/◌, String, ◌<>◌, Bool, true, false, none, some, List, [], ◌∷◌, eqb, ltb, ◌==◌, ◌&&◌,
  if◌then◌else◌,
}
use solr_collections_operato.Base.Int.{ℤ, pos, negsuc, sub_ℕ, sub32, eqb_ℤ, ltb_ℤ}
use solr_collections_operato.Base.Text.{has_prefix}
use solr_collections_operato.Base.Decimal.{show_int}
use solr_collections_operato.Base.GoMap.{GoMap, lookup, insert, has_key}
use solr_collections_operato.Base.Outcome.{Outcome, ok, ◌>>=◌}
use solr_collections_operato.Api.{
  SolrCollection, SolrCollectionStatus, Condition, SolrCollectionSetStatus, SolrCollectionSet,
  Settings, settings,
}
use solr_collections_operato.Solr.{Collection, ClusterStatus}
use solr_collections_operato.Platform.{
  Platform, count_collections, populate_aliases, populate_collections, populate_statuses,
}
use solr_collections_operato.Controller.Names.{
  blue, green, abs, trim_color, reverse_aliases, count_solr_collections,
  count_specified_collections,
}

-- The variables that the loops of `populateCollectionSetStatus` change.
pub record Assessment : Type 0 where
  pub is_stable : Bool
  pub unstable_reason : String
  pub scaling_status : String
  pub events : GoMap String
  pub statuses : GoMap SolrCollectionStatus

-- number / 2, which Go rounds towards zero
abbrev pub halve : ℤ → ℤ
halve (pos n) = pos (n / 2)
halve (negsuc n) = sub_ℕ 0 ((n + 1) / 2)

-- The text of an event.
abbrev pub event_text : SolrCollectionSet → String → String
event_text set what =
    "SolrCollectionSpec ["
    <> (set.name <> ("] is in namespace [" <> (set.namespace <> ("] is " <> what))))

-- The number of collections that the event speaks of.
unfoldable pub change_count : Bool → ℕ → ℕ → ℤ
unfolding abs sub32
change_count is_blue_green specified existing =
    if is_blue_green
    then halve (abs (sub32 (pos specified) (pos existing)))
    else abs (sub32 (pos specified) (pos existing))

-- if specifiedCollectionCount != solrCollectionsCount { … }
unfoldable pub assess_counts : SolrCollectionSet → Bool → ℕ → ℕ → Assessment → Assessment
unfolding change_count
assess_counts set is_blue_green specified existing a =
    let number = show_int (change_count is_blue_green specified existing) in
    if eqb specified existing
    then a
    else if ltb specified existing
    then record a {
      is_stable = false;
      unstable_reason = "removingCollections";
      events =
          insert "RemovingCollection" (event_text set ("removing [" <> (number <> "] collections")))
            a.events;
    }
    else record a {
      is_stable = false;
      unstable_reason = "addingCollections";
      events =
          insert "AddingCollection" (event_text set ("adding [" <> (number <> "] collections")))
            a.events;
    }

-- newSolrSectionStatus
unfoldable pub new_solr_section_status : SolrCollection → String → SolrCollectionStatus
new_solr_section_status spec instance_name = record {
  name = spec.name;
  instance_name = instance_name;
  config_set = spec.configset_name;
  is_existing = false;
  is_active = false;
  is_blue_green = if instance_name == "" then false else true;
  replication_factor = pos 0;
  replica_count = pos 0;
  replication_status = "--";
}

-- The loop over the specified collections.
unfoldable pub new_statuses :
    Bool → List SolrCollection → GoMap SolrCollectionStatus → GoMap SolrCollectionStatus
unfolding new_solr_section_status
new_statuses is_blue_green [] statuses = statuses
new_statuses is_blue_green (spec ∷ specs) statuses = new_statuses is_blue_green specs (
    if is_blue_green
    then insert (spec.name <> green) (new_solr_section_status spec (spec.name <> green))
        (insert (spec.name <> blue) (new_solr_section_status spec (spec.name <> blue)) statuses)
    else insert spec.name (new_solr_section_status spec "") statuses)

-- An instance of a blue/green set is active when an alias points to the name that the spec has.
unfoldable pub is_active_instance : Bool → GoMap String → String → Bool
unfolding trim_color has_key
is_active_instance is_blue_green to_alias name =
    if is_blue_green then has_key (trim_color name) to_alias else true

-- if collectionSetReplicationFactor != collection.ReplicationFactor { … }
unfoldable pub assess_factor : ℤ → Collection → Assessment → Assessment
assess_factor factor collection a =
    if eqb_ℤ factor collection.replication_factor
    then a
    else record a { is_stable = false; unstable_reason = "replicationFactorMismatch" }

-- The end of the text of a scaling event.
abbrev scale_text : Collection → String
scale_text collection =
    "from ["
    <> (show_int collection.replica_count
        <> ("] replicas to [" <> (show_int collection.replication_factor <> "]")))

-- if collection.ReplicaCount != collection.ReplicationFactor { … }
unfoldable pub assess_replicas : SolrCollectionSet → Collection → Assessment → Assessment
assess_replicas set collection a =
    if eqb_ℤ collection.replica_count collection.replication_factor
    then a
    else if ltb_ℤ collection.replica_count collection.replication_factor
    then record a {
      is_stable = false;
      scaling_status = "scalingOut";
      unstable_reason = "scalingOut";
      events =
          insert "ScaleOut" (event_text set ("scaling out " <> scale_text collection)) a.events;
    }
    else record a {
      is_stable = false;
      scaling_status = "scalingIn";
      unstable_reason = "scalingIn";
      events = insert "ScaleIn" (event_text set ("scaling in " <> scale_text collection)) a.events;
    }

-- What the status of a collection becomes when the cluster has it.
unfoldable pub observed : Bool → Collection → SolrCollectionStatus → SolrCollectionStatus
observed is_active collection status = record status {
  replication_factor = collection.replication_factor;
  replica_count = collection.replica_count;
  replication_status =
      show_int collection.replica_count <> ("/" <> show_int collection.replication_factor);
  is_active = is_active;
  is_existing = true;
}

-- solrCollectionStatus, exists := collectionStatusMap[name]; …
unfoldable pub write_status :
    String → Bool → Collection → GoMap SolrCollectionStatus → GoMap SolrCollectionStatus
unfolding observed
write_status name is_active collection statuses = elim (lookup name statuses) [
  | none ↦ statuses
  | some status ↦ insert name (observed is_active collection status) statuses
]

-- One round of the loop over the collections of the cluster.
unfoldable pub assess_collection :
    Settings → SolrCollectionSet → GoMap String → String → Collection → Assessment → Assessment
unfolding assess_factor assess_replicas write_status is_active_instance
assess_collection cfg set to_alias name collection a =
    let assessed = assess_replicas set collection (assess_factor cfg.factor collection a) in
    if has_prefix collection.name "_" then a else record assessed {
      statuses =
          write_status name (is_active_instance cfg.is_blue_green to_alias name) collection
            assessed.statuses;
    }

unfoldable pub assess_collections :
    Settings → SolrCollectionSet → GoMap String → GoMap Collection → Assessment → Assessment
unfolding assess_collection
assess_collections cfg set to_alias [] a = a
assess_collections cfg set to_alias ((name, collection) ∷ collections) a =
    assess_collections cfg set to_alias collections
      (assess_collection cfg set to_alias name collection a)

module _ (P : Platform) where
  -- The assessment with which the loop over the collections begins.
  unfoldable pub first_assessment : Settings → SolrCollectionSet → GoMap Collection → Assessment
  unfolding assess_counts new_statuses count_solr_collections count_specified_collections
  first_assessment cfg set collections =
      assess_counts set cfg.is_blue_green
        (count_specified_collections set.spec.collections cfg.is_blue_green)
        (count_solr_collections (P.order.visit count_collections Collection collections)
          set.spec.collections cfg.is_blue_green)
        (record {
          is_stable = true;
          unstable_reason = "";
          scaling_status = "Stable";
          events = [];
          statuses = new_statuses cfg.is_blue_green set.spec.collections [];
        })

  unfoldable pub assess : Settings → SolrCollectionSet → ClusterStatus → Assessment
  unfolding first_assessment assess_collections reverse_aliases
  assess cfg set cluster =
      assess_collections cfg set
        (reverse_aliases (P.order.visit populate_aliases String cluster.aliases) [])
        (P.order.visit populate_collections Collection cluster.collections)
        (first_assessment cfg set cluster.collections)
