-- ===== src/Controller/Status/Populate.antt =====
-- The end of `populateCollectionSetStatus`: the condition, and the status object.
use solr_collections_operato.Base.{
  String, ◌<>◌, Bool, none, some, List, [], ◌∷◌, ◌==◌, ◌&&◌, if◌then◌else◌,
}
use solr_collections_operato.Base.Int.{pos}
use solr_collections_operato.Base.Decimal.{show_int}
use solr_collections_operato.Base.GoMap.{GoMap, lookup, insert}
use solr_collections_operato.Base.Outcome.{Outcome, ok, ◌>>=◌}
use solr_collections_operato.Api.{
  SolrCollectionStatus, Condition, SolrCollectionSetStatus, SolrCollectionSet, Settings, settings,
}
use solr_collections_operato.Solr.{Collection, ClusterStatus}
use solr_collections_operato.Platform.{Platform, count_collections, populate_statuses}
use solr_collections_operato.Controller.Names.{count_solr_collections, count_specified_collections}
use solr_collections_operato.Controller.Status.{Assessment, assess}

-- The condition that the assessment leads to.
unfoldable pub stable_condition : Assessment → Condition
stable_condition a = record {
  kind = "Stable";
  status = if a.is_stable then "True" else "False";
  reason = if a.is_stable then "stable" else a.unstable_reason;
  message = if a.is_stable then "" else "Spec and cluster status are not aligned";
}

unfoldable pub conditions_equal : Condition → Condition → Bool
conditions_equal c1 c2 =
    (c1.kind == c2.kind)
    && ((c1.status == c2.status) && ((c1.message == c2.message) && (c1.reason == c2.reason)))

-- for _, condition := range conditions { existingConditions[condition.Type] = condition }
unfoldable pub map_conditions : List Condition → GoMap Condition → GoMap Condition
map_conditions [] existing = existing
map_conditions (c ∷ conditions) existing = map_conditions conditions (insert c.kind c existing)

-- The condition that is set: the existing one where the two are equal.
unfoldable pub carried_condition : GoMap Condition → Condition → Condition
unfolding conditions_equal
carried_condition existing c = elim (lookup c.kind existing) [
  | none ↦ c
  | some old ↦ if conditions_equal c old then old else c
]

abbrev pub values : {V : Type 0} → GoMap V → List V
values [] = []
values ((_, v) ∷ m) = v ∷ values m

module _ (P : Platform) where
  -- The status as the assessment has it, and the events.
  unfoldable pub status_of :
      Settings
      → SolrCollectionSetStatus
      → SolrCollectionSet
      → ClusterStatus
      → Assessment
      → SolrCollectionSetStatus × GoMap String
  unfolding count_solr_collections count_specified_collections stable_condition carried_condition
      map_conditions
  status_of cfg new_status set cluster a =
      let specified = count_specified_collections set.spec.collections cfg.is_blue_green in
      let existing =
        count_solr_collections (P.order.visit count_collections Collection cluster.collections)
          set.spec.collections cfg.is_blue_green in
      (
        record {
          conditions =
              P.set_status_condition new_status.conditions
                (carried_condition (map_conditions set.status.conditions []) (stable_condition a));
          replication_factor = cfg.factor;
          ready_ratio = show_int (pos existing) <> ("/" <> show_int (pos specified));
          scale_status = a.scaling_status;
          solr_collections =
              values (P.order.visit populate_statuses SolrCollectionStatus a.statuses);
        },
        a.events,
      )

  -- The pointers of the spec are followed first.
  unfoldable pub populate_collection_set_status :
      SolrCollectionSetStatus
      → SolrCollectionSet
      → ClusterStatus
      → Outcome (SolrCollectionSetStatus × GoMap String)
  unfolding settings assess status_of
  populate_collection_set_status new_status set cluster = do
    cfg ← settings set.spec
    ok (status_of cfg new_status set cluster (assess P cfg set cluster))
