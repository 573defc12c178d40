-- ===== src/Controller/Status/Stable.antt =====
-- When the status says that a collection set is stable.
use solr_collections_operato.Base.{
  String-discrete, ◌≡◌, refl, ◌∙◌, sym, ap, ◌↔◌, String, Bool, true, false, ◌&&◌, Option, none,
  some, List, [], ◌∷◌, arith, ◌==◌, if◌then◌else◌,
}
use solr_collections_operato.Base.GoMap.{GoMap, NodupKeys, IsFair, lookup}
use solr_collections_operato.Base.GoMap.Counted.{count_values-visit}
use solr_collections_operato.Base.Outcome.{ok}
use solr_collections_operato.Api.{
  Condition, SolrCollectionSetStatus, SolrCollectionSet, Settings, settings,
}
use solr_collections_operato.Solr.{Collection, ClusterStatus}
use solr_collections_operato.Platform.{
  Platform, count_collections, populate_aliases, populate_collections,
}
use solr_collections_operato.Controller.Names.{
  is_counted, count_solr_collections, count_specified_collections, reverse_aliases,
}
use solr_collections_operato.Controller.Status.{first_assessment, assess}
use solr_collections_operato.Controller.Status.Populate.{
  stable_condition, conditions_equal, map_conditions, carried_condition, status_of,
  populate_collection_set_status,
}
use solr_collections_operato.Controller.Status.Settled.{
  all_settled, assess_collections-is_stable, assess_counts-is_stable,
  count_solr_collections-count_values, all_settled-lookup, lookup-all_settled, is_settled,
}
use solr_collections_operato.Controller.Status.Listed.{
  count_listed, instances, count_solr_collections-count_listed,
  count_specified_collections-instances,
}

-- What the status reports as stable: there are as many collections with a name of the spec as the spec
-- has instances, and each collection but the operator's own has the factor of the set and as many
-- replicas.
pub record IsStable (cfg : Settings) (set : SolrCollectionSet) (cluster : ClusterStatus)
    : Type 0 where
  pub counts :
      instances set.spec.collections cfg.is_blue_green
      ≡ count_listed set.spec.collections cfg.is_blue_green cluster.collections
  pub settled :
      (n : String) (collection : Collection)
      → lookup n cluster.collections ≡ some collection
      → is_settled cfg.factor collection ≡ true

-- The status under a kind of condition.
abbrev pub condition_status : String → List Condition → Option String
condition_status kind [] = none
condition_status kind (c ∷ conditions) =
    if c.kind == kind then some c.status else condition_status kind conditions

-- meta.SetStatusCondition puts the condition under its kind.
pub record IsKept (P : Platform) : Type 0 where
  pub status_set :
      (conditions : List Condition) (c : Condition)
      → condition_status c.kind (P.set_status_condition conditions c) ≡ some c.status

conditions_equal→≡ : (c1 c2 : Condition) → conditions_equal c1 c2 ≡ true → c2 ≡ c1
unfolding conditions_equal
conditions_equal→≡ c1 c2 h =
    let kind : c2.kind ≡ c1.kind = ground arith in
    let status : c2.status ≡ c1.status = ground arith in
    let reason : c2.reason ≡ c1.reason = ground arith in
    let message : c2.message ≡ c1.message = ground arith in rw (kind, status, reason, message) refl

carried_condition-same :
    (existing : GoMap Condition) (c : Condition) → carried_condition existing c ≡ c
unfolding carried_condition
carried_condition-same existing c = grind (arith, conditions_equal→≡)

verdict_of_status :
    (b : Bool)
    → ◌≡◌ {A = Option String} (some (if b then "True" else "False")) (some "True")
    → b ≡ true
unfolding String-discrete
verdict_of_status true e = refl
verdict_of_status false e = ap (λ o. elim o [ none ↦ false | some s ↦ s == "True" ]) e

module _ (P : Platform) (fair : IsFair P.order) (cfg : Settings) (set : SolrCollectionSet)
    (cluster : ClusterStatus) (u : NodupKeys cluster.collections) where
  pub count_solr_collections-visit :
      count_solr_collections
        (P.order.visit count_collections Collection cluster.collections)
        set.spec.collections
        cfg.is_blue_green
      ≡ count_solr_collections cluster.collections set.spec.collections cfg.is_blue_green
  count_solr_collections-visit =
      count_solr_collections-count_values
        (P.order.visit count_collections Collection cluster.collections) set.spec.collections
        cfg.is_blue_green
      ∙ count_values-visit P.order fair (is_counted set.spec.collections cfg.is_blue_green)
          count_collections cluster.collections u
      ∙ sym (
          count_solr_collections-count_values cluster.collections set.spec.collections
            cfg.is_blue_green)

  first_assessment-is_stable :
      (first_assessment P cfg set cluster.collections).is_stable ≡ true
      ↔ count_specified_collections set.spec.collections cfg.is_blue_green
        ≡ count_solr_collections cluster.collections set.spec.collections cfg.is_blue_green
  unfolding first_assessment
  first_assessment-is_stable =
      rw (assess_counts-is_stable, count_solr_collections-visit)
        (λ h. ground arith, λ h. ground arith)

  assess-is_stable : (assess P cfg set cluster).is_stable ≡ (
      all_settled cfg.factor (P.order.visit populate_collections Collection cluster.collections)
      && (first_assessment P cfg set cluster.collections).is_stable)
  unfolding assess
  assess-is_stable =
      assess_collections-is_stable cfg set
        (reverse_aliases (P.order.visit populate_aliases String cluster.aliases) [])
        (P.order.visit populate_collections Collection cluster.collections)
        (first_assessment P cfg set cluster.collections)

  assess-IsStable : ((assess P cfg set cluster).is_stable ≡ true) ↔ IsStable cfg set cluster
  assess-IsStable = (
    λ h. record {
      counts =
          sym (count_specified_collections-instances set.spec.collections cfg.is_blue_green)
          ∙ first_assessment-is_stable.0 (ground (arith, assess-is_stable))
          ∙ count_solr_collections-count_listed cluster.collections set.spec.collections
              cfg.is_blue_green;
      settled = λ n collection e.
          all_settled-lookup cfg.factor
            (P.order.visit populate_collections Collection cluster.collections) n collection
            (ground (arith, assess-is_stable))
            (fair.lookup-visit populate_collections Collection cluster.collections u n ∙ e);
    },
    λ stable. ground (
      arith,
      assess-is_stable,
      first_assessment-is_stable.1 (
          count_specified_collections-instances set.spec.collections cfg.is_blue_green
          ∙ stable.counts
          ∙ sym (
              count_solr_collections-count_listed cluster.collections set.spec.collections
                cfg.is_blue_green)),
      lookup-all_settled cfg.factor
          (P.order.visit populate_collections Collection cluster.collections)
          (fair.visit-NodupKeys populate_collections Collection cluster.collections u)
          (λ n collection e.
            stable.settled n collection (
              sym (fair.lookup-visit populate_collections Collection cluster.collections u n) ∙ e)),
    ),
  )

  -- The status of the condition that is set.
  set_condition-status :
      IsKept P
      → (conditions : List Condition) (existing : GoMap Condition)
      → condition_status "Stable" (
          P.set_status_condition conditions
            (carried_condition existing (stable_condition (assess P cfg set cluster))))
        ≡ some (if (assess P cfg set cluster).is_stable then "True" else "False")
  unfolding stable_condition
  set_condition-status kept conditions existing =
      let c = stable_condition (assess P cfg set cluster) in
      rw (carried_condition-same existing c) (kept.status_set conditions c)

-- On a platform whose loops are fair and which sets conditions as documented, with the pointers
-- of the spec set and no collection listed twice: the new status reports the condition Stable as
-- True exactly when two things hold. There are as many collections with a name of the spec that
-- are not the operator's own, in a blue/green set after _blue and then _green are cut off its
-- end, as the spec has collections, or twice as many in a blue/green set; and every collection
-- but the operator's own, whether the spec asks for it or not, has the replication factor of the
-- set and as many replicas.
pub populate_collection_set_status-IsStable :
    (P : Platform)
    → IsFair P.order
    → IsKept P
    → (cfg : Settings) (new_status : SolrCollectionSetStatus) (set : SolrCollectionSet)
      (cluster : ClusterStatus)
    → settings set.spec ≡ ok cfg
    → NodupKeys cluster.collections
    → (status : SolrCollectionSetStatus) × (events : GoMap String) × (populate_collection_set_status
          P new_status set cluster
        ≡ ok (status, events))
      × ((condition_status "Stable" status.conditions ≡ some "True") ↔ IsStable cfg set cluster)
unfolding populate_collection_set_status status_of stable_condition
populate_collection_set_status-IsStable P fair kept cfg new_status set cluster e u =
    let found =
      set_condition-status P fair cfg set cluster u kept new_status.conditions
        (map_conditions set.status.conditions []) in
    let (stable_of, of_stable) = assess-IsStable P fair cfg set cluster u in
    (
      (status_of P cfg new_status set cluster (assess P cfg set cluster)).0,
      (status_of P cfg new_status set cluster (assess P cfg set cluster)).1,
      rw e refl,
      (
        λ h. stable_of (verdict_of_status _ (sym found ∙ h)),
        λ stable. found ∙ ap (λ b. some (if b then "True" else "False")) (of_stable stable),
      ),
    )
