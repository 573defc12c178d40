-- ===== src/Controller/Reconcile/Placed.antt =====
-- The collections and replicas in a run of `Reconcile`, on a cluster on which only the operator changes
-- something.
use solr_collections_operato.Base.{
  ℕ, ◌≡◌, inl, inr, ◌∙◌, String, Bool, not, ◌&&◌, [], ◌∷◌, All, Bool-cases,
}
use solr_collections_operato.Base.Int.{pos, ltb_ℤ, sub32}
use solr_collections_operato.Base.GoMap.{GoMap, has_key}
use solr_collections_operato.Base.Outcome.{ok}
use solr_collections_operato.Api.{SolrCollection, SolrCollectionSet, Settings, settings}
use solr_collections_operato.Solr.{SolrClient, Collection, ReplicationAdjustment}
use solr_collections_operato.Platform.{
  Request, NamespacedName, Platform, World, manage_creates, manage_alias_deletes, manage_deletes,
  manage_adjusts, adjust_queue,
}
use solr_collections_operato.Solr.Client.Commands.{
  delete_alias_request, delete_collection_request, set_replication_factor_request,
}
use solr_collections_operato.Solr.Client.Delivery.{IsCivil}
use solr_collections_operato.Solr.Client.Preserved.{Preserves, preserved-after_all, All-append}
use solr_collections_operato.Controller.Collections.{Plan, plan_collections, manage_collections}
use solr_collections_operato.Controller.Collections.Run.{
  alias_requests, create_requests, key_requests, plan_requests, manage_collections_lem,
}
use solr_collections_operato.Controller.Reconcile.Deployment.{
  active_settings, SolrSystem, IsSeparate, SameSets,
}
use solr_collections_operato.Controller.Names.{abs}
use solr_collections_operato.Controller.Replicas.{queue_adjustments, adjust_replicas}
use solr_collections_operato.Controller.Replicas.Adjusted.{
  adjustment_request, adjustment_requests, run_adjustments-Runs,
}
use mathlib.Core.List.{append-nil}

module _ (P : Platform) (c : SolrClient) (key : NamespacedName) (set : SolrCollectionSet)
    (factor : ℕ) (solr : SolrSystem P c key set factor) (sep : IsSeparate P c key set factor solr)
    (is_blue_green is_cleanup : Bool) (t : P.State) where
  -- Solr has the config sets and checksums that it had.
  abbrev pub HasSets : P.State → Type 0
  HasSets s = SameSets P c key set factor solr s t

  HasSets-step :
      (req : Request)
      → ((s : P.State) → SameSets P c key set factor solr (P.do_request req s).1 s)
      → Preserves P HasSets req
  HasSets-step req same s (has, sums) =
      let (has', sums') = same s in (λ n. has' n ∙ has n, λ n. sums' n ∙ sums n)

  abbrev cfg : Settings
  cfg = active_settings factor is_blue_green is_cleanup

  alias_requests-HasSets :
      (aliases : GoMap String) (name : String) (spec : SolrCollection)
      → All (Preserves P HasSets) (alias_requests c cfg aliases name spec)
  alias_requests-HasSets aliases name spec =
      elim (Bool-cases (cfg.is_blue_green && not (has_key spec.alias aliases))) [
        | inl e ↦ rw e (HasSets-step _ (sep.assign spec.alias name), tt)
        | inr e ↦ rw e tt
      ]

  create_requests-HasSets :
      (aliases : GoMap String) (m : GoMap SolrCollection)
      → All (Preserves P HasSets) (create_requests c cfg aliases m)
  create_requests-HasSets aliases [] = tt
  create_requests-HasSets aliases ((name, spec) ∷ m) = (
    HasSets-step _ (sep.create name spec.configset_name),
    All-append (Preserves P HasSets) (alias_requests c cfg aliases name spec)
        (create_requests c cfg aliases m) (alias_requests-HasSets aliases name spec)
        (create_requests-HasSets aliases m),
  )

  key_requests-HasSets :
      {V : Type 0} (f : String → Request)
      → ((n : String) (s : P.State) → SameSets P c key set factor solr (P.do_request (f n) s).1 s)
      → (m : GoMap V) → All (Preserves P HasSets) (key_requests f m)
  key_requests-HasSets f same [] = tt
  key_requests-HasSets f same ((k, _) ∷ m) =
      (HasSets-step (f k) (same k), key_requests-HasSets f same m)

  plan_requests-HasSets :
      (aliases : GoMap String) (plan : Plan)
      → All (Preserves P HasSets) (plan_requests P c cfg aliases plan)
  plan_requests-HasSets aliases plan =
      let Q = Preserves P HasSets in
      let creates = P.order.visit manage_creates SolrCollection plan.creates in
      let alias_deletes = P.order.visit manage_alias_deletes String plan.alias_deletes in
      let deletes = P.order.visit manage_deletes SolrCollection plan.deletes in
      let changes = P.order.visit manage_adjusts Collection plan.factor_changes in
      All-append Q _ _ (create_requests-HasSets aliases creates) (
        All-append Q _ _
          (key_requests-HasSets (delete_alias_request c) sep.delete_alias alias_deletes)
          (All-append Q _ _ (key_requests-HasSets (delete_collection_request c) sep.delete deletes)
            (key_requests-HasSets (λ n. set_replication_factor_request c n (pos factor)) sep.modify
              changes)))

  -- The collections are managed without a change of the config sets and checksums.
  pub manage_collections-HasSets :
      IsCivil P
      → (reported : SolrCollectionSet) (collections : GoMap Collection) (aliases : GoMap String)
        (w : World P)
      → settings reported.spec ≡ ok cfg
      → HasSets w.cluster
      → HasSets (manage_collections P c reported collections aliases w).1.cluster
  manage_collections-HasSets civil reported collections aliases w known h =
      let plan = plan_collections P cfg reported.spec.collections collections aliases in
      rw (manage_collections_lem P c civil reported collections aliases w cfg known) (
        preserved-after_all P HasSets (plan_requests P c cfg aliases plan) []
          (plan_requests P c cfg aliases plan) w (append-nil _) (plan_requests-HasSets aliases plan)
          h)

  adjustment_requests-HasSets :
      (m : GoMap ReplicationAdjustment) → All (Preserves P HasSets) (adjustment_requests c m)
  unfolding adjustment_request
  adjustment_requests-HasSets [] = tt
  adjustment_requests-HasSets ((n, a) ∷ m) =
      let diff = sub32 a.target_count a.current_count in
      elim (Bool-cases (ltb_ℤ (pos 0) diff)) [
        | inl e ↦ rw e (HasSets-step _ (sep.add n diff), adjustment_requests-HasSets m)
        | inr e ↦ rw e (HasSets-step _ (sep.remove n (abs diff)), adjustment_requests-HasSets m)
      ]

  -- So are the replicas.
  pub adjust_replicas-HasSets :
      (reported : SolrCollectionSet) (collections : GoMap Collection) (checksums : String)
      (w : World P)
      → settings reported.spec ≡ ok cfg
      → HasSets w.cluster
      → HasSets (adjust_replicas P c reported collections checksums w).1.cluster
  unfolding adjust_replicas
  adjust_replicas-HasSets reported collections checksums w known h =
      let queue = P.order.visit adjust_queue ReplicationAdjustment (
        queue_adjustments P reported.spec.collections is_blue_green (pos factor) collections
          checksums) in
      let (done, left, all, made, whole) = run_adjustments-Runs P c queue w in
      rw (known, adjust_replicas, made)
        (preserved-after_all P HasSets done left _ w all (adjustment_requests-HasSets queue) h)
