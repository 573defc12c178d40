-- ===== src/Controller/Reconcile/Blocked.antt =====
-- What a run of `Reconcile` leaves undone while Solr refuses to remove a config set.
use solr_collections_operato.Base.{◌≡◌, ◌≢◌, refl, ap, ◌∙◌, String, true, List, ◌∷◌, ◌++◌}
use solr_collections_operato.Base.GoMap.{IsFair}
use solr_collections_operato.Base.Outcome.{Outcome, ok, err, panic}
use solr_collections_operato.Api.{SolrCollectionSet, Settings, settings}
use solr_collections_operato.Solr.{SolrClient, ClusterStatus}
use solr_collections_operato.Platform.{Request, NamespacedName, Platform, World}
use solr_collections_operato.Solr.Client.Delivery.{after_all, accepted, sent-after_all}
use solr_collections_operato.Solr.Client.Queried.{config_sets_request}
use solr_collections_operato.Solr.Client.Queries.{query_request}
use solr_collections_operato.Controller.Names.{contains}
use solr_collections_operato.Controller.ConfigSets.{process_config_sets}
use solr_collections_operato.Controller.ConfigSets.Queued.{is_surplus}
use solr_collections_operato.Controller.ConfigSets.Run.{process_config_sets-Completes}
use solr_collections_operato.Controller.ConfigSets.Refused.{KeepsUsed, process_config_sets-fails}
use solr_collections_operato.Controller.Reconcile.{Process, Requeue, Run}
use solr_collections_operato.Controller.Reconcile.Quiet.{requeue_on_error-IsQuiet}
use solr_collections_operato.Controller.Reconcile.Loop.{or_requeue, manage}
use solr_collections_operato.Controller.ConfigSets.Queried.{
  queried, ConfigQueries, plan, config_requests, manage_config_sets-reads,
}

module _ (P : Platform) (key : NamespacedName) (set : SolrCollectionSet) where
  -- What is guarded and does not end well leaves no request to what follows.
  or_requeue-sent :
      (f : Unit {0} → Run P Requeue) (r : Outcome (Unit {0}) × Process P)
      → r.0 ≢ ok tt
      → (or_requeue P key set f r).1.world.sent ≡ r.1.world.sent
  or_requeue-sent f (ok tt, p) bad = absurd (bad refl)
  or_requeue-sent f (err e, p) bad = (requeue_on_error-IsQuiet P key set e).same_sent p
  or_requeue-sent f (panic, p) bad = refl

  -- On a platform whose loops are fair, with the pointers of the spec set, the clean-up enabled, and
  -- the answers to the queries of ManageConfigSets readable: where a config set that Solr has is in
  -- no config map and is not one of the operator's own, and Solr refuses to delete it as long as it
  -- is in use, which no request for config sets or checksums changes: what follows the update of the
  -- status sends a first part of the requests of ManageConfigSets and nothing else, so no collection
  -- is created, changed or deleted in that run, the one that uses the config set included.
  pub manage_blocked :
      (fair : IsFair P.order) (c : SolrClient) (name : String) (solr : KeepsUsed P c name)
      (cluster : ClusterStatus) (checksums : String) (w : World P) (cfg : Settings)
      (q : ConfigQueries P c set checksums w)
      → settings set.spec ≡ ok cfg
      → cfg.is_cleanup ≡ true
      → contains q.names name ≡ true
      → is_surplus q.maps name ≡ true
      → solr.is_used (queried P c set checksums w).cluster ≡ true
      → (done left : List Request) × (done ++ left ≡ config_requests P c set checksums w cfg q)
        × ((manage P key set cluster checksums (record { world = w; solr_client = c })).1.world.sent
            ≡ w.sent ++ accepted P done)
  unfolding manage after_all
  manage_blocked fair c name solr cluster checksums w cfg q known cleanup there surplus used =
      let p = plan P c set checksums w cfg q in
      let v = queried P c set checksums w in
      let run = process_config_sets P c checksums p v in
      let (done, left, all, made, whole) = process_config_sets-Completes P c checksums p v in
      let fails : run.0 ≢ ok tt = rw cleanup (
        process_config_sets-fails P c name solr fair checksums q.names q.maps q.checksums v there
          surplus used) in
      let whole_done = config_sets_request c ∷ query_request P c checksums "*:*" ∷ done in
      (
        whole_done,
        left,
        ap (λ (l : List Request). config_sets_request c ∷ query_request P c checksums "*:*" ∷ l)
            all,
        rw (manage_config_sets-reads P c set checksums w cfg q known) (
            or_requeue-sent _ (run.0, record { world = run.1; solr_client = c }) fails
            ∙ ap (λ (x : World P). x.sent) made
            ∙ sent-after_all P whole_done w),
      )
