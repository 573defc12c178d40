-- ===== src/Controller/Reconcile/Loop.antt =====
-- `InitializeSolrCluster` and `Reconcile`.
use solr_collections_operato.Base.{
  String, ◌<>◌, Bool, true, false, Option, none, some, [], ◌∷◌, if◌then◌else◌,
}
use solr_collections_operato.Base.GoMap.{has_key}
use solr_collections_operato.Base.Outcome.{Outcome, ok, err, panic}
use solr_collections_operato.Base.Exec.{◌>>=◌, ◌>>◌, pure, lift}
use solr_collections_operato.Api.{SolrCollectionSet, Settings, settings, with_defaults}
use solr_collections_operato.Solr.{ClusterStatus}
use solr_collections_operato.Platform.{
  NamespacedName, Fetched, Written, found, not_found, unfetchable, written, refused, Platform,
}
use solr_collections_operato.Solr.Client.Queries.{get_cluster_status}
use solr_collections_operato.Controller.Names.{checksums_collection_name}
use solr_collections_operato.Controller.Collections.{manage_collections}
use solr_collections_operato.Controller.ConfigSets.{manage_config_sets}
use solr_collections_operato.Controller.Replicas.{adjust_replicas}
use solr_collections_operato.Controller.Reconcile.{
  Requeue, unscheduled, immediately, with_backoff, Process, Run, with_client, kubernetes, refetch,
  requeue_on_error, update_collection_set_status, ensure_client, create_checksum_collection,
}

module _ (P : Platform) where
  -- InitializeSolrCluster: the cluster status, and whether the collection for checksums was missing.
  unfoldable pub initialize_solr_cluster :
      SolrCollectionSet → Settings → String → Run P (ClusterStatus × Bool)
  initialize_solr_cluster set cfg checksums =
      ensure_client P set
      >> (with_client P (get_cluster_status P) >>= λ cluster.
          if has_key checksums cluster.collections
          then pure (cluster, false)
          else (with_client P (create_checksum_collection P checksums cfg.factor)
              >> (with_client P (get_cluster_status P) >>= λ cluster'. pure (cluster', true))))

  -- if err != nil { return r.RequeueOnError(…) }
  abbrev pub or_requeue :
      {A : Type 0}
      → NamespacedName
      → SolrCollectionSet
      → (A → Run P Requeue)
      → Outcome A × Process P
      → Outcome Requeue × Process P
  or_requeue key set f (ok a, p) = f a p
  or_requeue key set f (err e, p) = requeue_on_error P key set e p
  or_requeue key set f (panic, p) = (panic, p)

  abbrev pub guarded :
      {A : Type 0}
      → NamespacedName
      → SolrCollectionSet
      → Run P A
      → (A → Run P Requeue)
      → Run P Requeue
  guarded key set m f p = or_requeue key set f (m p)

  -- The events that the set is initialized.
  unfoldable pub emit_initializing : SolrCollectionSet → Bool → Run P (Unit {0})
  emit_initializing set false = pure tt
  emit_initializing set true = kubernetes P λ s. (
    tt {0},
    P.record_event set "Initializing"
        ("SolrCollectionSpec ["
          <> (set.name <> ("] is being initialized in namespace [" <> (set.namespace <> "]"))))
        s,
  )

  -- What follows the status: the config sets, the collections, and then the replicas.
  unfoldable pub manage :
      NamespacedName → SolrCollectionSet → ClusterStatus → String → Run P Requeue
  manage key set cluster checksums =
      guarded key set (with_client P λ c. manage_config_sets P c set checksums) λ _.
        (with_client P (λ c. manage_collections P c set cluster.collections cluster.aliases)
          >>= λ changed.
              if changed
              then pure immediately
              else guarded key set
                  (with_client P λ c. adjust_replicas P c set cluster.collections checksums)
                  λ is_scaling. if is_scaling then pure with_backoff else pure unscheduled)

  -- What follows the update of the status.
  unfoldable pub after_status :
      NamespacedName → ClusterStatus → String → SolrCollectionSet × Option String → Run P Requeue
  after_status key cluster checksums (set, some e) = requeue_on_error P key set e
  after_status key cluster checksums (set, none) = manage key set cluster checksums

  -- What follows the initialization of the cluster.
  unfoldable pub report_and_manage :
      NamespacedName → SolrCollectionSet → String → ClusterStatus × Bool → Run P Requeue
  report_and_manage key set checksums (cluster, is_initializing) = do
    emit_initializing set is_initializing
    result ← update_collection_set_status P key set cluster
    after_status key cluster checksums result

  -- The part of `Reconcile` that an inactive collection set does not reach.
  unfoldable pub reconcile_active : NamespacedName → SolrCollectionSet → Settings → Run P Requeue
  reconcile_active key set cfg =
      let checksums = checksums_collection_name set.name in
      guarded key set (initialize_solr_cluster set cfg checksums)
        (report_and_manage key set checksums)

  -- What follows the update of the spec with its defaults.
  unfoldable pub spec_updated : NamespacedName → SolrCollectionSet → Written → Run P Requeue
  spec_updated key set (refused e) = requeue_on_error P key set e
  spec_updated key set (written _) = pure immediately

  -- The part of `Reconcile` that follows the first condition.
  unfoldable pub reconcile_set : NamespacedName → SolrCollectionSet → Run P Requeue
  reconcile_set key set =
      let (filled, changed) = with_defaults set in
      if changed
      then (kubernetes P (P.update filled) >>= spec_updated key filled)
      else (lift (settings filled.spec) >>= λ cfg.
          if cfg.is_active then reconcile_active key filled cfg else pure unscheduled)

  -- A collection set without a condition gets its first one.
  unfoldable pub with_first_condition : SolrCollectionSet → SolrCollectionSet
  with_first_condition set = record set {
    status = record set.status {
      conditions = P.set_status_condition set.status.conditions (record {
        kind = "Stable";
        status = "Unknown";
        reason = "initializing";
        message = "Bootstrapping the operator";
      });
    };
  }

  -- What follows the fetch after the first condition was stored.
  unfoldable pub first_refetched :
      NamespacedName → SolrCollectionSet × Option String → Run P Requeue
  first_refetched key (set, some e) = requeue_on_error P key set e
  first_refetched key (set, none) = reconcile_set key set

  -- What follows the update of the status with the first condition.
  unfoldable pub first_stored : NamespacedName → Written → Run P Requeue
  first_stored key (refused _) = pure unscheduled
  first_stored key (written stored) = refetch P key stored >>= first_refetched key

  -- len(collectionSetSpec.Status.Conditions) == 0
  abbrev pub is_unconditioned : SolrCollectionSet → Bool
  is_unconditioned set = elim set.status.conditions [ [] ↦ true | _ ∷ _ ↦ false ]

  unfoldable pub reconcile_fetched : NamespacedName → Fetched → Run P Requeue
  reconcile_fetched key (not_found _) = pure unscheduled
  reconcile_fetched key (unfetchable _) = pure unscheduled
  reconcile_fetched key (found set) =
      if is_unconditioned set
      then (kubernetes P (P.update_status (with_first_condition set)) >>= first_stored key)
      else reconcile_set key set

  unfoldable pub reconcile : NamespacedName → Run P Requeue
  reconcile key p = reconcile_fetched key (P.fetch key p.world.cluster) p
