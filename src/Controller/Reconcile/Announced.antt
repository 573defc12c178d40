-- ===== src/Controller/Reconcile/Announced.antt =====
-- The first part of a run of `Reconcile`, up to the update of the status, on a cluster on which only the
-- operator changes something.
use solr_collections_operato.Base.{
  ℕ, ◌≡◌, refl, ◌∙◌, String, true, false, none, [], ◌∷◌, inl, inr, Bool-cases,
}
use solr_collections_operato.Base.GoMap.{GoMap}
use solr_collections_operato.Base.Outcome.{ok}
use solr_collections_operato.Base.Exec.{is-pair, ◌>>◌}
use solr_collections_operato.Api.{
  SolrCollectionSet, SolrCollectionSetStatus, Settings, settings, with_defaults,
}
use solr_collections_operato.Api.Defaults.{with_defaults_unchanged}
use solr_collections_operato.Solr.{SolrClient, ClusterStatus}
use solr_collections_operato.Platform.{ConfigMap, NamespacedName, Platform, World}
use solr_collections_operato.Solr.Client.Delivery.{after}
use solr_collections_operato.Solr.Client.ClusterReport.{status_request}
use solr_collections_operato.Solr.Client.Queried.{get_cluster_status-after}
use solr_collections_operato.Solr.Client.Preserved.{preserved-after}
use solr_collections_operato.Controller.Status.Populate.{populate_collection_set_status}
use solr_collections_operato.Controller.Reconcile.{
  emit_all, store_status, status_patched, refetch, refetched, update_collection_set_status, is_zero,
  ensure_client,
}
use solr_collections_operato.Controller.Reconcile.Handled.{reconcile-found}
use solr_collections_operato.Controller.Reconcile.Loop.{
  emit_initializing, initialize_solr_cluster, manage, after_status, report_and_manage,
  reconcile_active, reconcile_set, reconcile,
}
use solr_collections_operato.Controller.Reconcile.Deployment.{
  SolrSystem, IsSeparate, Reports, Kubernetes, Same, checksums_collection,
}

module _ (P : Platform) (c : SolrClient) (key : NamespacedName) (set : SolrCollectionSet)
    (factor : ℕ) (solr : SolrSystem P c key set factor) where
  pub Same-trans :
      (s t u : P.State)
      → Same P c key set factor solr s t
      → Same P c key set factor solr t u
      → Same P c key set factor solr s u
  Same-trans s t u (p, q) (p', q') = (p ∙ p', q ∙ q')

  -- A request that leaves Solr alone in every state does so where it is made.
  pub Same-after :
      (req : _) (w : World P)
      → ((s : P.State) → Same P c key set factor solr (P.do_request req s).1 s)
      → Same P c key set factor solr (after P req w).cluster w.cluster
  Same-after req w same =
      preserved-after P (λ s. Same P c key set factor solr s w.cluster) req w
        (λ s e. Same-trans _ s w.cluster (same s) e) (refl, refl)

  module _ (maps : GoMap ConfigMap) (kube : Kubernetes P c key set factor solr maps) where
    abbrev pub stored : P.State → SolrCollectionSet
    stored s = record set { status = kube.status s }

    -- A part of a run that leaves Solr alone and returns the stored resource.
    emit_all-Same :
        (reported : SolrCollectionSet) (events : GoMap String) (w : World P)
        → (v : World P) × (emit_all P reported events (record { world = w; solr_client = c })
            ≡ (ok tt, record { world = v; solr_client = c }))
          × Same P c key set factor solr v.cluster w.cluster
    unfolding emit_all
    emit_all-Same reported [] w = (w, refl, (refl, refl))
    emit_all-Same reported ((kind, reason) ∷ events) w =
        let u : World P = record w { cluster = P.record_event reported kind reason w.cluster } in
        let (v, e, same) = emit_all-Same reported events u in
        (
          v,
          e,
          Same-trans v.cluster u.cluster w.cluster same
              (kube.after_event reported kind reason w.cluster),
        )

    store_status-Same :
        (reported : SolrCollectionSet) (status : SolrCollectionSetStatus) (w : World P)
        → (v : World P) × (store_status P key reported status
              (record { world = w; solr_client = c })
            ≡ (ok (stored v.cluster, none), record { world = v; solr_client = c }))
          × Same P c key set factor solr v.cluster w.cluster
    unfolding store_status status_patched refetch refetched
    store_status-Same reported status w = elim (Bool-cases (P.deep_equal reported.status status)) [
      | inl equal ↦ (w, rw (equal, kube.fetched w.cluster) refl, (refl, refl))
      | inr other ↦
          let new = record reported { status = status } in
          let (patched, e) = kube.patched reported new w.cluster in
          let v : World P = record w { cluster = (P.patch_status reported new w.cluster).1 } in
          (
            v,
            rw (other, e, status_patched, kube.fetched v.cluster) refl,
            kube.after_patch reported new w.cluster,
          )
    ]

    announce-Same :
        (reported : SolrCollectionSet) (events : GoMap String) (status : SolrCollectionSetStatus)
        (w : World P)
        → (v : World P) × ((emit_all P reported events >> store_status P key reported status)
              (record { world = w; solr_client = c })
            ≡ (ok (stored v.cluster, none), record { world = v; solr_client = c }))
          × Same P c key set factor solr v.cluster w.cluster
    announce-Same reported events status w =
        let (u, told, same) = emit_all-Same reported events w in
        let (v, kept, same') = store_status-Same reported status u in
        (v, rw told kept, Same-trans v.cluster u.cluster w.cluster same' same)

    module _ (cfg : Settings) (known : settings set.spec ≡ ok cfg)
        (reports : Reports P c key set factor solr) where
      update_status-Same :
          (s : P.State) (cluster : ClusterStatus) (w : World P)
          → (v : World P) × (update_collection_set_status P key
                (stored s)
                cluster
                (record { world = w; solr_client = c })
              ≡ (ok (stored v.cluster, none), record { world = v; solr_client = c }))
            × Same P c key set factor solr v.cluster w.cluster
      unfolding update_collection_set_status populate_collection_set_status
      update_status-Same s cluster w = rw known (announce-Same (stored s) _ _ w)

      initialize-answers :
          (s : P.State) (w : World P)
          → is_zero c ≡ false
          → initialize_solr_cluster P
              (stored s)
              cfg
              (checksums_collection P c key set factor)
              (record { world = w; solr_client = c })
            ≡ (
              ok (reports.status w.cluster, false),
              record { world = after P (status_request c) w; solr_client = c },
            )
      unfolding initialize_solr_cluster ensure_client
      initialize-answers s w made =
          rw
            (
              made,
              is-pair _ (reports.answers_status w) (get_cluster_status-after P c w),
              reports.initialized w.cluster,
            )
            refl

      report_and_manage-answers :
          (s : P.State) (cluster : ClusterStatus) (w : World P)
          → (v : World P) × (report_and_manage P key
                (stored s)
                (checksums_collection P c key set factor)
                (cluster, false)
                (record { world = w; solr_client = c })
              ≡ manage P key
                  (stored v.cluster)
                  cluster
                  (checksums_collection P c key set factor)
                  (record { world = v; solr_client = c }))
            × Same P c key set factor solr v.cluster w.cluster
      unfolding report_and_manage emit_initializing after_status
      report_and_manage-answers s cluster w =
          let (v, updated, same) = update_status-Same s cluster w in (v, rw updated refl, same)

      reconcile_active-answers :
          (sep : IsSeparate P c key set factor solr) (s : P.State) (w : World P)
          → is_zero c ≡ false
          → (v : World P) × (reconcile_active P key
                (stored s)
                cfg
                (record { world = w; solr_client = c })
              ≡ manage P key
                  (stored v.cluster)
                  (reports.status w.cluster)
                  (checksums_collection P c key set factor)
                  (record { world = v; solr_client = c }))
            × Same P c key set factor solr v.cluster w.cluster
      unfolding reconcile_active
      reconcile_active-answers sep s w made =
          let u = after P (status_request c) w in
          let (v, answer, same) = report_and_manage-answers s (reports.status w.cluster) u in
          (
            v,
            rw (initialize-answers s w made) answer,
            Same-trans v.cluster u.cluster w.cluster same
                (Same-after (status_request c) w sep.query_status),
          )

      unchanged-stored :
          (s : P.State) → (with_defaults set).1 ≡ false → (with_defaults (stored s)).1 ≡ false
      unfolding with_defaults
      unchanged-stored s unchanged = unchanged

      -- A run comes to the config sets, the collections and the replicas with what Solr had when it
      -- began, and Solr still has it.
      pub reconcile-answers :
          (sep : IsSeparate P c key set factor solr) (w : World P)
          → is_zero c ≡ false
          → (with_defaults set).1 ≡ false
          → cfg.is_active ≡ true
          → (v : World P) × (reconcile P key (record { world = w; solr_client = c })
              ≡ manage P key
                  (stored v.cluster)
                  (reports.status w.cluster)
                  (checksums_collection P c key set factor)
                  (record { world = v; solr_client = c }))
            × Same P c key set factor solr v.cluster w.cluster
      unfolding reconcile_set
      reconcile-answers sep w made unchanged active =
          let s = w.cluster in
          let same = unchanged-stored s unchanged in
          let (v, answer, kept) = reconcile_active-answers sep s w made in
          (
            v,
            reconcile-found P key (record { world = w; solr_client = c }) (stored s)
                  (kube.fetched s) (kube.conditioned s)
                ∙ rw (same, with_defaults_unchanged (stored s) same, known) (simp active answer),
            kept,
          )
