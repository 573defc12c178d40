-- ===== src/Controller/Reconcile/Provided.antt =====
-- The config sets in a run of `Reconcile`, on a cluster on which only the operator changes something.
use solr_collections_operato.Base.{
  ℕ, ◌≡◌, ◌⊎◌, inl, inr, refl, sym, ap, ◌∙◌, String, Bool, List, [], ◌∷◌, All,
}
use solr_collections_operato.Base.GoMap.{GoMap, IsFair, lookup}
use solr_collections_operato.Base.Outcome.{ok}
use solr_collections_operato.Base.Exec.{is-pair}
use solr_collections_operato.Api.{SolrCollectionSet, Settings, settings}
use solr_collections_operato.Solr.{SolrClient}
use solr_collections_operato.Solr.Cluster.{Contents}
use solr_collections_operato.Solr.ConfigStore.{Sets}
use solr_collections_operato.Platform.{
  ConfigMap, NamespacedName, Platform, World, config_uploads, config_removes,
}
use solr_collections_operato.Solr.Client.Queries.{query_request}
use solr_collections_operato.Solr.Client.Queried.{config_sets_request}
use solr_collections_operato.Solr.Client.Preserved.{Preserves, preserved-after_all, All-append}
use solr_collections_operato.Controller.Names.{contains}
use solr_collections_operato.Controller.ConfigSets.{
  ConfigPlan, plan_config_sets, process_config_sets, manage_config_sets,
}
use solr_collections_operato.Controller.ConfigSets.Queued.{
  AreCurrent, map_config_maps-NodupKeys, process_config_sets_idle,
}
use solr_collections_operato.Controller.ConfigSets.Run.{
  upload_requests, remove_requests, process_config_sets-Completes,
}
use solr_collections_operato.Controller.ConfigSets.Converged.{
  IsReady, IsReading, process_config_sets-converges,
}
use solr_collections_operato.Controller.ConfigSets.Queried.{
  ConfigQueries, listed_sets, queried, manage_config_sets-reads,
}
use solr_collections_operato.Controller.Reconcile.Deployment.{
  SolrSystem, IsSeparate, Reports, Kubernetes, Same, checksums_collection,
}
use solr_collections_operato.Controller.Reconcile.Announced.{stored, Same-trans, Same-after}

AreCurrent-same :
    (P : Platform) (fair : IsFair P.order) (is_cleanup : Bool) (names names' : List String)
    (maps : GoMap ConfigMap) (sums sums' : GoMap String)
    → ((n : String) → contains names' n ≡ contains names n)
    → ((n : String) → lookup n sums' ≡ lookup n sums)
    → AreCurrent P fair is_cleanup names maps sums
    → AreCurrent P fair is_cleanup names' maps sums'
AreCurrent-same P fair is_cleanup names names' maps sums sums' same same' current = record {
  uploaded = λ n cm e. rw (same n, same' n) (current.uploaded n cm e);
  removed = λ cleanup n h. current.removed cleanup n (rw (same n) at h);
}

module _ (P : Platform) (fair : IsFair P.order) (c : SolrClient) (key : NamespacedName)
    (set : SolrCollectionSet) (factor : ℕ) (solr : SolrSystem P c key set factor)
    (sep : IsSeparate P c key set factor solr) (reports : Reports P c key set factor solr)
    (maps : GoMap ConfigMap) (kube : Kubernetes P c key set factor solr maps) (cfg : Settings)
    (known : settings set.spec ≡ ok cfg) where
  abbrev sums : String
  sums = checksums_collection P c key set factor

  -- Solr's config sets and checksums are as the config maps ask.
  abbrev pub CurrentAt : P.State → Type 0
  CurrentAt s = AreCurrent P fair cfg.is_cleanup (reports.names s) maps (reports.checksums s)

  pub CurrentAt-same :
      (s t : P.State)
      → ((n : String) → (solr.store.sets t).has_set n ≡ (solr.store.sets s).has_set n)
      → ((n : String) → (solr.store.sets t).checksum n ≡ (solr.store.sets s).checksum n)
      → CurrentAt s
      → CurrentAt t
  CurrentAt-same s t has checksum =
      AreCurrent-same P fair cfg.is_cleanup (reports.names s) (reports.names t) maps
        (reports.checksums s) (reports.checksums t)
        (λ n. reports.reads_sets t n ∙ has n ∙ sym (reports.reads_sets s n))
        (λ n. reports.reads_checksums t n ∙ checksum n ∙ sym (reports.reads_checksums s n))

  module _ (w : World P) where
    abbrev resource : SolrCollectionSet
    resource = stored P c key set factor solr maps kube w.cluster

    abbrev v : World P
    v = listed_sets P c resource sums w

    abbrev u : World P
    u = queried P c resource sums w

    Same-listed : Same P c key set factor solr v.cluster w.cluster
    Same-listed = Same-after P c key set factor solr (config_sets_request c) w sep.query_sets

    Same-queried : Same P c key set factor solr u.cluster w.cluster
    Same-queried =
        Same-trans P c key set factor solr u.cluster v.cluster w.cluster
          (Same-after P c key set factor solr (query_request P c sums "*:*") v sep.query_checksums)
          Same-listed

    abbrev queries : ConfigQueries P c resource sums w
    queries = record {
      names = reports.names w.cluster;
      config_sets = reports.answers_sets w;
      items = kube.items;
      config_maps = kube.config_maps v.cluster;
      maps = maps;
      mapped = kube.mapped;
      records = reports.records v.cluster;
      answered = reports.answers_query v;
      checksums = reports.checksums v.cluster;
      checked = reports.checked v.cluster;
    }

    -- The plan that a run makes.
    abbrev plan : ConfigPlan
    plan =
        plan_config_sets P cfg.is_cleanup (reports.names w.cluster) maps
          (reports.checksums v.cluster)

    module _ (contents : Contents) where
      abbrev HasContents : P.State → Type 0
      HasContents s = solr.cluster.contents s ≡ contents

      upload_requests-HasContents :
          (m : GoMap ConfigMap) → All (Preserves P HasContents) (upload_requests P c sums m)
      upload_requests-HasContents [] = tt
      upload_requests-HasContents ((n, cm) ∷ m) = (
        λ s h. sep.upload n _ s ∙ h,
        (λ s h. sep.write sums _ s ∙ h, upload_requests-HasContents m),
      )

      remove_requests-HasContents :
          (m : GoMap String) → All (Preserves P HasContents) (remove_requests P c sums m)
      remove_requests-HasContents [] = tt
      remove_requests-HasContents ((n, _) ∷ m) =
          (λ s h. sep.delete_set n s ∙ h, remove_requests-HasContents m)

    process-contents :
        solr.cluster.contents (process_config_sets P c sums plan u).1.cluster
        ≡ solr.cluster.contents u.cluster
    process-contents =
        let contents = solr.cluster.contents u.cluster in
        let uploads = P.order.visit config_uploads ConfigMap plan.uploads in
        let removes = P.order.visit config_removes String plan.removes in
        let (done, left, all, made, whole) = process_config_sets-Completes P c sums plan u in
        rw made (
          preserved-after_all P (HasContents contents) done left _ u all
            (All-append (Preserves P (HasContents contents)) (upload_requests P c sums uploads)
              (remove_requests P c sums removes) (upload_requests-HasContents contents uploads)
              (remove_requests-HasContents contents removes))
            refl)

    -- What a run needs: the config sets are as they should be, or it can make them so.
    abbrev pub CanProvide : Type 0
    CanProvide =
        CurrentAt w.cluster
        ⊎ IsReady P c sums solr.store cfg.is_cleanup maps (reports.names w.cluster) w

    checksums-listed :
        (n : String)
        → lookup n (reports.checksums v.cluster) ≡ lookup n (reports.checksums w.cluster)
    checksums-listed n =
        reports.reads_checksums v.cluster n
        ∙ ap (λ (x : Sets). x.checksum n) Same-listed.1
        ∙ sym (reports.reads_checksums w.cluster n)

    plan-IsReading :
        IsReading P c sums solr.store (reports.names w.cluster) (reports.checksums v.cluster) u
    plan-IsReading = record {
      sets =
          λ n. reports.reads_sets w.cluster n ∙ ap (λ (x : Sets). x.has_set n) (sym Same-queried.1);
      sums = λ n.
          checksums-listed n
          ∙ reports.reads_checksums w.cluster n
          ∙ ap (λ (x : Sets). x.checksum n) (sym Same-queried.1);
    }

    queried-IsReady :
        IsReady P c sums solr.store cfg.is_cleanup maps (reports.names w.cluster) w
        → IsReady P c sums solr.store cfg.is_cleanup maps (reports.names w.cluster) u
    queried-IsReady ready = record {
      uploadable = ready.uploadable;
      removable = λ cleanup n there surplus.
          let (named, free) = ready.removable cleanup n there surplus in
          (named, ap (λ (x : Sets). x.is_unused n) Same-queried.1 ∙ free);
    }

    process-CurrentAt :
        CanProvide
        → ((process_config_sets P c sums plan u).0 ≡ ok tt)
          × CurrentAt (process_config_sets P c sums plan u).1.cluster
    process-CurrentAt (inl current) =
        let known_maps = map_config_maps-NodupKeys kube.items maps kube.mapped in
        let listed =
          AreCurrent-same P fair cfg.is_cleanup (reports.names w.cluster) (reports.names w.cluster)
            maps (reports.checksums w.cluster) (reports.checksums v.cluster) (λ n. refl)
            checksums-listed current in
        let idle =
          process_config_sets_idle P fair cfg.is_cleanup (reports.names w.cluster) maps
            (reports.checksums v.cluster) known_maps listed c sums u in
        rw idle (
          refl,
          CurrentAt-same w.cluster u.cluster (λ n. ap (λ (x : Sets). x.has_set n) Same-queried.1)
              (λ n. ap (λ (x : Sets). x.checksum n) Same-queried.1) current,
        )
    process-CurrentAt (inr ready) =
        let end = (process_config_sets P c sums plan u).1.cluster in
        let (ends, current, idle) =
          process_config_sets-converges P fair c sums solr.store cfg.is_cleanup maps
            (map_config_maps-NodupKeys kube.items maps kube.mapped) (reports.names w.cluster)
            (reports.checksums v.cluster) u plan-IsReading (queried-IsReady ready)
            (reports.names end) (reports.checksums end)
            (record { sets = reports.reads_sets end; sums = reports.reads_checksums end }) in
        (ends, current)

    -- The config sets are managed without an error; then they are as the config maps ask, and the
    -- collections and aliases are as before.
    pub manage_config_sets-answers :
        CanProvide
        → (r : World P) × (manage_config_sets P c resource sums w ≡ (ok tt, r))
          × CurrentAt r.cluster
          × (solr.cluster.contents r.cluster ≡ solr.cluster.contents w.cluster)
    manage_config_sets-answers can =
        let (ends, current) = process-CurrentAt can in
        (
          (process_config_sets P c sums plan u).1,
          manage_config_sets-reads P c resource sums w cfg queries known
              ∙ is-pair (process_config_sets P c sums plan u) ends refl,
          current,
          process-contents ∙ Same-queried.0,
        )
