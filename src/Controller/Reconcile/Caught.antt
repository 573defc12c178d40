-- ===== src/Controller/Reconcile/Caught.antt =====
-- That `Reconcile` turns every error into a requeue.
use solr_collections_operato.Base.{
  ◌≡◌, arith, refl, String, Bool, true, false, Option, none, some, [], ◌∷◌,
}
use solr_collections_operato.Base.GoMap.{GoMap}
use solr_collections_operato.Base.Outcome.{Outcome, ok, err, panic}
use solr_collections_operato.Api.{
  SolrCollectionSetStatus, SolrCollectionSet, Settings, with_defaults,
}
use solr_collections_operato.Solr.{SolrClient, ClusterStatus}
use solr_collections_operato.Platform.{
  NamespacedName, Fetched, found, not_found, unfetchable, Written, written, refused, Platform, Go,
}
use solr_collections_operato.Controller.Status.Populate.{populate_collection_set_status}
use solr_collections_operato.Controller.Reconcile.{
  Requeue, unscheduled, immediately, with_backoff, Process, Run, with_client, kubernetes, refetch,
  requeue_on_error, requeue_refetched, requeue_patched, failed_status, status_patched, store_status,
  emit_all, update_collection_set_status,
}
use solr_collections_operato.Controller.Reconcile.Loop.{
  or_requeue, guarded, emit_initializing, manage, reconcile_active, reconcile_set, after_status,
  report_and_manage, spec_updated, first_refetched, first_stored, reconcile_fetched,
  is_unconditioned, reconcile,
}
use solr_collections_operato.Controller.Reconcile.Errors.{
  is_handled, IsSafe, bind-IsSafe, then-IsSafe, if-IsSafe, pure-IsSafe, settings-is_handled,
  manage_collections-IsSafe,
}

module _ (P : Platform) where
  kubernetes-IsSafe : {A : Type 0} (f : P.State → A × P.State) → IsSafe (kubernetes P f)
  kubernetes-IsSafe f = record { outcome = λ p. refl }

  with_client-IsSafe :
      {A : Type 0} (f : SolrClient → Go P A)
      → ((c : SolrClient) → IsSafe (f c))
      → IsSafe (with_client P f)
  with_client-IsSafe f h = record { outcome = λ p. (h p.solr_client).outcome p.world }

  refetch-IsSafe : (key : NamespacedName) (set : SolrCollectionSet) → IsSafe (refetch P key set)
  unfolding refetch
  refetch-IsSafe key set = record { outcome = λ p. refl }

  requeue_patched-IsSafe :
      (key : NamespacedName) (answer : Written) → IsSafe (requeue_patched P key answer)
  unfolding requeue_patched
  requeue_patched-IsSafe key (refused _) = pure-IsSafe with_backoff
  requeue_patched-IsSafe key (written stored) =
      bind-IsSafe (refetch-IsSafe key stored) λ r. pure-IsSafe (requeue_refetched P r)

  requeue_on_error-IsSafe :
      (key : NamespacedName) (set : SolrCollectionSet) (message : String)
      → IsSafe (requeue_on_error P key set message)
  unfolding requeue_on_error
  requeue_on_error-IsSafe key set message =
      if-IsSafe (P.deep_equal set.status (failed_status P set message)) (pure-IsSafe unscheduled)
        (bind-IsSafe (kubernetes-IsSafe _) (requeue_patched-IsSafe key))

  module _ {A : Type 0} (key : NamespacedName) (set : SolrCollectionSet) (f : A → Run P Requeue)
      (safe : (a : A) → IsSafe (f a)) where
    or_requeue-is_handled :
        (r : Outcome A × Process P) → is_handled (or_requeue P key set f r).0 ≡ true
    or_requeue-is_handled (ok a, p) = (safe a).outcome p
    or_requeue-is_handled (err e, p) = (requeue_on_error-IsSafe key set e).outcome p
    or_requeue-is_handled (panic, p) = refl

    guarded-IsSafe : (m : Run P A) → IsSafe (guarded P key set m f)
    guarded-IsSafe m = record { outcome = λ p. or_requeue-is_handled (m p) }

  emit_all-IsSafe :
      (set : SolrCollectionSet) (events : GoMap String) → IsSafe (emit_all P set events)
  unfolding emit_all
  emit_all-IsSafe set [] = pure-IsSafe tt
  emit_all-IsSafe set ((kind, reason) ∷ events) =
      then-IsSafe (kubernetes-IsSafe _) (emit_all-IsSafe set events)

  status_patched-IsSafe :
      (key : NamespacedName) (set : SolrCollectionSet) (answer : Written)
      → IsSafe (status_patched P key set answer)
  unfolding status_patched
  status_patched-IsSafe key set (refused e) = pure-IsSafe (set, some e)
  status_patched-IsSafe key set (written stored) = refetch-IsSafe key stored

  store_status-IsSafe :
      (key : NamespacedName) (set : SolrCollectionSet) (status : SolrCollectionSetStatus)
      → IsSafe (store_status P key set status)
  unfolding store_status
  store_status-IsSafe key set status =
      if-IsSafe (P.deep_equal set.status status) (refetch-IsSafe key set) (
        bind-IsSafe (kubernetes-IsSafe _)
          (status_patched-IsSafe key (record set { status = status })))

  populate-is_handled :
      (status : SolrCollectionSetStatus) (set : SolrCollectionSet) (cluster : ClusterStatus)
      → is_handled (populate_collection_set_status P status set cluster) ≡ true
  unfolding populate_collection_set_status
  populate-is_handled status set cluster = ground (arith, settings-is_handled set.spec)

  update_collection_set_status-IsSafe :
      (key : NamespacedName) (set : SolrCollectionSet) (cluster : ClusterStatus)
      → IsSafe (update_collection_set_status P key set cluster)
  unfolding update_collection_set_status
  update_collection_set_status-IsSafe key set cluster =
      bind-IsSafe (record { outcome = λ p. populate-is_handled _ set cluster })
        λ (status, events). then-IsSafe (emit_all-IsSafe set _) (store_status-IsSafe key set _)

  emit_initializing-IsSafe :
      (set : SolrCollectionSet) (is_initializing : Bool)
      → IsSafe (emit_initializing P set is_initializing)
  unfolding emit_initializing
  emit_initializing-IsSafe set false = pure-IsSafe tt
  emit_initializing-IsSafe set true = kubernetes-IsSafe _

  module _ (key : NamespacedName) where
    manage-IsSafe :
        (set : SolrCollectionSet) (cluster : ClusterStatus) (checksums : String)
        → IsSafe (manage P key set cluster checksums)
    unfolding manage
    manage-IsSafe set cluster checksums =
        guarded-IsSafe key set _
          (λ _.
            bind-IsSafe
              (with_client-IsSafe _
                (λ c. manage_collections-IsSafe P c set cluster.collections cluster.aliases))
              (λ changed. if-IsSafe changed (pure-IsSafe immediately) (
                guarded-IsSafe key set _
                  (λ is_scaling.
                    if-IsSafe is_scaling (pure-IsSafe with_backoff) (pure-IsSafe unscheduled))
                  _)))
          _

    after_status-IsSafe :
        (cluster : ClusterStatus) (checksums : String) (r : SolrCollectionSet × Option String)
        → IsSafe (after_status P key cluster checksums r)
    unfolding after_status
    after_status-IsSafe cluster checksums (set, some e) = requeue_on_error-IsSafe key set e
    after_status-IsSafe cluster checksums (set, none) = manage-IsSafe set cluster checksums

    report_and_manage-IsSafe :
        (set : SolrCollectionSet) (checksums : String) (r : ClusterStatus × Bool)
        → IsSafe (report_and_manage P key set checksums r)
    unfolding report_and_manage
    report_and_manage-IsSafe set checksums (cluster, is_initializing) =
        then-IsSafe (emit_initializing-IsSafe set is_initializing) (
          bind-IsSafe (update_collection_set_status-IsSafe key set cluster)
            (after_status-IsSafe cluster checksums))

    reconcile_active-IsSafe :
        (set : SolrCollectionSet) (cfg : Settings) → IsSafe (reconcile_active P key set cfg)
    unfolding reconcile_active
    reconcile_active-IsSafe set cfg = guarded-IsSafe key set _ (report_and_manage-IsSafe set _) _

    spec_updated-IsSafe :
        (set : SolrCollectionSet) (answer : Written) → IsSafe (spec_updated P key set answer)
    unfolding spec_updated
    spec_updated-IsSafe set (refused e) = requeue_on_error-IsSafe key set e
    spec_updated-IsSafe set (written _) = pure-IsSafe immediately

    reconcile_set-IsSafe : (set : SolrCollectionSet) → IsSafe (reconcile_set P key set)
    unfolding reconcile_set
    reconcile_set-IsSafe set =
        if-IsSafe (with_defaults set).1
          (bind-IsSafe (kubernetes-IsSafe _) (spec_updated-IsSafe (with_defaults set).0))
          (bind-IsSafe (record { outcome = λ p. settings-is_handled (with_defaults set).0.spec })
            (λ cfg.
              if-IsSafe cfg.is_active (reconcile_active-IsSafe (with_defaults set).0 cfg)
                (pure-IsSafe unscheduled)))

    first_refetched-IsSafe :
        (r : SolrCollectionSet × Option String) → IsSafe (first_refetched P key r)
    unfolding first_refetched
    first_refetched-IsSafe (set, some e) = requeue_on_error-IsSafe key set e
    first_refetched-IsSafe (set, none) = reconcile_set-IsSafe set

    first_stored-IsSafe : (answer : Written) → IsSafe (first_stored P key answer)
    unfolding first_stored
    first_stored-IsSafe (refused _) = pure-IsSafe unscheduled
    first_stored-IsSafe (written stored) =
        bind-IsSafe (refetch-IsSafe key stored) first_refetched-IsSafe

    reconcile_fetched-IsSafe : (answer : Fetched) → IsSafe (reconcile_fetched P key answer)
    unfolding reconcile_fetched
    reconcile_fetched-IsSafe (not_found _) = pure-IsSafe unscheduled
    reconcile_fetched-IsSafe (unfetchable _) = pure-IsSafe unscheduled
    reconcile_fetched-IsSafe (found set) =
        if-IsSafe (is_unconditioned P set) (bind-IsSafe (kubernetes-IsSafe _) first_stored-IsSafe)
          (reconcile_set-IsSafe set)

    -- Reconcile never returns an error: it ends with a requeue, or panics.
    pub reconcile-is_handled : (p : Process P) → is_handled (reconcile P key p).0 ≡ true
    unfolding reconcile
    reconcile-is_handled p = (reconcile_fetched-IsSafe (P.fetch key p.world.cluster)).outcome p
