-- ===== src/Controller/Reconcile/Settled.antt =====
-- That `Reconcile` only reads where everything is as the resource asks.
use solr_collections_operato.Base.{◌≡◌, refl, ◌∙◌, String, true, false, none, []}
use solr_collections_operato.Base.GoMap.{IsFair, has_key}
use solr_collections_operato.Base.Outcome.{ok}
use solr_collections_operato.Api.{
  SolrCollectionSet, SolrCollectionSetStatus, Settings, settings, with_defaults,
}
use solr_collections_operato.Solr.{SolrClient, ClusterStatus}
use solr_collections_operato.Platform.{found, NamespacedName, Platform, World, emit_events}
use solr_collections_operato.Base.Exec.{is-pair}
use solr_collections_operato.Solr.Client.Delivery.{IsCivil, after}
use solr_collections_operato.Solr.Client.ClusterReport.{status_request}
use solr_collections_operato.Solr.Client.WellFormed.{IsWellFormed, get_cluster_status-IsWellFormed}
use solr_collections_operato.Solr.Client.Queried.{config_sets_request, get_cluster_status-after}
use solr_collections_operato.Solr.Client.Queries.{get_cluster_status, query_request}
use solr_collections_operato.Controller.Names.{checksums_collection_name}
use solr_collections_operato.Controller.Collections.Aligned.{
  IsAligned, manage_collections_idle, visit-nil,
}
use solr_collections_operato.Controller.ConfigSets.{manage_config_sets}
use solr_collections_operato.Controller.ConfigSets.Queued.{
  AreCurrent, map_config_maps-NodupKeys, process_config_sets_idle,
}
use solr_collections_operato.Controller.ConfigSets.Queried.{ConfigQueries, manage_config_sets-reads}
use solr_collections_operato.Controller.Replicas.Idle.{AreFull, adjust_replicas_idle}
use solr_collections_operato.Controller.Status.Populate.{populate_collection_set_status}
use solr_collections_operato.Controller.Reconcile.{
  update_collection_set_status, emit_all, store_status, refetch, refetched, is_zero, ensure_client,
  unscheduled, zero_status,
}
use solr_collections_operato.Api.Defaults.{with_defaults_unchanged}
use solr_collections_operato.Controller.Reconcile.Handled.{reconcile-found}
use solr_collections_operato.Controller.Reconcile.Loop.{
  emit_initializing, initialize_solr_cluster, manage, after_status, report_and_manage,
  reconcile_active, reconcile_set, reconcile, is_unconditioned,
}

module _ (P : Platform) (c : SolrClient) (set : SolrCollectionSet) (w : World P) where
  -- The worlds after the first, the first two and all of the queries of a run.
  abbrev pub w1 : World P
  w1 = after P (status_request c) w

  abbrev pub w2 : World P
  w2 = after P (config_sets_request c) w1

  abbrev pub w3 : World P
  w3 = after P (query_request P c (checksums_collection_name set.name) "*:*") w2

  -- What the queries of a run return.
  pub record Queries : Type 0 where
    pub cluster : ClusterStatus
    pub status : (get_cluster_status P c w).0 ≡ ok cluster
    pub config : ConfigQueries P c set (checksums_collection_name set.name) w1

module _ (P : Platform) (fair : IsFair P.order) (civil : IsCivil P) (c : SolrClient)
    (set : SolrCollectionSet) (cfg : Settings) (w : World P) (q : Queries P c set w)
    (known : settings set.spec ≡ ok cfg) where
  -- The config sets, the collections and their replicas are as the resource asks.
  pub record IsSettled : Type 0 where
    pub current : AreCurrent P fair cfg.is_cleanup q.config.names q.config.maps q.config.checksums
    pub aligned : IsAligned cfg set.spec.collections q.cluster.collections
    pub full :
        AreFull cfg set.spec.collections (checksums_collection_name set.name) q.cluster.collections
    pub initialized : has_key (checksums_collection_name set.name) q.cluster.collections ≡ true

  well_formed : IsWellFormed P q.cluster
  well_formed = get_cluster_status-IsWellFormed P c w q.cluster q.status

  module _ (settled : IsSettled) where
    manage_config_sets_idle :
        manage_config_sets P c set (checksums_collection_name set.name) (w1 P c set w)
        ≡ (ok tt, (w3 P c set w))
    manage_config_sets_idle =
        manage_config_sets-reads P c set (checksums_collection_name set.name) (w1 P c set w) cfg
          q.config known
        ∙ process_config_sets_idle P fair cfg.is_cleanup q.config.names q.config.maps
            q.config.checksums
            (map_config_maps-NodupKeys q.config.items q.config.maps q.config.mapped) settled.current
            c (checksums_collection_name set.name) (w3 P c set w)

    manage_settled :
        (key : NamespacedName)
        → manage P key set q.cluster
            (checksums_collection_name set.name)
            (record { world = w1 P c set w; solr_client = c })
          ≡ (ok unscheduled, record { world = w3 P c set w; solr_client = c })
    unfolding manage
    manage_settled key =
        rw
          (
            manage_config_sets_idle,
            manage_collections_idle P fair civil c set cfg q.cluster.collections q.cluster.aliases
                (w3 P c set w) well_formed.0 known settled.aligned,
            adjust_replicas_idle P fair cfg set q.cluster.collections
                (checksums_collection_name set.name) well_formed.1 settled.full c (w3 P c set w)
                known,
          )
          refl

    initialize_settled :
        is_zero c ≡ false
        → initialize_solr_cluster P set cfg
            (checksums_collection_name set.name)
            (record { world = w; solr_client = c })
          ≡ (ok (q.cluster, false), record { world = w1 P c set w; solr_client = c })
    unfolding initialize_solr_cluster ensure_client
    initialize_settled made =
        rw (made, is-pair _ q.status (get_cluster_status-after P c w), settled.initialized) refl

    -- The status says so already, there is nothing to tell, and the resource is as it was.
    pub record IsReported (key : NamespacedName) : Type 0 where
      pub status : SolrCollectionSetStatus
      pub populated : populate_collection_set_status P zero_status set q.cluster ≡ ok (status, [])
      pub same :
          P.deep_equal set.status
            (record status { solr_collections = P.sort_by_instance status.solr_collections })
          ≡ true
      pub refetched : P.fetch key (w1 P c set w).cluster ≡ found set

    status_settled :
        (key : NamespacedName)
        → IsReported key
        → update_collection_set_status P key set q.cluster
            (record { world = w1 P c set w; solr_client = c })
          ≡ (ok (set, none), record { world = w1 P c set w; solr_client = c })
    unfolding update_collection_set_status emit_all store_status refetch refetched
    status_settled key reported =
        rw
          (
            reported.populated,
            visit-nil P fair emit_events String,
            reported.same,
            reported.refetched,
          )
          refl

    report_settled :
        (key : NamespacedName)
        → IsReported key
        → report_and_manage P key set
            (checksums_collection_name set.name)
            (q.cluster, false)
            (record { world = w1 P c set w; solr_client = c })
          ≡ (ok unscheduled, record { world = w3 P c set w; solr_client = c })
    unfolding report_and_manage emit_initializing after_status
    report_settled key reported = rw (status_settled key reported) (manage_settled key)

    reconcile_active_settled :
        (key : NamespacedName)
        → IsReported key
        → is_zero c ≡ false
        → reconcile_active P key set cfg (record { world = w; solr_client = c })
          ≡ (ok unscheduled, record { world = w3 P c set w; solr_client = c })
    unfolding reconcile_active
    reconcile_active_settled key reported made =
        rw (initialize_settled made) (report_settled key reported)

    reconcile_set_settled :
        (key : NamespacedName)
        → IsReported key
        → is_zero c ≡ false
        → (with_defaults set).1 ≡ false
        → cfg.is_active ≡ true
        → reconcile_set P key set (record { world = w; solr_client = c })
          ≡ (ok unscheduled, record { world = w3 P c set w; solr_client = c })
    unfolding reconcile_set
    reconcile_set_settled key reported made unchanged active =
        rw (unchanged, with_defaults_unchanged set unchanged, known)
          (simp active (reconcile_active_settled key reported made))

    -- On a platform whose loops are fair and whose errors can be read: where the resource is
    -- stored with its defaults and a condition, and is active, the Solr client is made, the
    -- answers to the queries of a run can be read, the collection for the checksums is there, the
    -- collections, the config sets and the replica counts are as the resource and the config maps
    -- ask, and the status that is found has no event and is the one that is stored: Reconcile
    -- sends the three queries for the cluster status, the config sets and the checksums, does
    -- nothing else, and asks for no other run.
    pub reconcile_settled :
        (key : NamespacedName)
        → IsReported key
        → is_zero c ≡ false
        → P.fetch key w.cluster ≡ found set
        → is_unconditioned P set ≡ false
        → (with_defaults set).1 ≡ false
        → cfg.is_active ≡ true
        → reconcile P key (record { world = w; solr_client = c })
          ≡ (ok unscheduled, record { world = w3 P c set w; solr_client = c })
    reconcile_settled key reported made fetched conditioned unchanged active =
        reconcile-found P key _ set fetched conditioned
        ∙ reconcile_set_settled key reported made unchanged active
