-- ===== src/Controller/ConfigSets/Queried.antt =====
-- What `ManageConfigSets` reads before it changes something.
use solr_collections_operato.Base.{some, arith, ◌≡◌, refl, String, List, [], ◌∷◌, ◌++◌}
use solr_collections_operato.Base.GoMap.{GoMap}
use solr_collections_operato.Base.Outcome.{ok}
use solr_collections_operato.Base.Exec.{is-pair}
use solr_collections_operato.Api.{SolrCollectionSet, Settings, settings}
use solr_collections_operato.Solr.{SolrClient}
use solr_collections_operato.Solr.Json.{Json}
use solr_collections_operato.Platform.{
  ConfigMap, Request, listed, Platform, World, config_uploads, config_removes,
}
use solr_collections_operato.Solr.Client.Delivery.{after}
use solr_collections_operato.Solr.Client.Queried.{
  config_sets_request, get_config_sets-after, query-after,
}
use solr_collections_operato.Solr.Client.Queries.{get_config_sets, query, query_request}
use solr_collections_operato.Controller.ConfigSets.{
  ConfigPlan, list_config_maps, map_config_maps, read_checksums, plan_config_sets,
  process_config_sets, manage_config_sets,
}
use solr_collections_operato.Controller.ConfigSets.Run.{upload_requests, remove_requests}

module _ (P : Platform) (c : SolrClient) (set : SolrCollectionSet) (checksums_collection : String)
    (w : World P) where
  -- The world after the first and after both queries of `ManageConfigSets`.
  abbrev pub listed_sets : World P
  listed_sets = after P (config_sets_request c) w

  abbrev pub queried : World P
  queried = after P (query_request P c checksums_collection "*:*") listed_sets

  -- What `ManageConfigSets` reads.
  pub record ConfigQueries : Type 0 where
    pub names : List String
    pub config_sets : (get_config_sets P c w).0 ≡ ok names
    pub items : List ConfigMap
    pub config_maps : P.list_config_maps set.namespace set.name listed_sets.cluster ≡ listed items
    pub maps : GoMap ConfigMap
    pub mapped : map_config_maps items [] ≡ ok maps
    pub records : List (GoMap Json)
    pub answered : (query P c checksums_collection "*:*" listed_sets).0 ≡ ok records
    pub checksums : GoMap String
    pub checked : read_checksums records [] ≡ ok checksums

  module _ (cfg : Settings) (q : ConfigQueries) where
    abbrev pub plan : ConfigPlan
    plan = plan_config_sets P cfg.is_cleanup q.names q.maps q.checksums

    -- The requests of `ManageConfigSets`: the two queries, the uploads, the removals.
    abbrev pub config_requests : List Request
    config_requests =
        config_sets_request c
        ∷ query_request P c checksums_collection "*:*"
        ∷ (upload_requests P c checksums_collection
              (P.order.visit config_uploads ConfigMap plan.uploads)
            ++ remove_requests P c checksums_collection
                (P.order.visit config_removes String plan.removes))

    list_config_maps-items : list_config_maps P set listed_sets ≡ (ok q.items, listed_sets)
    unfolding list_config_maps
    list_config_maps-items = rw (q.config_maps, list_config_maps) refl

    settings-cleanup : settings set.spec ≡ ok cfg → set.spec.cleanup_enabled ≡ some cfg.is_cleanup
    unfolding settings
    settings-cleanup known = ground (arith, known)

    pub manage_config_sets-reads :
        settings set.spec ≡ ok cfg
        → manage_config_sets P c set checksums_collection w
          ≡ process_config_sets P c checksums_collection plan queried
    unfolding manage_config_sets
    manage_config_sets-reads known =
        rw
          (
            is-pair _ q.config_sets (get_config_sets-after P c w),
            list_config_maps-items,
            q.mapped,
            is-pair _ q.answered (query-after P c listed_sets checksums_collection "*:*"),
            q.checked,
            settings-cleanup known,
          )
          refl
