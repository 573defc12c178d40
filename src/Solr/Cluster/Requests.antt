-- ===== src/Solr/Cluster/Requests.antt =====
-- What a cluster has after the requests of a client, one after the other.
use mathlib.Core.Option.{map as map_option}
use solr_collections_operato.Base.{
  Bool, ◌≡◌, ◌≢◌, ◌⊎◌, String, true, Option, true, none, some, ◌==◌, if◌then◌else◌,
}
use solr_collections_operato.Base.Int.{ℤ, pos, ltb_ℤ}
use solr_collections_operato.Solr.{SolrClient, Collection}
use solr_collections_operato.Platform.{Request, Platform, World}
use solr_collections_operato.Solr.Client.Commands.{
  create_collection_request, assign_alias_request, delete_alias_request, delete_collection_request,
  set_replication_factor_request,
}
use solr_collections_operato.Solr.Client.Delivery.{after}
use solr_collections_operato.Solr.Cluster.{IsAccepted, SolrCluster}

module _ (P : Platform) (c : SolrClient) (factor : ℤ) (solr : SolrCluster P c factor) where
  abbrev pub collection_of : World P → String → Option Collection
  collection_of w = (solr.contents w.cluster).collection

  abbrev pub alias_of : World P → String → Option String
  alias_of w = (solr.contents w.cluster).alias

  abbrev pub has_config_of : World P → String → Bool
  has_config_of w = solr.has_config w.cluster

  cluster-after :
      (req : Request) (w : World P)
      → IsAccepted P req
      → (after P req w).cluster ≡ (P.do_request req w.cluster).1
  unfolding after
  cluster-after req w accepted = rw (accepted, after)

  -- The effect of one request, as what the cluster has in the worlds before and after it.
  module _ (w : World P) where
    pub after-create :
        (name config : String)
        → solr.is_name name ≡ true
        → solr.is_name config ≡ true
        → has_config_of w config ≡ true
        → collection_of w name ≡ none
        → alias_of w name ≡ none
        → ltb_ℤ (pos 0) factor ≡ true
        → (n : String)
        → collection_of (after P (create_collection_request c name config factor) w) n
          ≡ (if n == name then some (solr.fresh name config) else collection_of w n)
    after-create name config named with_config stored absent unaliased positive n =
        rw
          (cluster-after (create_collection_request c name config factor) w
            (solr.accepts_create name config named with_config))
          (solr.create-collection name config w.cluster named with_config stored absent unaliased
            positive n)

    pub alias-create :
        (name config : String)
        → solr.is_name name ≡ true
        → solr.is_name config ≡ true
        → (n : String)
        → alias_of (after P (create_collection_request c name config factor) w) n ≡ alias_of w n
    alias-create name config named with_config n =
        rw
          (cluster-after (create_collection_request c name config factor) w
            (solr.accepts_create name config named with_config))
          (solr.create-alias name config w.cluster named with_config n)

    pub config-create :
        (name config : String)
        → solr.is_name name ≡ true
        → solr.is_name config ≡ true
        → (n : String) → has_config_of w n ≡ true
        → has_config_of (after P (create_collection_request c name config factor) w) n ≡ true
    config-create name config named with_config n there =
        rw
          (cluster-after (create_collection_request c name config factor) w
            (solr.accepts_create name config named with_config))
          (solr.create-config name config w.cluster named with_config n there)

    pub config-assign :
        (name target : String)
        → solr.is_name name ≡ true
        → solr.is_name target ≡ true
        → (n : String) → has_config_of w n ≡ true
        → has_config_of (after P (assign_alias_request c name target) w) n ≡ true
    config-assign name target named to_name n there =
        rw
          (cluster-after (assign_alias_request c name target) w
            (solr.accepts_assign name target named to_name))
          (solr.assign-config name target w.cluster named to_name n there)

    pub after-assign :
        (name target : String)
        → solr.is_name name ≡ true
        → solr.is_name target ≡ true
        → (n : String)
        → collection_of (after P (assign_alias_request c name target) w) n ≡ collection_of w n
    after-assign name target named to_name n =
        rw
          (cluster-after (assign_alias_request c name target) w
            (solr.accepts_assign name target named to_name))
          (solr.assign-collection name target w.cluster named to_name n)

    pub alias-assign :
        (name target : String)
        → solr.is_name name ≡ true
        → solr.is_name target ≡ true
        → (n t : String) → alias_of (after P (assign_alias_request c name target) w) n ≡ some t
        → (alias_of w n ≡ some t) ⊎ ((n ≡ name) × (t ≡ target))
    alias-assign name target named to_name n t e =
        solr.assign-alias name target w.cluster named to_name n t (
          rw
            (cluster-after (assign_alias_request c name target) w
              (solr.accepts_assign name target named to_name))
            at e)

    pub after-delete_alias :
        (name : String)
        → solr.is_name name ≡ true
        → (n : String)
        → collection_of (after P (delete_alias_request c name) w) n ≡ collection_of w n
    after-delete_alias name named n =
        rw (cluster-after (delete_alias_request c name) w (solr.accepts_delete_alias name named))
          (solr.delete_alias-collection name w.cluster named n)

    pub alias-delete_alias :
        (name : String)
        → solr.is_name name ≡ true
        → (n t : String) → alias_of (after P (delete_alias_request c name) w) n ≡ some t
        → alias_of w n ≡ some t
    alias-delete_alias name named n t e = solr.delete_alias-alias name w.cluster named n t (
        rw (cluster-after (delete_alias_request c name) w (solr.accepts_delete_alias name named)) at
          e)

    pub after-delete :
        (name : String)
        → solr.is_name name ≡ true
        → ((a : String) → alias_of w a ≢ some name)
        → (n : String)
        → collection_of (after P (delete_collection_request c name) w) n
          ≡ (if n == name then none else collection_of w n)
    after-delete name named untargeted n =
        rw (cluster-after (delete_collection_request c name) w (solr.accepts_delete name named))
          (solr.delete-collection name w.cluster named untargeted n)

    pub alias-delete :
        (name : String)
        → solr.is_name name ≡ true
        → (n : String) → alias_of (after P (delete_collection_request c name) w) n ≡ alias_of w n
    alias-delete name named n =
        rw (cluster-after (delete_collection_request c name) w (solr.accepts_delete name named))
          (solr.delete-alias name w.cluster named n)

    pub after-modify :
        (name : String)
        → solr.is_name name ≡ true
        → ltb_ℤ (pos 0) factor ≡ true
        → (n : String)
        → collection_of (after P (set_replication_factor_request c name factor) w) n ≡ (
            if n == name
            then map_option
                (λ (x : Collection). record x { replication_factor = factor })
                (collection_of w n)
            else collection_of w n)
    after-modify name named positive n =
        rw
          (cluster-after (set_replication_factor_request c name factor) w
            (solr.accepts_modify name named))
          (solr.modify-collection name w.cluster named positive n)
