-- ===== src/Controller/Reconcile/Deployment.antt =====
-- A cluster on which only the operator changes something: the resource and the config maps stay as they
-- are, Solr does what its interfaces promise and reports what it has, and there are nodes enough.
use solr_collections_operato.Solr.Client.Delivery.{IsCivil}
use solr_collections_operato.Controller.Reconcile.{is_zero}
use solr_collections_operato.Base.{◌<◌, Bool, ℕ, ◌≤◌, ◌≡◌, String, true, false, List, []}
use solr_collections_operato.Base.Int.{ℤ, pos}
use solr_collections_operato.Base.GoMap.{IsFair, GoMap, lookup, has_key}
use solr_collections_operato.Base.Outcome.{ok}
use solr_collections_operato.Api.{
  SolrCollectionSet, SolrCollectionSetStatus, Settings, settings, with_defaults,
}
use solr_collections_operato.Solr.{SolrClient, ClusterStatus}
use solr_collections_operato.Solr.Json.{Json}
use solr_collections_operato.Solr.Cluster.{SolrCluster}
use solr_collections_operato.Solr.ConfigStore.{ConfigStore}
use solr_collections_operato.Solr.Replicas.{ReplicaStore}
use solr_collections_operato.Solr.Client.Commands.{
  upload_config_set_request, write_record_request, delete_config_set_request,
  create_collection_request, assign_alias_request, delete_alias_request, delete_collection_request,
  set_replication_factor_request, add_replicas_request, remove_replicas_request,
}
use solr_collections_operato.Solr.Client.Queries.{
  get_cluster_status, get_config_sets, query, query_request,
}
use solr_collections_operato.Solr.Client.Queried.{config_sets_request}
use solr_collections_operato.Solr.Client.ClusterReport.{status_request}
use solr_collections_operato.Platform.{
  ConfigMap, listed, found, written, NamespacedName, Platform, World,
}
use solr_collections_operato.Controller.Names.{checksums_collection_name, contains}
use solr_collections_operato.Controller.ConfigSets.{map_config_maps, read_checksums}
use solr_collections_operato.Controller.Replicas.Converged.{AreCounted}
use solr_collections_operato.Controller.Reconcile.Loop.{is_unconditioned}

module _ (P : Platform) (c : SolrClient) (key : NamespacedName) (set : SolrCollectionSet)
    (factor : ℕ) where
  abbrev pub checksums_collection : String
  checksums_collection = checksums_collection_name set.name

  -- The parts of Solr, and what each request leaves alone.
  pub record SolrSystem : Type 0 where
    pub cluster : SolrCluster P c (pos factor)
    pub store : ConfigStore P c checksums_collection
    pub replicas : ReplicaStore P c factor
    pub same_collections :
        (s : P.State) (n : String) → replicas.collection s n ≡ (cluster.contents s).collection n
    pub same_configs :
        (s : P.State) (n : String) → cluster.has_config s n ≡ (store.sets s).has_set n
    pub enough : (s : P.State) → factor ≤ replicas.nodes s

  -- Nothing that the theorem speaks of differs between two states of Solr.
  abbrev pub SameSets : SolrSystem → P.State → P.State → Type 0
  SameSets solr s t =
      ((n : String) → (solr.store.sets s).has_set n ≡ (solr.store.sets t).has_set n)
      × ((n : String) → (solr.store.sets s).checksum n ≡ (solr.store.sets t).checksum n)

  abbrev pub Same : SolrSystem → P.State → P.State → Type 0
  Same solr s t =
      (solr.cluster.contents s ≡ solr.cluster.contents t) × (solr.store.sets s ≡ solr.store.sets t)

  -- A query changes nothing, a request for config sets or checksums no collection and no alias, and a
  -- request for collections or replicas no config set and no checksum.
  pub record IsSeparate (solr : SolrSystem) : Type 0 where
    pub query_status : (s : P.State) → Same solr (P.do_request (status_request c) s).1 s
    pub query_sets : (s : P.State) → Same solr (P.do_request (config_sets_request c) s).1 s
    pub query_checksums :
        (s : P.State)
        → Same solr (P.do_request (query_request P c checksums_collection "*:*") s).1 s
    pub upload :
        (name content : String) (s : P.State)
        → solr.cluster.contents (P.do_request (upload_config_set_request c name content) s).1
          ≡ solr.cluster.contents s
    pub write :
        (name content : String) (s : P.State)
        → solr.cluster.contents (P.do_request (write_record_request c name content) s).1
          ≡ solr.cluster.contents s
    pub delete_set :
        (name : String) (s : P.State)
        → solr.cluster.contents (P.do_request (delete_config_set_request c name) s).1
          ≡ solr.cluster.contents s
    pub create :
        (name config : String) (s : P.State)
        → SameSets solr (P.do_request (create_collection_request c name config (pos factor)) s).1 s
    pub assign :
        (name target : String) (s : P.State)
        → SameSets solr (P.do_request (assign_alias_request c name target) s).1 s
    pub delete_alias :
        (name : String) (s : P.State)
        → SameSets solr (P.do_request (delete_alias_request c name) s).1 s
    pub delete :
        (name : String) (s : P.State)
        → SameSets solr (P.do_request (delete_collection_request c name) s).1 s
    pub modify :
        (name : String) (s : P.State)
        → SameSets solr (P.do_request (set_replication_factor_request c name (pos factor)) s).1 s
    pub add :
        (name : String) (count : ℤ) (s : P.State)
        → SameSets solr (P.do_request (add_replicas_request c name count) s).1 s
    pub remove :
        (name : String) (count : ℤ) (s : P.State)
        → SameSets solr (P.do_request (remove_replicas_request c name count) s).1 s

  -- What Solr reports is what it has.
  pub record Reports (solr : SolrSystem) : Type 0 where
    pub status : P.State → ClusterStatus
    pub answers_status : (w : World P) → (get_cluster_status P c w).0 ≡ ok (status w.cluster)
    pub reads_status :
        (s : P.State) (n : String)
        → lookup n (status s).collections ≡ (solr.cluster.contents s).collection n
    pub counts : (s : P.State) → AreCounted solr.replicas (status s).collections
    pub initialized : (s : P.State) → has_key checksums_collection (status s).collections ≡ true
    pub names : P.State → List String
    pub answers_sets : (w : World P) → (get_config_sets P c w).0 ≡ ok (names w.cluster)
    pub reads_sets :
        (s : P.State) (n : String) → contains (names s) n ≡ (solr.store.sets s).has_set n
    pub records : P.State → List (GoMap Json)
    pub answers_query :
        (w : World P) → (query P c checksums_collection "*:*" w).0 ≡ ok (records w.cluster)
    pub checksums : P.State → GoMap String
    pub checked : (s : P.State) → read_checksums (records s) [] ≡ ok (checksums s)
    pub reads_checksums :
        (s : P.State) (n : String) → lookup n (checksums s) ≡ (solr.store.sets s).checksum n

  -- The Kubernetes API returns the resource and the config maps, stores the status, and leaves Solr
  -- alone.
  pub record Kubernetes (solr : SolrSystem) (maps : GoMap ConfigMap) : Type 0 where
    pub status : P.State → SolrCollectionSetStatus
    pub fetched : (s : P.State) → P.fetch key s ≡ found (record set { status = status s })
    pub conditioned : (s : P.State) → is_unconditioned P (record set { status = status s }) ≡ false
    pub items : List ConfigMap
    pub config_maps : (s : P.State) → P.list_config_maps set.namespace set.name s ≡ listed items
    pub mapped : map_config_maps items [] ≡ ok maps
    pub patched :
        (old new : SolrCollectionSet) (s : P.State)
        → (stored : SolrCollectionSet) × ((P.patch_status old new s).0 ≡ written stored)
    pub after_patch :
        (old new : SolrCollectionSet) (s : P.State) → Same solr (P.patch_status old new s).1 s
    pub after_event :
        (reported : SolrCollectionSet) (kind text : String) (s : P.State)
        → Same solr (P.record_event reported kind text s) s

-- The settings of an active set.
abbrev pub active_settings : ℕ → Bool → Bool → Settings
active_settings factor is_blue_green is_cleanup = record {
  is_active = true;
  factor = pos factor;
  is_blue_green = is_blue_green;
  is_cleanup = is_cleanup;
}

-- A cluster on which only the operator changes something, and an active resource that is stored with its
-- defaults: the world around the runs, and what is known of it.
pub record Deployment : Type 1 where
  pub platform : Platform
  pub fair : IsFair platform.order
  pub civil : IsCivil platform
  pub client : SolrClient
  pub made : is_zero client ≡ false
  pub key : NamespacedName
  pub set : SolrCollectionSet
  pub complete : (with_defaults set).1 ≡ false
  pub factor : ℕ
  pub positive : 0 < factor
  pub bounded : factor < 2147483648
  pub is_blue_green : Bool
  pub is_cleanup : Bool
  pub known : settings set.spec ≡ ok (active_settings factor is_blue_green is_cleanup)
  pub solr : SolrSystem platform client key set factor
  pub separate : IsSeparate platform client key set factor solr
  pub reports : Reports platform client key set factor solr
  pub maps : GoMap ConfigMap
  pub kube : Kubernetes platform client key set factor solr maps
