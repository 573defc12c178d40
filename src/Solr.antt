-- ===== src/Solr.antt =====
-- internal/controller/solr_api: the cluster as Solr reports it, and the client of Solr's API.
pub mod Json
pub mod Client
pub mod Cluster
pub mod ConfigStore
pub mod Replicas
use solr_collections_operato.Base.{◌≡◌, String, some}
use solr_collections_operato.Base.Int.{ℤ}
use solr_collections_operato.Base.GoMap.{GoMap, lookup}

-- internal/controller/solr_api/solr_types.go
pub record Collection : Type 0 where
  pub name : String
  pub replication_factor : ℤ
  pub replica_count : ℤ
  pub config_name : String

-- Every collection stands under its own name.
abbrev pub AreNamed : GoMap Collection → Type 0
AreNamed solr =
    (n : String) (collection : Collection) → lookup n solr ≡ some collection → collection.name ≡ n

pub record ClusterStatus : Type 0 where
  pub collections : GoMap Collection
  pub aliases : GoMap String

-- The fields of the basic auth client.
pub record SolrClient : Type 0 where
  pub username : String
  pub password : String
  pub url : String

pub record ReplicationAdjustment : Type 0 where
  pub current_count : ℤ
  pub target_count : ℤ
