-- ===== src/Api.antt =====
-- api/v1/solrcollectionset_types.go: the custom resource and its defaults. A Go pointer field is an
-- `Option`, and nil is `none`.
pub mod Defaults
use solr_collections_operato.Base.{
  ℕ, ◌≡◌, String, Bool, true, false, Option, none, some, List, [], ◌∷◌, ◌||◌, ◌==◌, if◌then◌else◌,
}
use solr_collections_operato.Base.Int.{ℤ, pos}
use solr_collections_operato.Base.Outcome.{Outcome, ok, panic, ◌>>=◌}

pub record SolrCollection : Type 0 where
  pub name : String
  pub alias : String
  pub configset_name : String

pub record SolrCollectionSetSpec : Type 0 where
  pub solr_cluster_name : String
  pub solr_cluster_url : String
  pub secret_ref : String
  pub active : Option Bool
  pub replication_factor : Option ℤ
  pub blue_green_enabled : Option Bool
  pub cleanup_enabled : Option Bool
  pub collections : List SolrCollection

pub record SolrCollectionStatus : Type 0 where
  pub name : String
  pub instance_name : String
  pub config_set : String
  pub is_existing : Bool
  pub is_active : Bool
  pub is_blue_green : Bool
  pub replication_factor : ℤ
  pub replica_count : ℤ
  pub replication_status : String

-- metav1.Condition, without its times and generation.
pub record Condition : Type 0 where
  pub kind : String
  pub status : String
  pub reason : String
  pub message : String

pub record SolrCollectionSetStatus : Type 0 where
  pub conditions : List Condition
  pub replication_factor : ℤ
  pub ready_ratio : String
  pub scale_status : String
  pub solr_collections : List SolrCollectionStatus

pub record SolrCollectionSet : Type 0 where
  pub name : String
  pub namespace : String
  pub spec : SolrCollectionSetSpec
  pub status : SolrCollectionSetStatus

abbrev pub default_active : Bool
default_active = true

abbrev pub default_cleanup_enabled : Bool
default_cleanup_enabled = false

abbrev pub default_blue_green_enabled : Bool
default_blue_green_enabled = true

abbrev pub default_replication_factor : ℤ
default_replication_factor = pos 1

-- if p == nil { changed = true; p = &d }
pub fill : {A : Type 0} → A → Option A → Option A × Bool
fill d none = (some d, true)
fill d (some a) = (some a, false)

-- The spec with its defaults, and whether any was missing.
unfoldable pub spec_with_defaults : SolrCollectionSetSpec → SolrCollectionSetSpec × Bool
unfolding fill
spec_with_defaults spec =
    let (active, c1) = fill default_active spec.active in
    let (blue_green, c2) = fill default_blue_green_enabled spec.blue_green_enabled in
    let (cleanup, c3) = fill default_cleanup_enabled spec.cleanup_enabled in
    let (factor, c4) = fill default_replication_factor spec.replication_factor in
    (
      record spec {
        active = active;
        blue_green_enabled = blue_green;
        cleanup_enabled = cleanup;
        replication_factor = factor;
      },
      c1 || (c2 || (c3 || c4)),
    )

-- One round of the loop of `SetCollectionDefaults`.
unfoldable pub collection_with_defaults : SolrCollection → SolrCollection × Bool
collection_with_defaults c =
    let no_configset = c.configset_name == "" in
    let no_alias = c.alias == "" in
    (
      record c {
        configset_name = if no_configset then c.name else c.configset_name;
        alias = if no_alias then c.name else c.alias;
      },
      no_configset || no_alias,
    )

-- The loop writes into the slice, so the caller of `SetCollectionDefaults` sees what it wrote though
-- the receiver is a copy.
unfoldable pub set_collection_defaults : List SolrCollection → List SolrCollection × Bool
unfolding collection_with_defaults
set_collection_defaults [] = ([], false)
set_collection_defaults (c ∷ cs) =
    let (c', here) = collection_with_defaults c in
    let (cs', rest) = set_collection_defaults cs in (c' ∷ cs', here || rest)

unfoldable pub with_defaults : SolrCollectionSet → SolrCollectionSet × Bool
unfolding spec_with_defaults set_collection_defaults
with_defaults sc =
    let (spec, changed_defaults) = spec_with_defaults sc.spec in
    let (collections, changed_collections) = set_collection_defaults spec.collections in
    (
      record sc { spec = record spec { collections = collections } },
      changed_defaults || changed_collections,
    )

-- The settings behind the pointers of a spec.
pub record Settings : Type 0 where
  pub is_active : Bool
  pub factor : ℤ
  pub is_blue_green : Bool
  pub is_cleanup : Bool

-- *p: a nil pointer panics.
abbrev pub deref : {A : Type 0} → Option A → Outcome A
deref none = panic
deref (some a) = ok a

-- The pointers that the reconciler follows, read together.
unfoldable pub settings : SolrCollectionSetSpec → Outcome Settings
settings spec = do
  is_active ← deref spec.active
  factor ← deref spec.replication_factor
  is_blue_green ← deref spec.blue_green_enabled
  is_cleanup ← deref spec.cleanup_enabled
  ok (record {
    is_active = is_active;
    factor = factor;
    is_blue_green = is_blue_green;
    is_cleanup = is_cleanup;
  })
