-- ===== src/Controller/Collections/Ready.antt =====
-- The condition on the spec and the cluster under which a run of `ManageCollections` succeeds.
use solr_collections_operato.Base.{Bool, ◌≡◌, ◌≢◌, String, true, none, some, List}
use solr_collections_operato.Base.Int.{pos, ltb_ℤ}
use solr_collections_operato.Api.{SolrCollection, Settings}
use solr_collections_operato.Solr.{SolrClient, Collection}
use solr_collections_operato.Platform.{Platform, World}
use solr_collections_operato.Solr.Cluster.{SolrCluster}
use solr_collections_operato.Solr.Cluster.Requests.{collection_of, alias_of}
use solr_collections_operato.Controller.Names.Mapped.{specified}
use solr_collections_operato.Controller.Collections.Planned.{is_stray}

module _ (P : Platform) (c : SolrClient) (cfg : Settings) (cluster : SolrCluster P c cfg.factor)
    (collections : List SolrCollection) where
  -- What a run needs of the spec, the cluster and the config sets that are stored: a positive factor,
  -- names that Solr takes, and the config sets of the collections that are to be created. No alias
  -- has the name of a collection that the spec asks for: neither one that is there, nor one that a run
  -- makes in a blue/green set. No alias points to a stray collection.
  pub record IsReady (is_stored : String → Bool) (w : World P) : Type 0 where
    pub positive : ltb_ℤ (pos 0) cfg.factor ≡ true
    pub named :
        (n : String) (spec : SolrCollection)
        → specified cfg.is_blue_green collections n ≡ some spec
        → (cluster.is_name n ≡ true)
          × (cluster.is_name spec.configset_name ≡ true)
          × (cluster.is_name spec.alias ≡ true)
    pub configured :
        (n : String) (spec : SolrCollection)
        → specified cfg.is_blue_green collections n ≡ some spec
        → collection_of P c cfg.factor cluster w n ≡ none
        → is_stored spec.configset_name ≡ true
    pub existing :
        (n : String) (x : Collection)
        → is_stray cfg collections n ≡ true
        → collection_of P c cfg.factor cluster w n ≡ some x
        → cluster.is_name n ≡ true
    pub unaliased :
        (n : String) (spec : SolrCollection)
        → specified cfg.is_blue_green collections n ≡ some spec
        → alias_of P c cfg.factor cluster w n ≡ none
    pub distinct :
        cfg.is_blue_green ≡ true
        → (n k : String) (spec other : SolrCollection)
        → specified cfg.is_blue_green collections n ≡ some spec
        → specified cfg.is_blue_green collections k ≡ some other
        → n ≢ other.alias
    pub untargeted :
        (n a : String)
        → is_stray cfg collections n ≡ true
        → alias_of P c cfg.factor cluster w a ≢ some n
