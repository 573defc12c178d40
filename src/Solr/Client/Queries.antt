-- ===== src/Solr/Client/Queries.antt =====
-- internal/controller/solr_api/solr_client.go: the operations that read the cluster.
use solr_collections_operato.Base.{String, ◌<>◌, List, [], ◌∷◌}
use solr_collections_operato.Base.Int.{ℤ, pos, add32}
use solr_collections_operato.Base.GoMap.{GoMap, insert}
use solr_collections_operato.Base.Outcome.{Outcome, ok, ◌>>=◌}
use solr_collections_operato.Base.Exec
use solr_collections_operato.Base.Exec.{lift}
use solr_collections_operato.Solr.{SolrClient, Collection, ClusterStatus}
use solr_collections_operato.Solr.Json.{
  Json, null, member, as_object, as_array, as_text, interface_to_int32,
}
use solr_collections_operato.Platform.{
  Request, Platform, Go, status_aliases, status_collections, count_replicas as count_site,
  query_fields,
}
use solr_collections_operato.Solr.Client.{request, query_json}

-- for range replicas { count++ }
unfoldable pub count_loop : GoMap Json → ℤ → ℤ
count_loop [] count = count
count_loop (_ ∷ m) count = count_loop m (add32 count (pos 1))

-- The loop that maps the aliases.
unfoldable pub read_aliases : GoMap Json → GoMap String → Outcome (GoMap String)
read_aliases [] aliases = ok aliases
read_aliases ((key, value) ∷ m) aliases = do
  name ← as_text value
  read_aliases m (insert key name aliases)

-- The strings of a JSON array.
unfoldable pub read_texts : List Json → Outcome (List String)
read_texts [] = ok []
read_texts (value ∷ values) = do name ← as_text value; rest ← read_texts values; ok (name ∷ rest)

-- for key, value := range doc { rec[key] = value }
unfoldable pub copy_fields : GoMap Json → GoMap Json → GoMap Json
copy_fields [] rec = rec
copy_fields ((key, value) ∷ m) rec = copy_fields m (insert key value rec)

module _ (P : Platform) where
  unfoldable pub count_replicas : Json → Outcome ℤ
  unfolding count_loop member
  count_replicas collection = do
    fields ← as_object collection
    shards ← as_object (member "shards" fields)
    shard1 ← as_object (member "shard1" shards)
    replicas ← as_object (member "replicas" shard1)
    ok (count_loop (P.order.visit count_site Json replicas) (pos 0))

  -- One round of the loop that maps the collections.
  unfoldable pub read_collection : String → Json → Outcome Collection
  unfolding count_replicas interface_to_int32 member
  read_collection name value = do
    fields ← as_object value
    replica_count ← count_replicas value
    replication_factor ← interface_to_int32 (member "replicationFactor" fields)
    config_name ← as_text (member "configName" fields)
    ok (record {
      name = name;
      replication_factor = replication_factor;
      replica_count = replica_count;
      config_name = config_name;
    })

  unfoldable pub read_collections : GoMap Json → GoMap Collection → Outcome (GoMap Collection)
  unfolding read_collection
  read_collections [] collections = ok collections
  read_collections ((name, value) ∷ m) collections = do
    collection ← read_collection name value
    read_collections m (insert name collection collections)

  -- if jsonAliases != nil { … }
  unfoldable pub aliases_of : Json → Outcome (GoMap String)
  unfolding read_aliases
  aliases_of null = ok []
  aliases_of value = do m ← as_object value; read_aliases (P.order.visit status_aliases Json m) []

  -- if jsonCollections != nil { … }
  unfoldable pub collections_of : Json → Outcome (GoMap Collection)
  unfolding read_collections
  collections_of null = ok []
  collections_of value = do
    m ← as_object value
    read_collections (P.order.visit status_collections Json m) []

  -- What `GetClusterStatus` makes of the JSON of the answer.
  unfoldable pub cluster_status_of : GoMap Json → Outcome ClusterStatus
  unfolding aliases_of collections_of member
  cluster_status_of json = do
    cluster ← as_object (member "cluster" json)
    aliases ← aliases_of (member "aliases" cluster)
    collections ← collections_of (member "collections" cluster)
    ok (record { collections = collections; aliases = aliases })

  unfoldable pub read_docs : List Json → Outcome (List (GoMap Json))
  unfolding copy_fields
  read_docs [] = ok []
  read_docs (doc ∷ docs) = do
    fields ← as_object doc
    rest ← read_docs docs
    ok (copy_fields (P.order.visit query_fields Json fields) [] ∷ rest)

  module _ (c : SolrClient) where
    unfoldable pub get_cluster_status : Go P ClusterStatus
    unfolding request query_json cluster_status_of
    get_cluster_status =
        Exec.◌>>=◌
          (query_json P (request c "GET" (c.url <> "/admin/collections?action=CLUSTERSTATUS") "" "")
            "could not get cluster status")
          λ json. lift (cluster_status_of json)

    unfoldable pub get_config_sets : Go P (List String)
    unfolding request query_json read_texts member
    get_config_sets =
        Exec.◌>>=◌
          (query_json P (request c "GET" (c.url <> "/admin/configs?action=LIST&wt=json") "" "")
            "could not get configsets")
          λ json. lift (as_array (member "configSets" json) >>= read_texts)

    unfoldable pub query_request : String → String → Request
    unfolding request
    query_request collection_name text =
        request c "GET"
          (c.url <> ("/" <> (collection_name <> ("/select?q.op=OR&rows=1000&q=" <> text)))) "" ""

    unfoldable pub query : String → String → Go P (List (GoMap Json))
    unfolding query_request query_json read_docs member
    query collection_name text =
        Exec.◌>>=◌
          (query_json P (query_request collection_name text)
            ("query to collection [" <> (collection_name <> "] failed with")))
          λ json. lift (do
            response ← as_object (member "response" json)
            docs ← as_array (member "docs" response)
            read_docs docs)
