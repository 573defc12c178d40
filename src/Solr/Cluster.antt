-- ===== src/Solr/Cluster.antt =====
-- Solr's side of the collections API, as its reference guide describes it: what a cluster has, and what
-- a request does to it. The client's requests are those of internal/controller/solr_api/solr_client.go.
pub mod Requests
use mathlib.Core.Option.{map as map_option}
use solr_collections_operato.Base.{
  ◌≡◌, ◌≢◌, ◌⊎◌, String, Bool, true, Option, none, some, ◌==◌, if◌then◌else◌,
}
use solr_collections_operato.Base.Int.{ℤ, pos, ltb_ℤ}
use solr_collections_operato.Solr.{SolrClient, Collection}
use solr_collections_operato.Platform.{Request, Platform}
use solr_collections_operato.Solr.Client.Commands.{
  create_collection_request, assign_alias_request, delete_alias_request, delete_collection_request,
  set_replication_factor_request,
}

-- What a cluster has under each name.
pub record Contents : Type 0 where
  pub collection : String → Option Collection
  pub alias : String → Option String

-- http.NewRequest makes the request.
abbrev pub IsAccepted : Platform → Request → Type 0
IsAccepted P req = P.new_request req.method req.url ≡ none

-- A cluster that does what the collections API promises to the requests of a client. Where Solr may
-- refuse a request, the promise has the condition under which it does not, or is kept by a refusal too.
pub record SolrCluster (P : Platform) (c : SolrClient) (factor : ℤ) : Type 0 where
  -- A name that Solr takes for a collection, an alias or a config set; the client writes it into the
  -- address as it is.
  pub is_name : String → Bool
  pub contents : P.State → Contents
  -- The config sets that are stored.
  pub has_config : P.State → String → Bool
  -- The collection that CREATE makes of a name and a config set, with the factor of the set.
  pub fresh : String → String → Collection
  pub fresh-factor : (name config : String) → (fresh name config).replication_factor ≡ factor
  -- The HTTP library can make the requests.
  pub accepts_create :
      (name config : String)
      → is_name name ≡ true
      → is_name config ≡ true
      → IsAccepted P (create_collection_request c name config factor)
  pub accepts_assign :
      (name target : String)
      → is_name name ≡ true
      → is_name target ≡ true
      → IsAccepted P (assign_alias_request c name target)
  pub accepts_delete_alias :
      (name : String) → is_name name ≡ true → IsAccepted P (delete_alias_request c name)
  pub accepts_delete :
      (name : String) → is_name name ≡ true → IsAccepted P (delete_collection_request c name)
  pub accepts_modify :
      (name : String)
      → is_name name ≡ true
      → IsAccepted P (set_replication_factor_request c name factor)
  -- CREATE needs a stored config set, a name that is neither a collection's nor an alias's, and a
  -- positive factor.
  pub create-collection :
      (name config : String) (s : P.State)
      → is_name name ≡ true
      → is_name config ≡ true
      → has_config s config ≡ true
      → (contents s).collection name ≡ none
      → (contents s).alias name ≡ none
      → ltb_ℤ (pos 0) factor ≡ true
      → (n : String)
      → (contents (P.do_request (create_collection_request c name config factor) s).1).collection n
        ≡ (if n == name then some (fresh name config) else (contents s).collection n)
  pub create-alias :
      (name config : String) (s : P.State)
      → is_name name ≡ true
      → is_name config ≡ true
      → (n : String)
      → (contents (P.do_request (create_collection_request c name config factor) s).1).alias n
        ≡ (contents s).alias n
  -- CREATE and CREATEALIAS remove no config set.
  pub create-config :
      (name config : String) (s : P.State)
      → is_name name ≡ true
      → is_name config ≡ true
      → (n : String) → has_config s n ≡ true
      → has_config (P.do_request (create_collection_request c name config factor) s).1 n ≡ true
  pub assign-config :
      (name target : String) (s : P.State)
      → is_name name ≡ true
      → is_name target ≡ true
      → (n : String) → has_config s n ≡ true
      → has_config (P.do_request (assign_alias_request c name target) s).1 n ≡ true
  -- CREATEALIAS changes no collection, and no alias but its own.
  pub assign-collection :
      (name target : String) (s : P.State)
      → is_name name ≡ true
      → is_name target ≡ true
      → (n : String)
      → (contents (P.do_request (assign_alias_request c name target) s).1).collection n
        ≡ (contents s).collection n
  pub assign-alias :
      (name target : String) (s : P.State)
      → is_name name ≡ true
      → is_name target ≡ true
      → (n t : String)
      → (contents (P.do_request (assign_alias_request c name target) s).1).alias n ≡ some t
      → ((contents s).alias n ≡ some t) ⊎ ((n ≡ name) × (t ≡ target))
  -- DELETEALIAS changes no collection, and makes no alias.
  pub delete_alias-collection :
      (name : String) (s : P.State)
      → is_name name ≡ true
      → (n : String)
      → (contents (P.do_request (delete_alias_request c name) s).1).collection n
        ≡ (contents s).collection n
  pub delete_alias-alias :
      (name : String) (s : P.State)
      → is_name name ≡ true
      → (n t : String)
      → (contents (P.do_request (delete_alias_request c name) s).1).alias n ≡ some t
      → (contents s).alias n ≡ some t
  -- DELETE needs a collection to which no alias points.
  pub delete-collection :
      (name : String) (s : P.State)
      → is_name name ≡ true
      → ((a : String) → (contents s).alias a ≢ some name)
      → (n : String)
      → (contents (P.do_request (delete_collection_request c name) s).1).collection n
        ≡ (if n == name then none else (contents s).collection n)
  pub delete-alias :
      (name : String) (s : P.State)
      → is_name name ≡ true
      → (n : String)
      → (contents (P.do_request (delete_collection_request c name) s).1).alias n
        ≡ (contents s).alias n
  -- MODIFYCOLLECTION needs a positive factor.
  pub modify-collection :
      (name : String) (s : P.State)
      → is_name name ≡ true
      → ltb_ℤ (pos 0) factor ≡ true
      → (n : String)
      → (contents (P.do_request (set_replication_factor_request c name factor) s).1).collection n
        ≡ (if n == name
            then map_option
                (λ (x : Collection). record x { replication_factor = factor })
                ((contents s).collection n)
            else (contents s).collection n)
