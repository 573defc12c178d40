-- ===== src/Solr/ConfigStore.antt =====
-- Solr's side of the config sets and of the collection for checksums, as the config sets API and the
-- update handler describe it. The client's requests are those of
-- internal/controller/solr_api/solr_client.go.
use solr_collections_operato.Base.{
  ◌≡◌, refl, String, Bool, true, not, ◌&&◌, ◌||◌, Option, none, some, ◌==◌, if◌then◌else◌,
}
use solr_collections_operato.Base.Outcome.{ok}
use solr_collections_operato.Base.Exec.{is-pair}
use solr_collections_operato.Solr.{SolrClient}
use solr_collections_operato.Platform.{Request, Response, answered, Platform, World}
use solr_collections_operato.Solr.Client.{command}
use solr_collections_operato.Solr.Client.Commands.{
  upload_config_set_request, write_record_request, delete_config_set_request,
}
use solr_collections_operato.Solr.Client.Delivery.{after}
use solr_collections_operato.Solr.Client.Accepted.{command-outcome}
use solr_collections_operato.Controller.ConfigSets.{checksum_record}

-- The HTTP library makes the request, and Solr answers it with 200.
abbrev pub IsFine : (P : Platform) → Request → P.State → Type 0
IsFine P req s =
    (P.new_request req.method req.url ≡ none)
    × ((resp : Response) × ((P.do_request req s).0 ≡ answered resp) × (resp.status_code ≡ 200))

-- What Solr has: the config sets, the checksums by the names of their config sets, and the config sets
-- that no collection uses.
pub record Sets : Type 0 where
  pub has_set : String → Bool
  pub checksum : String → Option String
  pub is_unused : String → Bool

-- A Solr that does what these interfaces promise to the requests of a client.
pub record ConfigStore (P : Platform) (c : SolrClient) (checksums_collection : String)
    : Type 0 where
  -- A name that Solr takes for a config set, a checksum that can stand in a record as it is, and an
  -- archive that Solr takes for a config set.
  pub is_name : String → Bool
  pub is_checksum : String → Bool
  pub is_archive : String → Bool
  pub sets : P.State → Sets
  -- UPLOAD with overwrite makes the config set or takes the place of the old one.
  pub upload :
      (name content : String) (s : P.State)
      → is_name name ≡ true
      → is_archive content ≡ true
      → let req = upload_config_set_request c name content in
        IsFine P req s
        × ((n : String)
            → (sets (P.do_request req s).1).has_set n ≡ (n == name || (sets s).has_set n))
        × ((n : String) → (sets (P.do_request req s).1).checksum n ≡ (sets s).checksum n)
        × ((n : String) → (sets (P.do_request req s).1).is_unused n ≡ (sets s).is_unused n)
  -- A record takes the place of the one with its key, the name of the config set.
  pub write :
      (name checksum : String) (s : P.State)
      → is_name name ≡ true
      → is_checksum checksum ≡ true
      → let req = write_record_request c checksums_collection (checksum_record name checksum) in
        IsFine P req s
        × ((n : String) → (sets (P.do_request req s).1).has_set n ≡ (sets s).has_set n)
        × ((n : String)
            → (sets (P.do_request req s).1).checksum n
              ≡ (if n == name then some checksum else (sets s).checksum n))
        × ((n : String) → (sets (P.do_request req s).1).is_unused n ≡ (sets s).is_unused n)
  -- DELETE needs a config set that no collection uses.
  pub delete :
      (name : String) (s : P.State)
      → is_name name ≡ true
      → (sets s).is_unused name ≡ true
      → let req = delete_config_set_request c name in
        IsFine P req s
        × ((n : String)
            → (sets (P.do_request req s).1).has_set n ≡ (not (n == name) && (sets s).has_set n))
        × ((n : String) → (sets (P.do_request req s).1).checksum n ≡ (sets s).checksum n)
        × ((n : String) → (sets (P.do_request req s).1).is_unused n ≡ (sets s).is_unused n)

module _ (P : Platform) (w : World P) where
  -- A command whose request is fine succeeds, and the cluster is as after the request.
  pub command-fine :
      (req : Request) (what : String)
      → IsFine P req w.cluster
      → command P req what w ≡ (ok tt, after P req w)
  command-fine req what (made, (resp, there, fine)) =
      let (ends, crash, world) = command-outcome P req what w in
      is-pair _ (ends.1 (resp, (made, there), fine)) world

  pub cluster-fine :
      (req : Request)
      → IsFine P req w.cluster
      → (after P req w).cluster ≡ (P.do_request req w.cluster).1
  unfolding after
  cluster-fine req (made, rest) = rw (made, after) refl
