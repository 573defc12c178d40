-- ===== src/Solr/Replicas.antt =====
-- Solr's side of ADDREPLICA and DELETEREPLICA, as its reference guide describes them. The client's
-- requests are those of internal/controller/solr_api/solr_client.go.
use solr_collections_operato.Base.{
  ℕ, ◌-◌, ◌≤◌, ◌<◌, ◌≡◌, refl, String, ◌<>◌, Bool, true, false, Option, none, some, ◌==◌, eqb,
  if◌then◌else◌,
}
use solr_collections_operato.Base.Int.{pos, ℤ}
use solr_collections_operato.Base.Text.{has_infix}
use solr_collections_operato.Base.Outcome.{ok}
use solr_collections_operato.Base.Exec.{is-pair}
use solr_collections_operato.Solr.{SolrClient, Collection}
use solr_collections_operato.Platform.{Request, Response, answered, Platform, World}
use solr_collections_operato.Solr.Client.{parse_error, check_request, do_request}
use solr_collections_operato.Solr.Client.Commands.{
  added, add_replicas, add_replicas_request, remove_replicas, remove_replicas_request,
}
use solr_collections_operato.Solr.Client.Delivery.{after, add_replicas-after}
use solr_collections_operato.Solr.ConfigStore.{IsFine, command-fine}

-- The HTTP library makes the request, and Solr answers it with the error that it has too few nodes.
pub record IsWaiting (P : Platform) (req : Request) (s : P.State) : Type 0 where
  pub accepted : P.new_request req.method req.url ≡ none
  pub response : Response
  pub there : (P.do_request req s).0 ≡ answered response
  pub failed : eqb response.status_code 200 ≡ false
  pub message : String
  pub read : parse_error P response.body ≡ ok message
  pub is_about_nodes : has_infix message "Not enough eligible nodes" ≡ true

-- A Solr that puts the replicas of a collection on nodes of their own, and does what the collections
-- API promises to the requests that bring a collection to `factor` replicas.
pub record ReplicaStore (P : Platform) (c : SolrClient) (factor : ℕ) : Type 0 where
  -- A name that Solr takes for a collection.
  pub is_name : String → Bool
  pub collection : P.State → String → Option Collection
  -- The number of live nodes.
  pub nodes : P.State → ℕ
  -- ADDREPLICA adds the replicas where there are nodes for them,
  pub add :
      (name : String) (x : Collection) (m : ℕ) (s : P.State)
      → is_name name ≡ true
      → collection s name ≡ some x
      → x.replica_count ≡ pos m
      → m < factor
      → factor ≤ nodes s
      → let req = add_replicas_request c name (pos (factor - m)) in
        IsFine P req s
        × ((n : String)
            → collection (P.do_request req s).1 n ≡ (
                if n == name
                then some (record x { replica_count = pos factor })
                else collection s n))
        × (nodes (P.do_request req s).1 ≡ nodes s)
  -- and else refuses to, and changes nothing.
  pub wait :
      (name : String) (x : Collection) (m : ℕ) (s : P.State)
      → is_name name ≡ true
      → collection s name ≡ some x
      → x.replica_count ≡ pos m
      → m < factor
      → nodes s < factor
      → let req = add_replicas_request c name (pos (factor - m)) in
        IsWaiting P req s × ((n : String) → collection (P.do_request req s).1 n ≡ collection s n)
  -- DELETEREPLICA with a count removes so many replicas, but not the last one.
  pub remove :
      (name : String) (x : Collection) (m : ℕ) (s : P.State)
      → is_name name ≡ true
      → collection s name ≡ some x
      → x.replica_count ≡ pos m
      → factor < m
      → 0 < factor
      → let req = remove_replicas_request c name (pos (m - factor)) in
        IsFine P req s
        × ((n : String)
            → collection (P.do_request req s).1 n ≡ (
                if n == name
                then some (record x { replica_count = pos factor })
                else collection s n))
        × (nodes (P.do_request req s).1 ≡ nodes s)

module _ (P : Platform) (c : SolrClient) (name : String) (count : ℤ) (w : World P) where
  added-fine :
      (resp : Response)
      → P.new_request
          (add_replicas_request c name count).method
          (add_replicas_request c name count).url
        ≡ none
      → (P.do_request (add_replicas_request c name count) w.cluster).0 ≡ answered resp
      → eqb resp.status_code 200 ≡ true
      → (add_replicas P c name count w).0 ≡ ok (false, none)
  unfolding add_replicas
  added-fine resp made there fine = rw (made, check_request, there, do_request, fine, added) refl

  -- With a good answer nothing waits, and there is no error.
  pub add_replicas-fine :
      IsFine P (add_replicas_request c name count) w.cluster
      → add_replicas P c name count w
        ≡ (ok (false, none), after P (add_replicas_request c name count) w)
  add_replicas-fine (made, (resp, there, fine)) =
      is-pair _ (added-fine resp made there (rw fine refl)) (add_replicas-after P c name count w)

  added-waiting :
      (e : IsWaiting P (add_replicas_request c name count) w.cluster)
      → (text : String) × ((add_replicas P c name count w).0 ≡ ok (true, some text))
  unfolding add_replicas
  added-waiting e = (
    "add replicas failed for collection [" <> (name <> "] because there aren't enough nodes"),
    rw (e.accepted, check_request, e.there, do_request, e.failed, added, e.read, e.is_about_nodes)
        refl,
  )

  -- With the error that there are too few nodes, the caller is told to wait.
  pub add_replicas-waiting :
      IsWaiting P (add_replicas_request c name count) w.cluster
      → (text : String) × (add_replicas P c name count w
          ≡ (ok (true, some text), after P (add_replicas_request c name count) w))
  add_replicas-waiting e =
      let (text, said) = added-waiting e in
      (text, is-pair _ said (add_replicas-after P c name count w))

  pub remove_replicas-fine :
      IsFine P (remove_replicas_request c name count) w.cluster
      → remove_replicas P c name count w ≡ (ok tt, after P (remove_replicas_request c name count) w)
  unfolding remove_replicas
  remove_replicas-fine fine = command-fine P w (remove_replicas_request c name count) _ fine

pub cluster-accepted :
    (P : Platform) (w : World P) (req : Request)
    → P.new_request req.method req.url ≡ none
    → (after P req w).cluster ≡ (P.do_request req w.cluster).1
unfolding after
cluster-accepted P w req made = rw (made, after) refl
