-- ===== src/Solr/Client/Queried.antt =====
-- A query makes its request and changes nothing else.
use solr_collections_operato.Base.{◌≡◌, refl, ◌∙◌, arith, String, ◌<>◌, Option-cases, inl, inr}
use solr_collections_operato.Base.GoMap.{GoMap}
use solr_collections_operato.Base.Exec.{◌>>=◌, resume_world}
use solr_collections_operato.Solr.{SolrClient}
use solr_collections_operato.Solr.Json.{Json}
use solr_collections_operato.Platform.{Request, Response, Platform, World, Go}
use solr_collections_operato.Solr.Client.{
  request, query_json, send, check_request, require_ok, read_body, decode,
}
use solr_collections_operato.Solr.Client.Queries.{
  get_cluster_status, get_config_sets, query, query_request,
}
use solr_collections_operato.Solr.Client.ClusterReport.{status_request}
use solr_collections_operato.Solr.Client.Delivery.{after, do_request_after, require_ok_keeps}

module _ (P : Platform) where
  read_body_keeps : (resp : Response) (w : World P) → (read_body P resp w).1 ≡ w
  unfolding read_body
  read_body_keeps resp w = ground arith

  decode_keeps : (body : String) (w : World P) → (decode P body w).1 ≡ w
  unfolding decode
  decode_keeps body w = ground arith

  -- What a query makes of the response.
  abbrev digest : String → Response → Go P (GoMap Json)
  digest what resp = require_ok P what resp >>= λ _. read_body P resp >>= decode P

  digest_keeps : (what : String) (resp : Response) (w : World P) → (digest what resp w).1 ≡ w
  digest_keeps what resp w =
      resume_world (λ _. read_body P resp >>= decode P) (require_ok P what resp w)
        (λ _ v. resume_world (decode P) (read_body P resp v) decode_keeps ∙ read_body_keeps resp v)
      ∙ require_ok_keeps P what resp w

  query_json-after :
      (req : Request) (what : String) (w : World P) → (query_json P req what w).1 ≡ after P req w
  unfolding query_json send after check_request
  query_json-after req what w = elim (Option-cases (P.new_request req.method req.url)) [
    | inl fine ↦
        rw (fine, after, check_request)
          (do_request_after P (digest what) (digest_keeps what) req w (P.do_request req w.cluster).0
            refl)
    | inr (e, bad) ↦ rw (bad, after, check_request) refl
  ]

abbrev pub config_sets_request : SolrClient → Request
config_sets_request c = request c "GET" (c.url <> "/admin/configs?action=LIST&wt=json") "" ""

module _ (P : Platform) (c : SolrClient) (w : World P) where
  pub get_cluster_status-after : (get_cluster_status P c w).1 ≡ after P (status_request c) w
  unfolding get_cluster_status
  get_cluster_status-after =
      resume_world _ (query_json P (status_request c) "could not get cluster status" w)
        (λ json v. refl)
      ∙ query_json-after P (status_request c) "could not get cluster status" w

  pub get_config_sets-after : (get_config_sets P c w).1 ≡ after P (config_sets_request c) w
  unfolding get_config_sets
  get_config_sets-after =
      resume_world _ (query_json P (config_sets_request c) "could not get configsets" w)
        (λ json v. refl)
      ∙ query_json-after P (config_sets_request c) "could not get configsets" w

  pub query-after :
      (name text : String) → (query P c name text w).1 ≡ after P (query_request P c name text) w
  unfolding query
  query-after name text =
      let what = "query to collection [" <> (name <> "] failed with") in
      resume_world _ (query_json P (query_request P c name text) what w) (λ json v. refl)
      ∙ query_json-after P (query_request P c name text) what w
