-- ===== src/Solr/Client.antt =====
-- internal/controller/solr_api/solr_client.go: how the client sends a request and reads what comes
-- back. The operations that change the cluster are in `Commands`, the ones that read it in `Queries`.
pub mod Commands
pub mod Queries
pub mod Delivery
pub mod Reported
pub mod Accepted
pub mod Queried
pub mod Preserved
pub mod WellFormed
pub mod Entries
pub mod ClusterReport
use solr_collections_operato.Base.{String, ◌<>◌, none, some, [], ◌∷◌, ◌++◌, eqb, if◌then◌else◌}
use solr_collections_operato.Base.GoMap.{GoMap}
use solr_collections_operato.Base.Outcome
use solr_collections_operato.Base.Outcome.{Outcome, ok, err, panic}
use solr_collections_operato.Base.Exec.{◌>>=◌, raise, lift}
use solr_collections_operato.Solr.{SolrClient}
use solr_collections_operato.Solr.Json.{Json, member, as_object, as_text}
use solr_collections_operato.Platform.{
  Request, Response, Body, complete, broken, answered, unreachable, decoded, malformed, Platform,
  World, Go,
}

-- `addBasicAuth` puts the credentials of the client on the request.
unfoldable pub request : SolrClient → String → String → String → String → Request
request c method url content_type body = record {
  method = method;
  url = url;
  content_type = content_type;
  body = body;
  username = c.username;
  password = c.password;
}

-- The end of `parseError`: an answer without an object under "error", or without a text under its
-- "msg", panics.
unfoldable pub error_message : GoMap Json → Outcome String
unfolding member
error_message json = Outcome.◌>>=◌ (as_object (member "error" json)) λ e. as_text (member "msg" e)

module _ (P : Platform) where
  -- http.NewRequest
  unfoldable pub check_request : Request → Go P Request
  check_request req w = elim (P.new_request req.method req.url) [
    | none ↦ (ok req, w)
    | some e ↦ (err e, w)
  ]

  -- client.Do
  unfoldable pub do_request : Request → Go P Response
  do_request req w =
      let (reply, cluster) = P.do_request req w.cluster in
      let w' : World P = record { cluster = cluster; sent = w.sent ++ (req ∷ []) } in
      elim reply [ answered resp ↦ (ok resp, w') | unreachable e ↦ (err e, w') ]

  unfoldable pub send : Request → Go P Response
  unfolding check_request do_request
  send req = do checked ← check_request req; do_request checked

  -- The text that `parseError` returns; no caller looks at the error beside it.
  unfoldable pub parse_error : Body → Outcome String
  unfolding error_message
  parse_error (broken _) = ok "failed to read"
  parse_error (complete body) = elim (P.unmarshal body) [
    | malformed _ ↦ ok "couldn't unmarshall the response body"
    | decoded json ↦ error_message json
  ]

  -- if resp.StatusCode != 200 { … }: an error with the status line and Solr's own message in it.
  unfoldable pub require_ok : String → Response → Go P (Unit {0})
  unfolding parse_error
  require_ok what resp w =
      if eqb resp.status_code 200
      then (ok tt, w)
      else (lift (parse_error resp.body) >>= λ msg.
            raise (what <> (" [" <> (resp.status <> ("] [" <> (msg <> "]"))))))
          w

  -- A request whose answer has no content that the client reads.
  unfoldable pub command : Request → String → Go P (Unit {0})
  unfolding check_request do_request require_ok
  command req what = do checked ← check_request req; resp ← do_request checked; require_ok what resp

  -- body, err := io.ReadAll(resp.Body)
  unfoldable pub read_body : Response → Go P String
  read_body resp w = elim resp.body [ complete body ↦ (ok body, w) | broken e ↦ (err e, w) ]

  -- json.Unmarshal(body, &jsonResponse)
  unfoldable pub decode : String → Go P (GoMap Json)
  decode body w = elim (P.unmarshal body) [ decoded json ↦ (ok json, w) | malformed e ↦ (err e, w) ]

  -- A request whose answer is a JSON object.
  unfoldable pub query_json : Request → String → Go P (GoMap Json)
  unfolding send require_ok read_body decode
  query_json req what = do
    resp ← send req
    _ ← require_ok what resp
    body ← read_body resp
    decode body
