-- ===== src/Platform.antt =====
-- What the operator is built on and does not implement, as parameters: HTTP, JSON, the Kubernetes API
-- and the order of loops over maps; and the state that the operator works on.
use solr_collections_operato.Base.{ℕ, String, Bool, Option, List}
use solr_collections_operato.Base.GoMap.{GoMap, Order}
use solr_collections_operato.Base.Outcome.{Outcome}
use solr_collections_operato.Base.Exec.{Exec}
use solr_collections_operato.Solr.Json.{Json}
use solr_collections_operato.Api.{
  Condition, SolrCollectionStatus, SolrCollectionSetStatus, SolrCollectionSet,
}

-- An HTTP request as the client sends it.
pub record Request : Type 0 where
  pub method : String
  pub url : String
  pub content_type : String
  pub body : String
  pub username : String
  pub password : String

-- io.ReadAll(resp.Body): the whole body, or the error of reading it.
pub data Body : Type 0 where
  complete : String → Body
  broken : String → Body

pub record Response : Type 0 where
  pub status_code : ℕ
  pub status : String
  pub body : Body

-- client.Do(req)
pub data Reply : Type 0 where
  answered : Response → Reply
  unreachable : String → Reply

-- json.Unmarshal into a map
pub data Decoded : Type 0 where
  decoded : GoMap Json → Decoded
  malformed : String → Decoded

-- A Kubernetes ConfigMap.
pub record ConfigMap : Type 0 where
  pub name : String
  pub labels : GoMap String
  pub contents : GoMap String

-- r.List of the config maps in a namespace with the label of a collection set
pub data Listed : Type 0 where
  listed : List ConfigMap → Listed
  unlistable : String → Listed

pub record NamespacedName : Type 0 where
  pub name : String
  pub namespace : String

-- r.Get of a collection set; an error has its text.
pub data Fetched : Type 0 where
  found : SolrCollectionSet → Fetched
  not_found : String → Fetched
  unfetchable : String → Fetched

-- r.Update, r.Status().Update and r.Status().Patch: what the server stored, or the error.
pub data Written : Type 0 where
  written : SolrCollectionSet → Written
  refused : String → Written

-- The `range` statements over maps.
pub data Site : Type 0 where
  status_aliases status_collections count_replicas query_fields : Site
  manage_aliases manage_specs manage_cleanup manage_factors : Site
  manage_creates manage_alias_deletes manage_deletes manage_adjusts : Site
  adjust_specs adjust_queue : Site
  count_collections : Site
  populate_aliases populate_collections populate_statuses : Site
  emit_events : Site
  config_maps config_uploads config_removes : Site

pub record Platform : Type 1 where
  -- The cluster outside the operator.
  pub State : Type 0
  -- The error of http.NewRequest(method, url, …), such as for a URL that cannot be parsed.
  pub new_request : String → String → Option String
  pub do_request : Request → State → Reply × State
  pub unmarshal : String → Decoded
  pub order : Order Site
  pub fetch : NamespacedName → State → Fetched
  pub update : SolrCollectionSet → State → Written × State
  pub update_status : SolrCollectionSet → State → Written × State
  -- The patch from the first object to the second.
  pub patch_status : SolrCollectionSet → SolrCollectionSet → State → Written × State
  -- The data of a secret.
  pub secret : NamespacedName → State → Option (GoMap String)
  -- r.Recorder.Eventf of a normal event: its type and text.
  pub record_event : SolrCollectionSet → String → String → State → State
  -- reflect.DeepEqual
  pub deep_equal : SolrCollectionSetStatus → SolrCollectionSetStatus → Bool
  -- sort.Slice by InstanceName
  pub sort_by_instance : List SolrCollectionStatus → List SolrCollectionStatus
  -- The embedded files: files.ReadDir, which names the entries of a directory, and files.ReadFile. The
  -- callers do not look at their errors, with which there are no entries and no contents.
  pub read_dir : String → List String
  pub read_file : String → String
  -- A zip.Writer into a buffer: zip.NewWriter, Create of an entry, Write into the entry that was created
  -- last, and Close, which gives the bytes of the buffer.
  pub Archive : Type 0
  pub zip_new : Archive
  pub zip_create : String → Archive → Outcome Archive
  pub zip_write : String → Archive → Outcome Archive
  pub zip_close : Archive → Outcome String
  -- The namespace, and the value of the label collectionSet.
  pub list_config_maps : String → String → State → Listed
  -- md5.Sum and hex.EncodeToString
  pub md5_hex : String → String
  -- base64.StdEncoding.DecodeString, whose error is not looked at
  pub base64_decode : String → Option String
  -- meta.SetStatusCondition
  pub set_status_condition : List Condition → Condition → List Condition

-- The state of the operator: the cluster, and the requests that were sent, the oldest first.
pub record World (P : Platform) : Type 0 where
  pub cluster : P.State
  pub sent : List Request

abbrev pub Go : Platform → Type 0 → Type 0
Go P A = Exec (World P) A
