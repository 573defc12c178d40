-- ===== src/Tests/Deployment.antt =====
-- A small Solr with one collection beside the one for the checksums, and a Kubernetes that keeps the
-- resource and a config map.
use solr_collections_operato.Base.{
  ◌||◌, ℕ, String, Bool, true, false, ◌&&◌, none, some, List, [], ◌∷◌, ◌==◌, if◌then◌else◌,
}
use solr_collections_operato.Base.Int.{pos}
use solr_collections_operato.Base.Text.{has_prefix}
use solr_collections_operato.Base.GoMap.{GoMap}
use solr_collections_operato.Solr.{Collection, ClusterStatus}
use solr_collections_operato.Solr.Cluster.{Contents}
use solr_collections_operato.Solr.ConfigStore.{Sets}
use solr_collections_operato.Solr.Json.{Items, text, array, item, end, object, no_fields, field}
use solr_collections_operato.Solr.Client.Reported.{Report}
use solr_collections_operato.Solr.Client.ClusterReport.{status_json}
use solr_collections_operato.Solr.Client.Commands.{
  upload_config_set_request, write_record_request, create_collection_request,
  delete_collection_request, add_replicas_request,
}
use solr_collections_operato.Controller.ConfigSets.{checksum_record}
use solr_collections_operato.Platform.{
  Request, complete, answered, decoded, Decoded, found, listed, Platform,
}
use solr_collections_operato.Tests.Data.{platform_on, client, config_map}
use solr_collections_operato.Tests.Quiet.{set}

-- Whether the collection is there, whether the one for the checksums has both of its replicas, and
-- whether the config set and its checksum are there.
pub data Store : Type 0 where
  store : Bool → Bool → Bool → Bool → Store

abbrev pub checksums : String
checksums = "_libraryChecksums"

abbrev pub with_count : ℕ → String → Collection
with_count count name = record {
  name = name;
  replication_factor = pos 2;
  replica_count = pos count;
  config_name = "books";
}

abbrev pub sums_collection : Bool → Collection
sums_collection f = if f then with_count 2 checksums else with_count 1 checksums

abbrev pub contents : Store → Contents
contents (store b f h k) = record {
  collection = λ n.
      if n == "books"
      then if b then some (with_count 2 "books") else none
      else if n == checksums
      then some (sums_collection f)
      else none;
  alias = λ n. none;
}

-- No config set is ever unused, and Solr removes none.
abbrev pub sets : Store → Sets
sets (store b f h k) = record {
  has_set = λ n. n == "books" && h;
  checksum = λ n. if n == "books" && k then some "b1" else none;
  is_unused = λ n. false;
}

-- Solr makes no collection of a config set that is not there.
abbrev pub add_books : Store → Store
add_books (store b f h k) = store (b || h) f h k

abbrev pub remove_books : Store → Store
remove_books (store b f h k) = store false f h k

abbrev pub fill : Store → Store
fill (store b f h k) = store b true h k

abbrev pub add_set : Store → Store
add_set (store b f h k) = store b f true k

abbrev pub add_sum : Store → Store
add_sum (store b f h k) = store b f h true

abbrev pub deletes_set : String
deletes_set = "http://solr/solr/admin/configs?action=DELETE&name="

-- What a GET does, by its address.
unfoldable pub visited : String → Store → Store
unfolding create_collection_request delete_collection_request add_replicas_request
visited url s =
    if has_prefix url deletes_set
    then s
    else if url == (create_collection_request client "books" "books" (pos 2)).url
    then add_books s
    else if url == (delete_collection_request client "books").url
    then remove_books s
    else if url == (add_replicas_request client checksums (pos 1)).url
    then fill s
    else s

unfoldable pub effect : Request → Store → Store
unfolding upload_config_set_request write_record_request checksum_record visited
effect req s =
    if req.content_type == "application/octet-stream"
    then if req.url == (upload_config_set_request client "books" "").url then add_set s else s
    else if req.content_type == "application/json"
    then if req.body == (write_record_request client checksums (checksum_record "books" "b1")).body
      then add_sum s
      else s
    else visited req.url s

-- The body of an answer names the query and what there is; this is what it decodes to.
abbrev answer : String → Store → String
answer url (store b f h k) =
    if url == "http://solr/solr/admin/collections?action=CLUSTERSTATUS"
    then if b
      then if f then "books and full" else "books and short"
      else if f
      then "full"
      else "short"
    else if url == "http://solr/solr/admin/configs?action=LIST&wt=json"
    then if h then "config set" else "no config set"
    else if k
    then "checksum"
    else "no checksum"

abbrev one_replica : Report
one_replica = record {
  config_name = "books";
  factor = pos 2;
  replicas = field "core_node3" (object no_fields) no_fields;
}

abbrev two_replicas : Report
two_replicas = record one_replica {
  replicas =
      field "core_node3" (object no_fields) (field "core_node5" (object no_fields) no_fields);
}

abbrev status_answer : GoMap Report → Decoded
status_answer reports = decoded (status_json (record { reports = reports; aliases = [] }))

abbrev docs_answer : Items → Decoded
docs_answer docs = decoded (("response", object (field "docs" (array docs) no_fields)) ∷ [])

abbrev decode : String → Decoded
decode body =
    if body == "books and full"
    then status_answer (("books", two_replicas) ∷ (checksums, two_replicas) ∷ [])
    else if body == "books and short"
    then status_answer (("books", two_replicas) ∷ (checksums, one_replica) ∷ [])
    else if body == "full"
    then status_answer ((checksums, two_replicas) ∷ [])
    else if body == "short"
    then status_answer ((checksums, one_replica) ∷ [])
    else if body == "config set"
    then decoded (("configSets", array (item (text "books") end)) ∷ [])
    else if body == "no config set"
    then decoded (("configSets", array end) ∷ [])
    else if body == "checksum"
    then docs_answer (
        item (object (field "collection" (text "books") (field "checksum" (text "b1") no_fields)))
          end)
    else docs_answer end

abbrev pub platform : Platform
platform = record (platform_on Store effect) {
  do_request = λ req s. (
    answered (record { status_code = 200; status = "200 OK"; body = complete (answer req.url s) }),
    effect req s,
  );
  unmarshal = decode;
  fetch = λ key s. found set;
  list_config_maps = λ namespace name s. listed (config_map "books" "b1" ∷ []);
}

-- What the small Solr reports.
abbrev pub status : Store → ClusterStatus
status (store b f h k) = record {
  collections =
      (if b
        then ("books", with_count 2 "books") ∷ (checksums, sums_collection f) ∷ []
        else (checksums, sums_collection f) ∷ []);
  aliases = [];
}

abbrev pub names : Store → List String
names (store b f h k) = if h then "books" ∷ [] else []

abbrev pub sums : Store → GoMap String
sums (store b f h k) = if k then ("books", "b1") ∷ [] else []
