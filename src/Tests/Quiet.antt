-- ===== src/Tests/Quiet.antt =====
-- A platform on which everything is as the resource asks, and the answers to its queries.
use solr_collections_operato.Base.{
  refl, ℕ, String, true, false, some, [], ◌∷◌, ◌==◌, if◌then◌else◌, String-discrete,
}
use solr_collections_operato.Base.Int.{pos, add32}
use solr_collections_operato.Base.Decimal.{decimal, show_int, atoi, parse_uint}
use solr_collections_operato.Base.GoMap.{lookup, insert}
use solr_collections_operato.Api.{SolrCollectionSet}
use solr_collections_operato.Solr.{ClusterStatus}
use solr_collections_operato.Solr.Json.{text, array, item, end, object, no_fields, field}
use solr_collections_operato.Platform.{
  complete, answered, decoded, Decoded, found, listed, Platform, World,
}
use solr_collections_operato.Solr.Client.Reported.{Report}
use solr_collections_operato.Solr.Client.ClusterReport.{status_json}
use solr_collections_operato.Controller.Reconcile.Settled.{Queries}
use solr_collections_operato.Solr.Client.Entries.{fields_of}
use solr_collections_operato.Controller.Names.{checksums_collection_name}
use solr_collections_operato.Solr.Client.Queries.{get_cluster_status, get_config_sets, query}
use solr_collections_operato.Controller.ConfigSets.{map_config_maps, read_checksums}
use solr_collections_operato.Tests.Data.{
  platform_on, client, config_map, set_asking, books, collection, no_status,
}

abbrev two_replicas : Report
two_replicas = record {
  config_name = "conf";
  factor = pos 2;
  replicas =
      field "core_node3" (object no_fields) (field "core_node5" (object no_fields) no_fields);
}

-- The body of an answer is the address of the request; this is what it decodes to.
abbrev answer : String → Decoded
answer url =
    if url == "http://solr/solr/admin/collections?action=CLUSTERSTATUS"
    then decoded (
        status_json (record {
          reports = ("books", two_replicas) ∷ ("_libraryChecksums", two_replicas) ∷ [];
          aliases = [];
        }))
    else if url == "http://solr/solr/admin/configs?action=LIST&wt=json"
    then decoded (("configSets", array (item (text "books") end)) ∷ [])
    else decoded (
        (
          "response",
          object (
              field "docs"
                (array (
                  item
                    (object
                      (field "collection" (text "books") (field "checksum" (text "b1") no_fields)))
                    end))
                no_fields),
        )
        ∷ [])

abbrev pub set : SolrCollectionSet
set = record (set_asking (some false) (some true) (books ∷ [])) {
  status = record no_status {
    conditions = record { kind = "Stable"; status = "True"; reason = "stable"; message = "" } ∷ [];
    ready_ratio = "1/1";
    scale_status = "Stable";
  };
}

abbrev pub quiet : Platform
quiet = record (platform_on ℕ (λ req s. ℕ.suc s)) {
  do_request = λ req s. (
    answered (record { status_code = 200; status = "200 OK"; body = complete req.url }),
    ℕ.suc s,
  );
  unmarshal = answer;
  fetch = λ key s. found set;
  deep_equal = λ s t. s.ready_ratio == t.ready_ratio;
  list_config_maps = λ namespace name s. listed (config_map "books" "b1" ∷ []);
}

abbrev pub start : World quiet
start = record { cluster = 0; sent = [] }

abbrev pub cluster : ClusterStatus
cluster = record {
  collections =
      ("books", collection "books" 2 2)
      ∷ ("_libraryChecksums", collection "_libraryChecksums" 2 2)
      ∷ [];
  aliases = [];
}

unfoldable pub queries : Queries quiet client set start
unfolding get_cluster_status get_config_sets query map_config_maps read_checksums lookup insert
    String-discrete decimal show_int fields_of atoi add32 parse_uint checksums_collection_name
queries = record {
  cluster = cluster;
  status = refl;
  config = record {
    names = "books" ∷ [];
    config_sets = refl;
    items = config_map "books" "b1" ∷ [];
    config_maps = refl;
    maps = ("books", config_map "books" "b1") ∷ [];
    mapped = refl;
    records = _;
    answered = refl;
    checksums = ("books", "b1") ∷ [];
    checked = refl;
  };
}
