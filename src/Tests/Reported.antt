-- ===== src/Tests/Reported.antt =====
-- What the client reads from a report, at concrete data.
use mathlib.Core.Option.{map as map_option}
use solr_collections_operato.Base.{◌≡◌, ◌≢◌, ◌↔◌, refl, arith, length, String, some, [], ◌∷◌}
use mathlib.Core.Path.{subst}
use solr_collections_operato.Base.GoMap.{lookup, NodupKeys}
use solr_collections_operato.Solr.{ClusterStatus}
use solr_collections_operato.Platform.{Response, complete, decoded, Platform, World}
use solr_collections_operato.Solr.Client.{command, parse_error}
use solr_collections_operato.Solr.Client.Commands.{delete_collection_request}
use solr_collections_operato.Solr.Client.Accepted.{IsAnswered, command-outcome}
use solr_collections_operato.Solr.Client.Delivery.{after}
use solr_collections_operato.Solr.Client.ClusterReport.{
  ClusterReport, IsReadable, status_json, status_request, reported, get_cluster_status-status_json,
}
use solr_collections_operato.Base.Int.{pos, negsuc}
use solr_collections_operato.Base.Decimal.{show_int}
use solr_collections_operato.Base.Outcome.{ok, panic}
use solr_collections_operato.Solr.Json.{
  text, int64, object, Fields, no_fields, field, entries, interface_to_int32,
}
use solr_collections_operato.Solr.Client.Queries.{read_collection, get_cluster_status}
use solr_collections_operato.Solr.Client.Reported.{
  Report, report_json, interface_to_int32-show_int, read_collection-report_json,
}
use solr_collections_operato.Tests.Data.{in_order-IsFair as fair, platform, client, start as begin}

interface_to_int32-show_int_example :
    (interface_to_int32 (text (show_int (negsuc 41))) ≡ ok (negsuc 41))
    × (interface_to_int32 (int64 (negsuc 41)) ≡ ok (negsuc 41))
interface_to_int32-show_int_example = interface_to_int32-show_int (negsuc 41) (omega arith)

abbrev two_replicas : Fields
two_replicas =
    field "core_node3" (object no_fields) (field "core_node5" (object no_fields) no_fields)

abbrev books_report : Report
books_report = record { config_name = "conf"; factor = pos 2; replicas = two_replicas }

read_collection-report_json_example :
    read_collection platform "books" (report_json books_report)
    ≡ ok (record {
      name = "books";
      replication_factor = pos 2;
      replica_count = pos (length (entries two_replicas));
      config_name = "conf";
    })
read_collection-report_json_example =
    read_collection-report_json platform fair "books" books_report (omega arith) (omega arith)

abbrev report : ClusterReport
report = record { reports = ("books", books_report) ∷ []; aliases = ("shelf", "books") ∷ [] }

-- The body of every answer decodes to the report.
abbrev reporting : Platform
reporting = record platform { unmarshal = λ body. decoded (status_json report) }

abbrev start : World reporting
start = record { cluster = 0; sent = [] }

readable : (n : String) (r : Report) → lookup n report.reports ≡ some r → IsReadable r
unfolding lookup
readable n r e =
    let same : books_report ≡ r = ground arith in subst IsReadable same (omega arith, omega arith)

get_cluster_status-status_json_example :
    (status : ClusterStatus) × (get_cluster_status reporting client start
      ≡ (ok status, after reporting (status_request client) start))
    × NodupKeys status.collections
    × ((n : String)
        → lookup n status.collections ≡ map_option (reported n) (lookup n report.reports))
    × ((n : String) → lookup n status.aliases ≡ lookup n report.aliases)
unfolding lookup
get_cluster_status-status_json_example =
    get_cluster_status-status_json reporting fair client start report
      (record { status_code = 200; status = "200 OK"; body = complete "" }) "" (refl, tt) (refl, tt)
      readable refl refl refl refl refl

command-outcome_example :
    let req = delete_collection_request client "old" in
    ((command platform req "failed" begin).0 ≡ ok tt ↔ (
      (resp : Response) × IsAnswered platform req "failed" begin resp × (resp.status_code ≡ 200)))
    × ((command platform req "failed" begin).0 ≡ panic ↔ (
        (resp : Response) × IsAnswered platform req "failed" begin resp
        × ((resp.status_code ≢ 200) × (parse_error platform resp.body ≡ panic))))
    × ((command platform req "failed" begin).1 ≡ after platform req begin)
command-outcome_example =
    command-outcome platform (delete_collection_request client "old") "failed" begin
