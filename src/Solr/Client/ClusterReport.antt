-- ===== src/Solr/Client/ClusterReport.antt =====
-- What `GetClusterStatus` makes of the report of a whole cluster.
use mathlib.Core.Option.{map as map_option}
use solr_collections_operato.Base.{
  ◌<◌, ◌≡◌, refl, ◌∙◌, ap, String, none, some, [], ◌∷◌, arith, length, ◌<>◌, String-discrete,
}
use solr_collections_operato.Base.Int.{pos, IsInt32}
use solr_collections_operato.Base.GoMap.{GoMap, IsFair, lookup, NodupKeys}
use solr_collections_operato.Base.Outcome.{ok}
use solr_collections_operato.Solr.{SolrClient, Collection, ClusterStatus}
use solr_collections_operato.Solr.Json.{
  Json, text, object, Fields, no_fields, field, entries, as_text, as_object, member,
}
use solr_collections_operato.Platform.{
  Request, Response, answered, complete, decoded, Platform, World, status_aliases,
  status_collections,
}
use solr_collections_operato.Solr.Client.{
  request, query_json, send, check_request, do_request, require_ok, read_body, decode,
}
use solr_collections_operato.Solr.Client.Delivery.{after}
use solr_collections_operato.Solr.Client.Queries.{
  read_collection, aliases_of, collections_of, cluster_status_of, get_cluster_status,
}
use solr_collections_operato.Solr.Client.Reported.{Report, report_json, read_collection-report_json}
use solr_collections_operato.Solr.Client.Entries.{
  read_entries-fields_of, read_aliases_lem, read_collections_lem, fields_of,
}

-- The numbers of a report are in the range of `int32`.
abbrev pub IsReadable : Report → Type 0
IsReadable r = IsInt32 r.factor × (length (entries r.replicas) < 2147483648)

-- A cluster as Solr reports it: its collections, and its aliases if it has any.
pub record ClusterReport : Type 0 where
  pub reports : GoMap Report
  pub aliases : GoMap String

-- Solr leaves the aliases out where there are none.
abbrev pub with_aliases : GoMap String → Fields → Fields
with_aliases [] fs = fs
with_aliases aliases fs = field "aliases" (object (fields_of text aliases)) fs

abbrev cluster_fields : ClusterReport → Fields
cluster_fields r =
    with_aliases r.aliases
      (field "collections" (object (fields_of report_json r.reports)) no_fields)

abbrev pub status_json : ClusterReport → GoMap Json
status_json r = ("cluster", object (cluster_fields r)) ∷ []

abbrev pub status_request : SolrClient → Request
status_request c = request c "GET" (c.url <> "/admin/collections?action=CLUSTERSTATUS") "" ""

-- The collection that a report is about.
abbrev pub reported : String → Report → Collection
reported name r = record {
  name = name;
  replication_factor = r.factor;
  replica_count = pos (length (entries r.replicas));
  config_name = r.config_name;
}

member_cluster :
    (fs : Fields) → as_object (member "cluster" (("cluster", object fs) ∷ [])) ≡ ok (entries fs)
unfolding member lookup String-discrete
member_cluster fs = refl

member_collections :
    (aliases : GoMap String) (value : Json)
    → member "collections" (entries (with_aliases aliases (field "collections" value no_fields)))
      ≡ value
unfolding member lookup String-discrete
member_collections [] value = refl
member_collections (_ ∷ _) value = refl

module _ (P : Platform) (fair : IsFair P.order) where
  collections_of-fields_of :
      (reports : GoMap Report)
      → NodupKeys reports
      → ((n : String) (r : Report) → lookup n reports ≡ some r → IsReadable r)
      → (out : GoMap Collection) × (collections_of P (object (fields_of report_json reports))
          ≡ ok out)
        × NodupKeys out
        × ((n : String) → lookup n out ≡ map_option (reported n) (lookup n reports))
  unfolding collections_of
  collections_of-fields_of reports u readable =
      let (out, e, nodup, known) =
        read_entries-fields_of P fair status_collections (read_collection P) report_json reported
          reports u
          (λ n r there.
            let (factor, replicas) = readable n r there in
            read_collection-report_json P fair n r factor replicas) in
      (out, read_collections_lem P _ [] ∙ e, nodup, known)

  aliases_of-fields_of :
      (aliases : GoMap String)
      → NodupKeys aliases
      → (out : GoMap String) × (aliases_of P (object (fields_of text aliases)) ≡ ok out)
        × ((n : String) → lookup n out ≡ lookup n aliases)
  unfolding aliases_of
  aliases_of-fields_of aliases u =
      let (out, e, nodup, known) =
        read_entries-fields_of P fair status_aliases (λ k. as_text) text (λ n target. target)
          aliases u (λ n target there. refl) in
      (out, read_aliases_lem _ [] ∙ e, λ n. ground (arith, known n))

  aliases_of-member :
      (aliases : GoMap String) (value : Json)
      → NodupKeys aliases
      → (out : GoMap String) × (aliases_of P (
            member "aliases" (entries (with_aliases aliases (field "collections" value no_fields))))
          ≡ ok out)
        × ((n : String) → lookup n out ≡ lookup n aliases)
  unfolding member aliases_of lookup String-discrete
  aliases_of-member [] value u = ([], refl, λ n. refl)
  aliases_of-member (a ∷ aliases) value u = aliases_of-fields_of (a ∷ aliases) u

  cluster_status_of-members :
      (json : GoMap Json) (aliases : GoMap String) (collections : GoMap Collection) (fs : Fields)
      → as_object (member "cluster" json) ≡ ok (entries fs)
      → aliases_of P (member "aliases" (entries fs)) ≡ ok aliases
      → collections_of P (member "collections" (entries fs)) ≡ ok collections
      → cluster_status_of P json ≡ ok (record { collections = collections; aliases = aliases })
  unfolding cluster_status_of
  cluster_status_of-members json aliases collections fs e f g = rw (e, f, g) refl

  -- The status that is read from the report of a cluster.
  cluster_status_of-status_json :
      (r : ClusterReport)
      → NodupKeys r.reports
      → NodupKeys r.aliases
      → ((n : String) (x : Report) → lookup n r.reports ≡ some x → IsReadable x)
      → (status : ClusterStatus) × (cluster_status_of P (status_json r) ≡ ok status)
        × NodupKeys status.collections
        × ((n : String)
            → lookup n status.collections ≡ map_option (reported n) (lookup n r.reports))
        × ((n : String) → lookup n status.aliases ≡ lookup n r.aliases)
  cluster_status_of-status_json r u v readable =
      let (aliases, e, known) =
        aliases_of-member r.aliases (object (fields_of report_json r.reports)) v in
      let (collections, f, nodup, found) = collections_of-fields_of r.reports u readable in
      (
        record { collections = collections; aliases = aliases },
        cluster_status_of-members (status_json r) aliases collections (cluster_fields r)
            (member_cluster (cluster_fields r)) e
            (ap (collections_of P)
                (member_collections r.aliases (object (fields_of report_json r.reports)))
              ∙ f),
        nodup,
        found,
        known,
      )

  -- The answer of Solr is decoded.
  query_json-decoded :
      (req : Request) (what : String) (w : World P) (resp : Response) (body : String)
      (json : GoMap Json)
      → P.new_request req.method req.url ≡ none
      → (P.do_request req w.cluster).0 ≡ answered resp
      → resp.status_code ≡ 200
      → resp.body ≡ complete body
      → P.unmarshal body ≡ decoded json
      → query_json P req what w ≡ (ok json, after P req w)
  unfolding query_json send check_request do_request require_ok read_body decode after
  query_json-decoded req what w resp body json made reply fine whole e =
      rw
        (
          made, reply, fine, whole, e, query_json, send, check_request, do_request, require_ok,
          read_body, decode, after,
        )
        refl

  -- On a platform whose loops are fair, where the HTTP library accepts the request for the cluster
  -- status and Solr answers it with 200 and a body that decodes to the report of its collections, with
  -- replication factors of the range of `int32` and fewer than 2³¹ replicas each, and of its aliases,
  -- which are left out where there are none, and nothing is listed twice: GetClusterStatus makes this
  -- request and no other, and returns a status with exactly these collections and aliases, no
  -- collection twice.
  pub get_cluster_status-status_json :
      (c : SolrClient) (w : World P) (r : ClusterReport) (resp : Response) (body : String)
      → NodupKeys r.reports
      → NodupKeys r.aliases
      → ((n : String) (x : Report) → lookup n r.reports ≡ some x → IsReadable x)
      → P.new_request (status_request c).method (status_request c).url ≡ none
      → (P.do_request (status_request c) w.cluster).0 ≡ answered resp
      → resp.status_code ≡ 200
      → resp.body ≡ complete body
      → P.unmarshal body ≡ decoded (status_json r)
      → (status : ClusterStatus) × (get_cluster_status P c w
          ≡ (ok status, after P (status_request c) w))
        × NodupKeys status.collections
        × ((n : String)
            → lookup n status.collections ≡ map_option (reported n) (lookup n r.reports))
        × ((n : String) → lookup n status.aliases ≡ lookup n r.aliases)
  unfolding get_cluster_status
  get_cluster_status-status_json c w r resp body u v readable made reply fine whole e =
      let (status, read, nodup, found, known) = cluster_status_of-status_json r u v readable in
      (
        status,
        rw
            (
              query_json-decoded (status_request c) "could not get cluster status" w resp body
                  (status_json r) made reply fine whole e,
              read,
            )
            refl,
        nodup,
        found,
        known,
      )
