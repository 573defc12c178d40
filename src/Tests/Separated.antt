-- ===== src/Tests/Separated.antt =====
-- The small Solr as a whole, and what its requests leave alone.
use text.Mathlib.TextLemmas.{append_assoc}
use text.Mathlib.TextPositions.{starts_with-append}
use solr_collections_operato.Base.{
  ◌≡◌, refl, sym, ap, ◌∙◌, String, ◌<>◌, true, arith, String-discrete,
}
use solr_collections_operato.Base.Decimal.{decimal, show_int}
use solr_collections_operato.Base.Text.{has_prefix}
use solr_collections_operato.Platform.{Request, NamespacedName}
use solr_collections_operato.Solr.Client.Commands.{
  upload_config_set_request, write_record_request, delete_config_set_request,
  create_collection_request, assign_alias_request, delete_alias_request, delete_collection_request,
  set_replication_factor_request, add_replicas_request, remove_replicas_request,
}
use solr_collections_operato.Solr.Client.Queries.{query_request}
use solr_collections_operato.Solr.Client.Queried.{config_sets_request}
use solr_collections_operato.Solr.Client.ClusterReport.{status_request}
use solr_collections_operato.Solr.ConfigStore.{Sets}
use solr_collections_operato.Controller.Names.{checksums_collection_name}
use solr_collections_operato.Controller.Reconcile.Deployment.{SolrSystem, IsSeparate}
use solr_collections_operato.Tests.Data.{client}
use solr_collections_operato.Tests.Quiet.{set}
use solr_collections_operato.Tests.Deployment.{
  Store, store, checksums, contents, sets, deletes_set, visited, effect, platform,
}
use solr_collections_operato.Tests.Converging.{small_cluster}
use solr_collections_operato.Tests.Stored.{small_store, small_replicas}

abbrev pub key : NamespacedName
key = record { name = "library"; namespace = "default" }

unfoldable pub system : SolrSystem platform client key set 2
unfolding checksums_collection_name small_cluster small_store small_replicas
system = record {
  cluster = small_cluster;
  store = small_store;
  replicas = small_replicas;
  same_collections = λ s n. refl;
  same_configs = λ s n. refl;
  enough = λ s. omega arith;
}

-- A GET changes neither the config sets nor the checksums.
visited_sets : (url : String) (s : Store) → sets (visited url s) ≡ sets s
unfolding visited
visited_sets url (store b f h k) = ground arith

get_sets : (req : Request) (s : Store) → req.content_type ≡ "" → sets (effect req s) ≡ sets s
unfolding effect String-discrete
get_sets req s e = rw e (visited_sets req.url s)

-- What a POST changes is a config set or a checksum.
upload_contents :
    (name content : String) (s : Store)
    → contents (effect (upload_config_set_request client name content) s) ≡ contents s
unfolding effect upload_config_set_request String-discrete
upload_contents name content (store b f h k) = ground arith

write_contents :
    (name content : String) (s : Store)
    → contents (effect (write_record_request client name content) s) ≡ contents s
unfolding effect write_record_request String-discrete
write_contents name content (store b f h k) = ground arith

delete_prefix :
    (name : String) → has_prefix (delete_config_set_request client name).url deletes_set ≡ true
unfolding delete_config_set_request
delete_prefix name =
    ap (λ url. has_prefix url deletes_set)
      (sym
        (append_assoc "http://solr/solr" "/admin/configs?action=DELETE&name=" (name <> "&wt=json")))
    ∙ starts_with-append deletes_set (name <> "&wt=json")

delete_set_effect :
    (name : String) (s : Store) → effect (delete_config_set_request client name) s ≡ s
unfolding effect visited delete_config_set_request String-discrete
delete_set_effect name s = rw (delete_prefix name) refl

status_effect : (s : Store) → effect (status_request client) s ≡ s
unfolding effect visited String-discrete show_int decimal
status_effect (store b f h k) = refl

sets_effect : (s : Store) → effect (config_sets_request client) s ≡ s
unfolding effect visited String-discrete show_int decimal
sets_effect (store b f h k) = refl

query_effect : (s : Store) → effect (query_request platform client checksums "*:*") s ≡ s
unfolding effect visited query_request String-discrete show_int decimal
query_effect (store b f h k) = refl

same : (s t : Store) → s ≡ t → (contents s ≡ contents t) × (sets s ≡ sets t)
same s t e = (ap contents e, ap sets e)

same_sets :
    (req : Request) (s : Store)
    → req.content_type ≡ ""
    → ((n : String) → (sets (effect req s)).has_set n ≡ (sets s).has_set n)
      × ((n : String) → (sets (effect req s)).checksum n ≡ (sets s).checksum n)
same_sets req s e = (
  λ n. ap (λ (x : Sets). x.has_set n) (get_sets req s e),
  λ n. ap (λ (x : Sets). x.checksum n) (get_sets req s e),
)

pub separate : IsSeparate platform client key set 2 system
unfolding system small_cluster small_store small_replicas create_collection_request
    assign_alias_request delete_alias_request delete_collection_request
    set_replication_factor_request add_replicas_request remove_replicas_request
    checksums_collection_name
separate = record {
  query_status = λ s. same _ s (status_effect s);
  query_sets = λ s. same _ s (sets_effect s);
  query_checksums = λ s. same _ s (query_effect s);
  upload = upload_contents;
  write = write_contents;
  delete_set = λ name s. ap contents (delete_set_effect name s);
  create = λ name config s. same_sets _ s refl;
  assign = λ name target s. same_sets _ s refl;
  delete_alias = λ name s. same_sets _ s refl;
  delete = λ name s. same_sets _ s refl;
  modify = λ name s. same_sets _ s refl;
  add = λ name count s. same_sets _ s refl;
  remove = λ name count s. same_sets _ s refl;
}
