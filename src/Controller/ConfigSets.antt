-- ===== src/Controller/ConfigSets.antt =====
-- `ManageConfigSets` of internal/controller/solrcollectionset_controller.go: which config sets are
-- uploaded to Solr and which are removed.
pub mod Queued
pub mod Run
pub mod Queried
pub mod Stored
pub mod Converged
pub mod Refused
use solr_collections_operato.Base.{
  String, ◌<>◌, Bool, true, not, ◌&&◌, none, some, List, [], ◌∷◌, ◌==◌, if◌then◌else◌,
}
use solr_collections_operato.Base.Text.{has_prefix}
use solr_collections_operato.Base.GoMap.{GoMap, lookup, insert, has_key}
use solr_collections_operato.Base.Outcome
use solr_collections_operato.Base.Outcome.{Outcome, ok, err}
use solr_collections_operato.Base.Exec.{◌>>=◌, ◌>>◌, pure, raise, lift, or_error}
use solr_collections_operato.Api.{SolrCollectionSet, deref}
use solr_collections_operato.Solr.{SolrClient}
use solr_collections_operato.Solr.Json.{Json, member, as_text}
use solr_collections_operato.Platform.{
  ConfigMap, listed, unlistable, Platform, Go, config_maps, config_uploads, config_removes,
}
use solr_collections_operato.Solr.Client.Commands.{
  upload_config_set, write_record, delete_config_set,
}
use solr_collections_operato.Solr.Client.Queries.{get_config_sets, query}
use solr_collections_operato.Controller.Names.{contains}

-- configMap.Data["configset"]: empty where the key is missing.
unfoldable pub config_set_data : ConfigMap → String
unfolding lookup
config_set_data cm = elim (lookup "configset" cm.contents) [ none ↦ "" | some text ↦ text ]

-- The loop that maps the config maps by their label.
unfoldable pub map_config_maps : List ConfigMap → GoMap ConfigMap → Outcome (GoMap ConfigMap)
unfolding lookup
map_config_maps [] m = ok m
map_config_maps (cm ∷ items) m = elim (lookup "collection" cm.labels) [
  | none ↦ err ("config set configmap [" <> (cm.name <> "] has no 'collection' label"))
  | some name ↦ map_config_maps items (insert name cm m)
]

-- The loop over the records of the checksum collection.
unfoldable pub read_checksums : List (GoMap Json) → GoMap String → Outcome (GoMap String)
unfolding member
read_checksums [] checksums = ok checksums
read_checksums (rec ∷ recs) checksums =
    Outcome.◌>>=◌ (as_text (member "collection" rec)) λ collection.
      Outcome.◌>>=◌ (as_text (member "checksum" rec))
        λ checksum. read_checksums recs (insert collection checksum checksums)

-- The record that is written for an uploaded config set.
unfoldable pub checksum_record : String → String → String
checksum_record collection checksum =
    "{\n\t\t\t\"collection\": \""
    <> (collection <> ("\",\n\t\t\t\"checksum\": \"" <> (checksum <> "\"\n\t\t}")))

-- The maps of config set actions to take.
pub record ConfigPlan : Type 0 where
  pub uploads : GoMap ConfigMap
  pub removes : GoMap String

-- The loop of the clean-up over the config sets that Solr has.
unfoldable pub find_removes : GoMap ConfigMap → List String → GoMap String → GoMap String
unfolding has_key
find_removes maps [] removes = removes
find_removes maps (name ∷ names) removes = find_removes maps names (
    if not (has_key name maps) && not (has_prefix name "_")
    then insert name name removes
    else removes)

module _ (P : Platform) where
  -- Solr lacks the config set, or has no checksum or another one for it.
  unfoldable pub is_outdated : List String → GoMap String → String → ConfigMap → Bool
  unfolding contains config_set_data
  is_outdated names checksums name cm =
      if contains names name
      then (elim (lookup name checksums) [
        | none ↦ true
        | some checksum ↦ not (P.md5_hex (config_set_data cm) == checksum)
      ])
      else true

  -- The loop over the config maps.
  unfoldable pub find_uploads :
      List String → GoMap String → GoMap ConfigMap → GoMap ConfigMap → GoMap ConfigMap
  unfolding is_outdated
  find_uploads names checksums [] uploads = uploads
  find_uploads names checksums ((name, cm) ∷ maps) uploads =
      find_uploads names checksums maps
        (if is_outdated names checksums name cm then insert name cm uploads else uploads)

  unfoldable pub plan_config_sets : Bool → List String → GoMap ConfigMap → GoMap String → ConfigPlan
  unfolding find_uploads find_removes
  plan_config_sets is_cleanup names maps checksums = record {
    uploads = find_uploads names checksums (P.order.visit config_maps ConfigMap maps) [];
    removes = if is_cleanup then find_removes maps names [] else [];
  }

  -- r.List(ctx, configMapList, listOps)
  unfoldable pub list_config_maps : SolrCollectionSet → Go P (List ConfigMap)
  list_config_maps set w = elim (P.list_config_maps set.namespace set.name w.cluster) [
    | listed items ↦ (ok items, w)
    | unlistable e ↦ (err e, w)
  ]

  module _ (c : SolrClient) where
    -- One round of the loop of the uploads: the config set, then its checksum.
    unfoldable pub upload_one : String → String → ConfigMap → Go P (Unit {0})
    unfolding upload_config_set write_record checksum_record config_set_data
    upload_one checksums_collection collection cm = elim (P.base64_decode (config_set_data cm)) [
      | none ↦ raise (
          "could not base64 decode 'configset' property on configmap "
          <> (cm.name <> (" for collection " <> collection)))
      | some content ↦ (do
        or_error ("could not upload configset " <> collection)
            (upload_config_set P c collection content)
        or_error
            ("could not write checksum to "
              <> (checksums_collection <> (" for collection " <> collection)))
            (write_record P c checksums_collection
              (checksum_record collection (P.md5_hex (config_set_data cm)))))
    ]

    -- The loop ends with the first error.
    unfoldable pub upload_all : String → GoMap ConfigMap → Go P (Unit {0})
    unfolding upload_one
    upload_all checksums_collection [] = pure tt
    upload_all checksums_collection ((collection, cm) ∷ uploads) = do
      upload_one checksums_collection collection cm
      upload_all checksums_collection uploads

    unfoldable pub remove_all : GoMap String → Go P (Unit {0})
    unfolding delete_config_set
    remove_all [] = pure tt
    remove_all ((name, _) ∷ removes) = do
      or_error ("could not clean up config set [" <> (name <> "]")) (delete_config_set P c name)
      remove_all removes

    unfoldable pub process_config_sets : String → ConfigPlan → Go P (Unit {0})
    unfolding upload_all remove_all
    process_config_sets checksums_collection plan = do
      upload_all checksums_collection (P.order.visit config_uploads ConfigMap plan.uploads)
      remove_all (P.order.visit config_removes String plan.removes)

    -- The pointer to the switch of the clean-up is followed after the queries.
    unfoldable pub manage_config_sets : SolrCollectionSet → String → Go P (Unit {0})
    unfolding get_config_sets query list_config_maps map_config_maps read_checksums plan_config_sets
        process_config_sets
    manage_config_sets set checksums_collection = do
      names ← get_config_sets P c
      items ← list_config_maps set
      maps ← lift (map_config_maps items [])
      recs ← query P c checksums_collection "*:*"
      checksums ← lift (read_checksums recs [])
      is_cleanup ← lift (deref set.spec.cleanup_enabled)
      process_config_sets checksums_collection (plan_config_sets is_cleanup names maps checksums)
