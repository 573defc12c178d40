-- ===== src/Solr/Client/Commands.antt =====
-- internal/controller/solr_api/solr_client.go: the operations that change the cluster. Each has the
-- request that it sends, and the text that its error begins with.
use solr_collections_operato.Base.{
  String, ◌<>◌, Bool, true, false, Option, none, some, eqb, if◌then◌else◌,
}
use solr_collections_operato.Base.Int.{ℤ}
use solr_collections_operato.Base.Text.{has_infix}
use solr_collections_operato.Base.Decimal.{show_int}
use solr_collections_operato.Base.Outcome.{Outcome, ok, err, panic}
use solr_collections_operato.Base.Exec.{◌>>=◌, or_error, lift}
use solr_collections_operato.Solr.{SolrClient}
use solr_collections_operato.Platform.{Request, Response, Platform, World, Go}
use solr_collections_operato.Solr.Client.{request, check_request, do_request, parse_error, command}

module _ (c : SolrClient) where
  unfoldable pub upload_config_set_request : String → String → Request
  unfolding request
  upload_config_set_request config_set_name content =
      request c "POST"
        (c.url
          <> ("/admin/configs?action=UPLOAD&name="
              <> (config_set_name <> "&overwrite=true&cleanup=true&wt=json")))
        "application/octet-stream" content

  unfoldable pub delete_config_set_request : String → Request
  unfolding request
  delete_config_set_request config_set_name =
      request c "GET"
        (c.url <> ("/admin/configs?action=DELETE&name=" <> (config_set_name <> "&wt=json"))) "" ""

  unfoldable pub set_replication_factor_request : String → ℤ → Request
  unfolding request
  set_replication_factor_request collection_name factor =
      request c "GET"
        (c.url
          <> ("/admin/collections?action=MODIFYCOLLECTION&collection="
              <> (collection_name <> ("&replicationFactor=" <> (show_int factor <> "&wt=json")))))
        "" ""

  unfoldable pub remove_replicas_request : String → ℤ → Request
  unfolding request
  remove_replicas_request collection_name decrease_count =
      request c "GET"
        (c.url
          <> ("/admin/collections?action=DELETEREPLICA&collection="
              <> (collection_name
                  <> ("&shard=shard1&count=" <> (show_int decrease_count <> "&wt=json")))))
        "" ""

  unfoldable pub create_collection_request : String → String → ℤ → Request
  unfolding request
  create_collection_request collection_name config_set_name factor =
      request c "GET"
        (c.url
          <> ("/admin/collections?action=CREATE&name="
              <> (collection_name
                  <> ("&collection.configName="
                      <> (config_set_name
                          <> ("&numShards=1&replicationFactor="
                              <> (show_int factor <> "&autoAddReplicas=true&wt=json")))))))
        "" ""

  unfoldable pub assign_alias_request : String → String → Request
  unfolding request
  assign_alias_request alias collection_name =
      request c "GET"
        (c.url
          <> ("/admin/collections?action=CREATEALIAS&name="
              <> (alias <> ("&collections=" <> collection_name))))
        "" ""

  unfoldable pub delete_alias_request : String → Request
  unfolding request
  delete_alias_request alias =
      request c "GET" (c.url <> ("/admin/collections?action=DELETEALIAS&name=" <> alias)) "" ""

  unfoldable pub reload_collection_request : String → Request
  unfolding request
  reload_collection_request collection_name =
      request c "GET" (c.url <> ("/admin/collections?action=RELOAD&name=" <> collection_name)) "" ""

  unfoldable pub delete_collection_request : String → Request
  unfolding request
  delete_collection_request collection_name =
      request c "GET" (c.url <> ("/admin/collections?action=DELETE&name=" <> collection_name)) "" ""

  unfoldable pub write_record_request : String → String → Request
  unfolding request
  write_record_request collection_name content =
      request c "POST" (c.url <> ("/" <> (collection_name <> "/update?commit=true")))
        "application/json" ("[" <> (content <> "]"))

  unfoldable pub add_replicas_request : String → ℤ → Request
  unfolding request
  add_replicas_request collection_name increase_count =
      request c "GET"
        (c.url
          <> ("/admin/collections?action=ADDREPLICA&collection="
              <> (collection_name
                  <> ("&shard=shard1&nrtReplicas=" <> (show_int increase_count <> "&wt=json")))))
        "" ""

module _ (P : Platform) where
  -- The answer of ADDREPLICA: whether Solr waits for nodes, and the error.
  unfoldable pub added : String → Response → Go P (Bool × Option String)
  unfolding parse_error has_infix
  added collection_name resp w =
      if eqb resp.status_code 200
      then (ok (false, none), w)
      else (lift (parse_error P resp.body) >>= λ msg w'.
            if has_infix msg "Not enough eligible nodes"
            then (
              ok (
                true,
                some (
                    "add replicas failed for collection ["
                    <> (collection_name <> "] because there aren't enough nodes")),
              ),
              w',
            )
            else (
              ok (
                false,
                some (
                    "add replicas failed for collection ["
                    <> (collection_name
                        <> ("] with [" <> (resp.status <> ("] [" <> (msg <> "]")))))),
              ),
              w',
            ))
          w

  -- return false, err
  abbrev pub with_flag :
      Outcome (Bool × Option String) × World P → Outcome (Bool × Option String) × World P
  with_flag (ok r, w) = (ok r, w)
  with_flag (err e, w) = (ok (false, some e), w)
  with_flag (panic, w) = (panic, w)

module _ (P : Platform) (c : SolrClient) where
  unfoldable pub upload_config_set : String → String → Go P (Unit {0})
  unfolding command upload_config_set_request
  upload_config_set config_set_name content =
      command P (upload_config_set_request c config_set_name content)
        ("create config set " <> (config_set_name <> " failed with"))

  unfoldable pub delete_config_set : String → Go P (Unit {0})
  unfolding command delete_config_set_request
  delete_config_set config_set_name =
      command P (delete_config_set_request c config_set_name)
        ("delete config set " <> (config_set_name <> " failed with"))

  unfoldable pub set_replication_factor : String → ℤ → Go P (Unit {0})
  unfolding command set_replication_factor_request
  set_replication_factor collection_name factor =
      command P (set_replication_factor_request c collection_name factor)
        ("set replication factor failed on collection [" <> (collection_name <> "] with"))

  unfoldable pub remove_replicas : String → ℤ → Go P (Unit {0})
  unfolding command remove_replicas_request
  remove_replicas collection_name decrease_count =
      command P (remove_replicas_request c collection_name decrease_count)
        ("remove replicas failed on collection " <> (collection_name <> " failed with"))

  unfoldable pub create_collection : String → String → ℤ → Go P (Unit {0})
  unfolding command create_collection_request
  create_collection collection_name config_set_name factor =
      command P (create_collection_request c collection_name config_set_name factor)
        ("create collection " <> (collection_name <> " failed with"))

  unfoldable pub assign_alias : String → String → Go P (Unit {0})
  unfolding command assign_alias_request
  assign_alias alias collection_name = command P (assign_alias_request c alias collection_name) (
      "create alias [" <> (alias <> ("] for collection [" <> (collection_name <> "] failed with"))))

  unfoldable pub delete_alias : String → Go P (Unit {0})
  unfolding command delete_alias_request
  delete_alias alias =
      command P (delete_alias_request c alias) ("remove alias [" <> (alias <> "] failed"))

  unfoldable pub reload_collection : String → Go P (Unit {0})
  unfolding command reload_collection_request
  reload_collection collection_name =
      command P (reload_collection_request c collection_name)
        ("relocal collection " <> (collection_name <> " failed with"))

  unfoldable pub delete_collection : String → Go P (Unit {0})
  unfolding command delete_collection_request
  delete_collection collection_name =
      command P (delete_collection_request c collection_name)
        ("delete collection [" <> (collection_name <> "] failed with"))

  unfoldable pub write_record : String → String → Go P (Unit {0})
  unfolding command write_record_request
  write_record collection_name content =
      command P (write_record_request c collection_name content)
        ("write to collection " <> (collection_name <> " failed with"))

  unfoldable pub add_replicas : String → ℤ → Go P (Bool × Option String)
  unfolding check_request do_request added add_replicas_request
  add_replicas collection_name increase_count w = with_flag P (
      (do
        checked ← check_request P (add_replicas_request c collection_name increase_count)
        resp ← or_error "request failed" (do_request P checked)
        added P collection_name resp)
        w)
