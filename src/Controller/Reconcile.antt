-- ===== src/Controller/Reconcile.antt =====
-- The main loop of internal/controller/solrcollectionset_controller.go: `Reconcile`, and the methods
-- that it calls before the collections are managed.
pub mod Loop
pub mod Handled
pub mod Errors
pub mod Caught
pub mod Quiet
pub mod Settled
pub mod Initialized
pub mod Blocked
pub mod Deployment
pub mod Announced
pub mod Provided
pub mod Placed
pub mod Scaled
pub mod Managed
pub mod Converged
use solr_collections_operato.Base.{
  ℕ, String, ◌<>◌, Bool, true, false, not, ◌&&◌, Option, none, some, [], ◌∷◌, ◌==◌, if◌then◌else◌,
}
use solr_collections_operato.Base.Int.{ℤ}
use solr_collections_operato.Base.GoMap.{GoMap, lookup, has_key}
use solr_collections_operato.Base.Outcome.{Outcome, ok, err, panic}
use solr_collections_operato.Base.Exec.{Exec, ◌>>=◌, ◌>>◌, pure, raise, lift}
use solr_collections_operato.Api.{
  Condition, SolrCollectionSetStatus, SolrCollectionSet, settings, with_defaults,
}
use solr_collections_operato.Solr.{SolrClient, ClusterStatus}
use solr_collections_operato.Platform.{
  Fetched, Written, NamespacedName, found, not_found, unfetchable, written, refused, Platform,
  World, Go, emit_events,
}
use solr_collections_operato.Solr.Client.Commands.{upload_config_set, create_collection}
use solr_collections_operato.Solr.Client.Queries.{get_cluster_status}
use solr_collections_operato.Controller.Zip.{zip}
use solr_collections_operato.Controller.Names.{checksums_collection_name, checksums_config_set_name}
use solr_collections_operato.Controller.Collections.{manage_collections}
use solr_collections_operato.Controller.ConfigSets.{manage_config_sets}
use solr_collections_operato.Controller.Replicas.{adjust_replicas}
use solr_collections_operato.Controller.Status.Populate.{populate_collection_set_status}

-- ctrl.Result: when the resource is looked at again, in milliseconds.
pub data Requeue : Type 0 where
  unscheduled : Requeue
  requeue_after : ℕ → Requeue

abbrev pub immediately : Requeue
immediately = requeue_after 1

abbrev pub with_backoff : Requeue
with_backoff = requeue_after 20000

-- The process of the operator: the world, and the package's variable `solrClient`.
pub record Process (P : Platform) : Type 0 where
  pub world : World P
  pub solr_client : SolrClient

abbrev pub zero_client : SolrClient
zero_client = record { username = ""; password = ""; url = "" }

abbrev pub is_zero : SolrClient → Bool
is_zero c = (c.username == "") && ((c.password == "") && (c.url == ""))

abbrev pub zero_status : SolrCollectionSetStatus
zero_status = record {
  conditions = [];
  replication_factor = ℤ.pos 0;
  ready_ratio = "";
  scale_status = "";
  solr_collections = [];
}

-- basicAuthSecret.Data[key]
unfoldable datum : String → GoMap String → String
unfolding lookup
datum key contents = elim (lookup key contents) [ none ↦ "" | some text ↦ text ]

module _ (P : Platform) where
  abbrev pub Run : Type 0 → Type 0
  Run A = Exec (Process P) A

  -- A method of the Solr client, on the client of the process.
  abbrev pub with_client : {A : Type 0} → (SolrClient → Go P A) → Run A
  with_client f p = let (r, w) = f p.solr_client p.world in (r, record p { world = w })

  -- A call of the Kubernetes API.
  abbrev pub kubernetes : {A : Type 0} → (P.State → A × P.State) → Run A
  kubernetes f p =
      let (a, s) = f p.world.cluster in (ok a, record p { world = record p.world { cluster = s } })

  -- r.Get of the collection set once more: the object stays as it is where that fails.
  unfoldable pub refetched : SolrCollectionSet → Fetched → SolrCollectionSet × Option String
  refetched set (found stored) = (stored, none)
  refetched set (not_found e) = (set, some e)
  refetched set (unfetchable e) = (set, some e)

  unfoldable pub refetch :
      NamespacedName → SolrCollectionSet → Run (SolrCollectionSet × Option String)
  unfolding refetched
  refetch key set p = (ok (refetched set (P.fetch key p.world.cluster)), p)

  -- The end of RequeueOnError, after the object was fetched again.
  abbrev pub requeue_refetched : SolrCollectionSet × Option String → Requeue
  requeue_refetched (_, none) = unscheduled
  requeue_refetched (_, some _) = with_backoff

  -- The end of RequeueOnError, after the patch.
  unfoldable pub requeue_patched : NamespacedName → Written → Run Requeue
  unfolding refetch
  requeue_patched key (refused _) = pure with_backoff
  requeue_patched key (written stored) = refetch key stored >>= λ r. pure (requeue_refetched r)

  -- The status with the condition of an error.
  unfoldable pub failed_status : SolrCollectionSet → String → SolrCollectionSetStatus
  failed_status set message = record set.status {
    conditions = P.set_status_condition set.status.conditions (record {
      kind = "Stable";
      status = "False";
      reason = "errorEncountered";
      message = message;
    });
  }

  -- RequeueOnError
  unfoldable pub requeue_on_error : NamespacedName → SolrCollectionSet → String → Run Requeue
  unfolding requeue_patched failed_status
  requeue_on_error key set message =
      if P.deep_equal set.status (failed_status set message)
      then pure unscheduled
      else (kubernetes (P.patch_status set (record set { status = failed_status set message }))
          >>= requeue_patched key)

  -- for eventType, reason := range events { … }
  unfoldable pub emit_all : SolrCollectionSet → GoMap String → Run (Unit {0})
  emit_all set [] = pure tt
  emit_all set ((kind, reason) ∷ events) =
      kubernetes (λ s. ((tt {0}), P.record_event set kind reason s)) >> emit_all set events

  -- The end of UpdateStatus, after the patch to the object.
  unfoldable pub status_patched :
      NamespacedName → SolrCollectionSet → Written → Run (SolrCollectionSet × Option String)
  unfolding refetch
  status_patched key set (refused e) = pure (set, some e)
  status_patched key set (written stored) = refetch key stored

  -- if !reflect.DeepEqual(collectionSet.Status, newStatusObject) { … }, and the fetch after it.
  unfoldable pub store_status :
      NamespacedName
      → SolrCollectionSet
      → SolrCollectionSetStatus
      → Run (SolrCollectionSet × Option String)
  unfolding status_patched refetch
  store_status key set status =
      if P.deep_equal set.status status
      then refetch key set
      else (kubernetes (P.patch_status set (record set { status = status }))
          >>= status_patched key (record set { status = status }))

  -- UpdateStatus, with the object as it leaves it, and the error.
  unfoldable pub update_collection_set_status :
      NamespacedName → SolrCollectionSet → ClusterStatus → Run (SolrCollectionSet × Option String)
  update_collection_set_status key set cluster = do
    (status, events) ← lift (populate_collection_set_status P zero_status set cluster)
    emit_all set (P.order.visit emit_events String events)
    store_status key set
        (record status { solr_collections = P.sort_by_instance status.solr_collections })

  -- makeSolrClient
  unfoldable pub make_solr_client : String → String → Run SolrClient
  unfolding datum
  make_solr_client secret_ref url p =
      if secret_ref == ""
      then (err "no secret was provided for Solr basic auth", p)
      else (elim (P.secret (record { name = secret_ref; namespace = "default" }) p.world.cluster) [
        | none ↦ (err ("could not read the basic auth secret [" <> (secret_ref <> "]")), p)
        | some contents ↦ (
          ok (record {
            username = datum "username" contents;
            password = datum "password" contents;
            url = url;
          }),
          p,
        )
      ])

  -- if solrClient == (solr.SolrClient{}) { … }
  unfoldable pub ensure_client : SolrCollectionSet → Run (Unit {0})
  unfolding make_solr_client
  ensure_client set p =
      if is_zero p.solr_client
      then ((make_solr_client set.spec.secret_ref set.spec.solr_cluster_url >>= λ c q.
            (ok tt, record q { solr_client = c }))
          p)
      else (ok tt, p)

  unfoldable pub create_checksum_collection : String → ℤ → SolrClient → Go P (Unit {0})
  unfolding zip upload_config_set create_collection
  create_checksum_collection name factor c =
      lift (zip P "checksum_collection_configset") >>= λ bytes.
      upload_config_set P c checksums_config_set_name bytes
      >> create_collection P c name checksums_config_set_name factor
