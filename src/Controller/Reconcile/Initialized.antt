-- ===== src/Controller/Reconcile/Initialized.antt =====
-- What `InitializeSolrCluster` sends where the collection for the checksums is missing.
use solr_collections_operato.Base.{
  ◌≡◌, ◌≢◌, refl, arith, ap, String, Bool, true, false, List, [], ◌∷◌, ◌++◌,
}
use solr_collections_operato.Base.Int.{ℤ}
use solr_collections_operato.Base.GoMap.{has_key}
use solr_collections_operato.Base.Outcome.{Outcome, ok, err, panic}
use solr_collections_operato.Base.Exec.{resume, is-pair, pure, ◌>>=◌}
use solr_collections_operato.Api.{SolrCollectionSet, Settings}
use solr_collections_operato.Solr.{SolrClient, ClusterStatus}
use solr_collections_operato.Platform.{Request, Platform, World, Go}
use solr_collections_operato.Solr.Client.Delivery.{after, after_all, command-after}
use solr_collections_operato.Solr.Client.ClusterReport.{status_request}
use solr_collections_operato.Solr.Client.Queried.{get_cluster_status-after}
use solr_collections_operato.Solr.Client.Queries.{get_cluster_status}
use solr_collections_operato.Solr.Client.Commands.{
  upload_config_set, create_collection, upload_config_set_request, create_collection_request,
}
use solr_collections_operato.Controller.Zip.{zip}
use solr_collections_operato.Controller.Names.{checksums_config_set_name}
use solr_collections_operato.Controller.Reconcile.{
  Run, Process, with_client, is_zero, ensure_client, create_checksum_collection,
}
use solr_collections_operato.Controller.Reconcile.Loop.{initialize_solr_cluster}

-- The requests for the config set of the checksums, with the bytes of its archive, and for their
-- collection.
abbrev pub upload_request : SolrClient → String → Request
upload_request c bytes = upload_config_set_request c checksums_config_set_name bytes

abbrev pub create_request : SolrClient → String → ℤ → Request
create_request c checksums factor =
    create_collection_request c checksums checksums_config_set_name factor

module _ (P : Platform) (c : SolrClient) where
  abbrev process : World P → Process P
  process w = record { world = w; solr_client = c }

  -- Some first part of the requests was made, and all of them where a status is returned; the cluster
  -- is then said to be new.
  abbrev pub Initializes :
      List Request → World P → Outcome (ClusterStatus × Bool) × Process P → Type 0
  Initializes reqs w result =
      (done left : List Request) × (done ++ left ≡ reqs)
      × (result.1 ≡ process (after_all P done w))
      × ((cluster : ClusterStatus) (is_initializing : Bool)
          → result.0 ≡ ok (cluster, is_initializing)
          → (left ≡ []) × (is_initializing ≡ true))

  module _ (req : Request) (reqs : List Request) (w : World P) where
    Initializes-stop :
        (result : Outcome (ClusterStatus × Bool) × Process P)
        → result.1 ≡ process (after P req w)
        → ((x : ClusterStatus × Bool) → result.0 ≢ ok x)
        → Initializes (req ∷ reqs) w result
    unfolding after_all
    Initializes-stop result e stop =
        (req ∷ [], reqs, refl, e, λ cluster b h. absurd (stop (cluster, b) h))

    Initializes-more :
        (result : Outcome (ClusterStatus × Bool) × Process P)
        → Initializes reqs (after P req w) result
        → Initializes (req ∷ reqs) w result
    unfolding after_all
    Initializes-more result (done, left, all, made, rest) =
        (req ∷ done, left, ap (λ (l : List Request). req ∷ l) all, made, rest)

    -- A step of the whole run.
    Initializes-step :
        (r : Outcome (Unit {0}) × World P) (k : Run P (ClusterStatus × Bool))
        → r.1 ≡ after P req w
        → Initializes reqs (after P req w) (k (process (after P req w)))
        → Initializes (req ∷ reqs) w (resume (λ _. k) (r.0, process r.1))
    Initializes-step (ok x, v) k e more = Initializes-more _ (rw e more)
    Initializes-step (err message, v) k e more =
        Initializes-stop (err message, process v) (ap process e) (λ x h. ground arith)
    Initializes-step (panic, v) k e more =
        Initializes-stop (panic, process v) (ap process e) (λ x h. ground arith)

    -- The first step of `createChecksumCollection`, which the second follows.
    Initializes-first :
        (r : Outcome (Unit {0}) × World P) (next : Go P (Unit {0}))
        (k : Run P (ClusterStatus × Bool))
        → r.1 ≡ after P req w
        → (let r' = next (after P req w) in
            Initializes reqs (after P req w) (resume (λ _. k) (r'.0, process r'.1)))
        → (let r' = resume (λ _. next) r in
            Initializes (req ∷ reqs) w (resume (λ _. k) (r'.0, process r'.1)))
    Initializes-first (ok x, v) next k e more = Initializes-more _ (rw e more)
    Initializes-first (err message, v) next k e more =
        Initializes-stop (err message, process v) (ap process e) (λ x h. ground arith)
    Initializes-first (panic, v) next k e more =
        Initializes-stop (panic, process v) (ap process e) (λ x h. ground arith)

  Initializes-last :
      (req : Request) (w : World P) (r : Outcome ClusterStatus × World P)
      → r.1 ≡ after P req w
      → Initializes (req ∷ []) w (resume (λ cluster. pure (cluster, true)) (r.0, process r.1))
  unfolding after_all
  Initializes-last req w (ok cluster, v) e =
      (req ∷ [], [], refl, ap process e, λ x b h. (refl, ground arith))
  Initializes-last req w (err message, v) e =
      Initializes-stop req [] w (err message, process v) (ap process e) (λ x h. ground arith)
  Initializes-last req w (panic, v) e =
      Initializes-stop req [] w (panic, process v) (ap process e) (λ x h. ground arith)

  module _ (set : SolrCollectionSet) (cfg : Settings) (checksums : String) (bytes : String)
      (zipped : zip P "checksum_collection_configset" ≡ ok bytes) where
    abbrev upload : Go P (Unit {0})
    upload = upload_config_set P c checksums_config_set_name bytes

    abbrev create : Go P (Unit {0})
    create = create_collection P c checksums checksums_config_set_name cfg.factor

    abbrev reread : Run P (ClusterStatus × Bool)
    reread = with_client P (get_cluster_status P) >>= λ cluster. pure (cluster, true)

    upload-after : (w : World P) → (upload w).1 ≡ after P (upload_request c bytes) w
    unfolding upload_config_set
    upload-after w = command-after P (upload_request c bytes) _ w

    create-after : (w : World P) → (create w).1 ≡ after P (create_request c checksums cfg.factor) w
    unfolding create_collection
    create-after w = command-after P (create_request c checksums cfg.factor) _ w

    -- Where the Solr client is made, the cluster status can be read and lacks the collection for
    -- the checksums, and the archive of its config set can be made: after reading the status
    -- InitializeSolrCluster uploads the config set, creates the collection and reads the status
    -- again, in this order. It ends with the first error; where it returns a status, it has made
    -- all these requests, and reports that the cluster is being initialized.
    pub initialize_solr_cluster-Initializes :
        (w : World P) (cluster : ClusterStatus)
        → is_zero c ≡ false
        → (get_cluster_status P c w).0 ≡ ok cluster
        → has_key checksums cluster.collections ≡ false
        → Initializes
            (status_request c
              ∷ (upload_request c bytes)
              ∷ (create_request c checksums cfg.factor)
              ∷ status_request c
              ∷ [])
            w
            (initialize_solr_cluster P set cfg checksums (process w))
    unfolding initialize_solr_cluster ensure_client create_checksum_collection
    initialize_solr_cluster-Initializes w cluster made status missing =
        let w1 = after P (status_request c) w in
        let w2 = after P (upload_request c bytes) w1 in
        let w3 = after P (create_request c checksums cfg.factor) w2 in
        Initializes-more (status_request c)
          ((upload_request c bytes)
            ∷ (create_request c checksums cfg.factor)
            ∷ status_request c
            ∷ [])
          w (initialize_solr_cluster P set cfg checksums (process w))
          (rw (made, is-pair _ status (get_cluster_status-after P c w), missing, zipped)
            (Initializes-first (upload_request c bytes)
              ((create_request c checksums cfg.factor) ∷ status_request c ∷ []) w1 (upload w1)
              create reread (upload-after w1)
              (Initializes-step (create_request c checksums cfg.factor) (status_request c ∷ []) w2
                (create w2) reread (create-after w2)
                (Initializes-last (status_request c) w3 (get_cluster_status P c w3)
                  (get_cluster_status-after P c w3)))))
