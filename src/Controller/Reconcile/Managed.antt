-- ===== src/Controller/Reconcile/Managed.antt =====
-- The part of a run of `Reconcile` that changes Solr, on a cluster on which only the operator changes
-- something.
use solr_collections_operato.Base.{
  Bool, ◌≡◌, ◌⊎◌, inl, inr, refl, sym, ap, ◌∙◌, String, true, List, arith, Bool-cases,
}
use solr_collections_operato.Base.Outcome.{Outcome, ok}
use solr_collections_operato.Base.Exec.{is-pair}
use solr_collections_operato.Api.{SolrCollection, SolrCollectionSetStatus, Settings}
use solr_collections_operato.Solr.{SolrClient}
use solr_collections_operato.Solr.Cluster.{Contents, SolrCluster}
use solr_collections_operato.Platform.{Platform, World}
use solr_collections_operato.Controller.Collections.Ready.{IsReady}
use solr_collections_operato.Controller.ConfigSets.{manage_config_sets}
use solr_collections_operato.Controller.Reconcile.{Requeue, immediately, unscheduled, Process}
use solr_collections_operato.Controller.Reconcile.Loop.{manage}
use solr_collections_operato.Controller.Reconcile.Deployment.{
  Deployment, active_settings, checksums_collection,
}
use solr_collections_operato.Controller.Reconcile.Provided.{CurrentAt-same}
use solr_collections_operato.Controller.Reconcile.Placed.{
  manage_collections-HasSets, adjust_replicas-HasSets,
}
use solr_collections_operato.Controller.Reconcile.Scaled.{
  AlignedAt, FullAt, ProvidedAt, placed, scaled, placed_idle, placed_outcome, scaled-ends,
  scaled-AlignedAt, placed-AlignedAt,
}

-- The condition under which the collections can be managed stays where Solr has the same.
pub IsReady-same :
    (P : Platform) (c : SolrClient) (cfg : Settings) (cluster : SolrCluster P c cfg.factor)
    (collections : List SolrCollection) (is_stored is_stored' : String → Bool) (w r : World P)
    → cluster.contents r.cluster ≡ cluster.contents w.cluster
    → ((n : String) → is_stored n ≡ true → is_stored' n ≡ true)
    → IsReady P c cfg cluster collections is_stored w
    → IsReady P c cfg cluster collections is_stored' r
IsReady-same P c cfg cluster collections is_stored is_stored' w r same more ready = record {
  configured = λ n spec e absent.
      more spec.configset_name
        (ready.configured n spec e (ap (λ (t : Contents). t.collection n) (sym same) ∙ absent));
  positive = ready.positive;
  named = ready.named;
  existing = λ n x stray e.
      ready.existing n x stray (ap (λ (t : Contents). t.collection n) (sym same) ∙ e);
  unaliased = λ n spec e. ap (λ (t : Contents). t.alias n) same ∙ ready.unaliased n spec e;
  distinct = ready.distinct;
  untargeted =
      λ n a stray e. ready.untargeted n a stray (ap (λ (t : Contents). t.alias a) (sym same) ∙ e);
}

module _ (D : Deployment) where
  abbrev cfg : Settings
  cfg = active_settings D.factor D.is_blue_green D.is_cleanup

  abbrev sums : String
  sums = checksums_collection D.platform D.client D.key D.set D.factor

  -- What one run does to Solr: the config sets are as the config maps ask and the collections as the
  -- resource asks. It asks for another run at once, or the replicas are as the resource asks too; and so
  -- it is where the collections were before.
  pub record Advances (s : D.platform.State) (result : Outcome Requeue × Process D.platform)
      : Type 0 where
    pub later : Requeue
    pub ends : result.0 ≡ ok later
    pub same_client : result.1.solr_client ≡ D.client
    pub provided : ProvidedAt D result.1.world.cluster
    pub aligned : AlignedAt D result.1.world.cluster
    pub continues :
        (later ≡ immediately) ⊎ ((later ≡ unscheduled) × FullAt D result.1.world.cluster)
    pub completed : AlignedAt D s → (later ≡ unscheduled) × FullAt D result.1.world.cluster

  module _ (s : D.platform.State) (w : World D.platform)
      (same : D.solr.cluster.contents w.cluster ≡ D.solr.cluster.contents s) where
    abbrev status : SolrCollectionSetStatus
    status = D.kube.status w.cluster

    abbrev managed : Outcome Requeue × Process D.platform
    managed =
        manage D.platform D.key (record (D.set) { status = status }) (D.reports.status s) sums
          (record { world = w; solr_client = D.client })

    -- The config sets were managed.
    module _ (r : World D.platform)
        (provided : manage_config_sets D.platform D.client
            (record (D.set) { status = status })
            sums
            w
          ≡ (ok tt, r))
        (current : ProvidedAt D r.cluster)
        (kept : D.solr.cluster.contents r.cluster ≡ D.solr.cluster.contents s) where
      abbrev x : World D.platform
      x = (placed D s r kept status).1

      managed_changed :
          (placed D s r kept status).0 ≡ ok true
          → managed ≡ (ok immediately, record { world = x; solr_client = D.client })
      unfolding manage
      managed_changed e = rw (provided, is-pair (placed D s r kept status) e refl) refl

      managed_idle :
          AlignedAt D s
          → managed ≡ (
            ok unscheduled,
            record { world = (scaled D s r kept status r).1; solr_client = D.client },
          )
      unfolding manage
      managed_idle aligned =
          rw
            (
              provided,
              placed_idle D s r kept status aligned,
              is-pair (scaled D s r kept status r) (scaled-ends D s r kept status).0 refl,
            )
            refl

      idle-Advances : AlignedAt D s → Advances s managed
      idle-Advances aligned =
          let end = (scaled D s r kept status r).1.cluster in
          let (has, sets) =
            adjust_replicas-HasSets D.platform D.client D.key D.set D.factor D.solr D.separate
              D.is_blue_green D.is_cleanup r.cluster (record (D.set) { status = status })
              (D.reports.status s).collections sums r D.known ((λ n. refl), (λ n. refl)) in
          rw (managed_idle aligned) (record {
            later = unscheduled;
            ends = refl;
            same_client = refl;
            provided =
                CurrentAt-same D.platform D.fair D.client D.key D.set D.factor D.solr D.separate
                  D.reports D.maps D.kube cfg D.known r.cluster end has sets current;
            aligned = scaled-AlignedAt D s r kept status aligned;
            continues = inr (refl, (scaled-ends D s r kept status).1);
            completed = λ before. (refl, (scaled-ends D s r kept status).1);
          })

      changed-Advances :
          IsReady D.platform D.client cfg D.solr.cluster D.set.spec.collections
            (D.solr.cluster.has_config r.cluster)
            r
          → (placed D s r kept status).0 ≡ ok true
          → Advances s managed
      changed-Advances ready outcome =
          let (has, sets) =
            manage_collections-HasSets D.platform D.client D.key D.set D.factor D.solr D.separate
              D.is_blue_green D.is_cleanup r.cluster D.civil (record (D.set) { status = status })
              (D.reports.status s).collections (D.reports.status s).aliases r D.known
              ((λ n. refl), (λ n. refl)) in
          rw (managed_changed outcome) (record {
            later = immediately;
            ends = refl;
            same_client = refl;
            provided =
                CurrentAt-same D.platform D.fair D.client D.key D.set D.factor D.solr D.separate
                  D.reports D.maps D.kube cfg D.known r.cluster x.cluster has sets current;
            aligned = placed-AlignedAt D s r kept status ready;
            continues = inl refl;
            completed =
                λ before. absurd (ground (arith, placed_idle D s r kept status before, outcome));
          })

      pub managed-Advances :
          AlignedAt D s
            ⊎ IsReady D.platform D.client cfg D.solr.cluster D.set.spec.collections
                (D.solr.cluster.has_config r.cluster)
                r
          → Advances s managed
      managed-Advances (inl aligned) = idle-Advances aligned
      managed-Advances (inr ready) =
          let (changed, outcome, aligned) = placed_outcome D s r kept status in
          elim (Bool-cases changed) [
            | inl work ↦ changed-Advances ready (outcome ∙ ap ok work)
            | inr idle ↦ idle-Advances (aligned idle)
          ]
