-- ===== src/Controller/Reconcile/Scaled.antt =====
-- The collections and the replicas after each part of a run of `Reconcile`, on a cluster on which only the
-- operator changes something.
use solr_collections_operato.Base.{
  ◌≡◌, ◌⊎◌, inl, inr, refl, sym, ap, ◌∙◌, String, Bool, false, some, [], arith,
}
use solr_collections_operato.Base.GoMap.{GoMap, lookup, has_key}
use solr_collections_operato.Base.Outcome.{Outcome, ok}
use solr_collections_operato.Api.{SolrCollectionSet, SolrCollectionSetStatus, Settings}
use solr_collections_operato.Solr.{Collection}
use solr_collections_operato.Solr.Cluster.{Contents}
use solr_collections_operato.Solr.Client.WellFormed.{IsWellFormed, get_cluster_status-IsWellFormed}
use solr_collections_operato.Platform.{World}
use solr_collections_operato.Controller.Collections.{plan_collections, manage_collections}
use solr_collections_operato.Controller.Collections.Run.{has_work, manage_collections_lem}
use solr_collections_operato.Controller.Collections.Ready.{IsReady}
use solr_collections_operato.Controller.Collections.Aligned.{
  IsAligned, manage_collections-IsAligned, manage_collections_idle,
}
use solr_collections_operato.Controller.Collections.Converged.{manage_collections-converges}
use solr_collections_operato.Controller.Replicas.{adjust_replicas}
use solr_collections_operato.Controller.Replicas.Idle.{AreFull}
use solr_collections_operato.Controller.Replicas.Filled.{filled}
use solr_collections_operato.Controller.Replicas.Converged.{Scales, adjust_replicas-Scales}
use solr_collections_operato.Controller.Reconcile.Deployment.{
  Deployment, active_settings, checksums_collection,
}
use solr_collections_operato.Controller.Reconcile.Provided.{CurrentAt}

module _ (D : Deployment) where
  abbrev cfg : Settings
  cfg = active_settings D.factor D.is_blue_green D.is_cleanup

  abbrev sums : String
  sums = checksums_collection D.platform D.client D.key D.set D.factor

  -- The collections, and their replicas, are as the resource asks.
  abbrev pub AlignedAt : D.platform.State → Type 0
  AlignedAt s = IsAligned cfg D.set.spec.collections (D.reports.status s).collections

  abbrev pub FullAt : D.platform.State → Type 0
  FullAt s = AreFull cfg D.set.spec.collections sums (D.reports.status s).collections

  -- The config sets are as the config maps ask.
  abbrev pub ProvidedAt : D.platform.State → Type 0
  ProvidedAt =
      CurrentAt D.platform D.fair D.client D.key D.set D.factor D.solr D.separate D.reports D.maps
        D.kube cfg D.known

  well_formed : (s : D.platform.State) → IsWellFormed D.platform (D.reports.status s)
  well_formed s =
      get_cluster_status-IsWellFormed D.platform D.client (record { cluster = s; sent = [] })
        (D.reports.status s) (D.reports.answers_status (record { cluster = s; sent = [] }))

  -- The status was read in the first state, and Solr still has the same collections in the second.
  module _ (s : D.platform.State) (r : World D.platform)
      (same : D.solr.cluster.contents r.cluster ≡ D.solr.cluster.contents s)
      (status : SolrCollectionSetStatus) where
    abbrev resource : SolrCollectionSet
    resource = record (D.set) { status = status }

    abbrev collections : GoMap Collection
    collections = (D.reports.status s).collections

    abbrev pub placed : Outcome Bool × World D.platform
    placed =
        manage_collections D.platform D.client resource collections (D.reports.status s).aliases r

    abbrev pub scaled : World D.platform → Outcome Bool × World D.platform
    scaled = adjust_replicas D.platform D.client resource collections sums

    reads : (n : String) → lookup n collections ≡ (D.solr.cluster.contents r.cluster).collection n
    reads n = D.reports.reads_status s n ∙ ap (λ (t : Contents). t.collection n) (sym same)

    pub placed-AlignedAt :
        IsReady D.platform D.client cfg D.solr.cluster D.set.spec.collections
          (D.solr.cluster.has_config r.cluster)
          r
        → AlignedAt placed.1.cluster
    placed-AlignedAt ready =
        let end = placed.1.cluster in
        (manage_collections-converges D.platform D.fair D.civil D.client cfg D.solr.cluster resource
          collections (D.reports.status s).aliases r (well_formed s).0 D.known reads ready
          (D.reports.status end).collections (D.reports.status end).aliases (well_formed end).0
          (D.reports.reads_status end)).0

    pub placed_idle : AlignedAt s → placed ≡ (ok false, r)
    placed_idle aligned =
        manage_collections_idle D.platform D.fair D.civil D.client resource cfg collections
          (D.reports.status s).aliases r (well_formed s).0 D.known aligned

    pub placed_outcome : (b : Bool) × (placed.0 ≡ ok b) × (b ≡ false → AlignedAt s)
    placed_outcome =
        let plan =
          plan_collections D.platform cfg D.set.spec.collections collections
            (D.reports.status s).aliases in
        let outcome =
          ap (λ (x : Outcome Bool × World D.platform). x.0)
            (manage_collections_lem D.platform D.client D.civil resource collections
              (D.reports.status s).aliases r cfg D.known) in
        (
          has_work plan,
          outcome,
          λ idle.
              (manage_collections-IsAligned D.platform D.fair D.civil D.client resource cfg
                  collections (D.reports.status s).aliases r (well_formed s).0 D.known).0
                (outcome ∙ ap ok idle),
        )

    -- The replicas are adjusted, which leaves the rest of a collection alone.
    scaled-Scales :
        Scales D.platform D.client D.factor cfg D.solr.replicas resource sums r (scaled r)
    scaled-Scales =
        adjust_replicas-Scales D.platform D.fair D.client D.factor cfg D.solr.replicas resource
          collections sums r D.positive D.bounded refl
          (λ n. reads n ∙ sym (D.solr.same_collections r.cluster n)) (well_formed s).1
          (D.reports.counts s) D.known

    pub scaled-ends : ((scaled r).0 ≡ ok false) × FullAt (scaled r).1.cluster
    scaled-ends =
        let end = (scaled r).1.cluster in
        let scales = scaled-Scales in
        let stops = scales.needs_nodes (D.solr.enough r.cluster) in
        (
          scales.ends ∙ ap ok stops,
          (scales.finishes stops (D.reports.status end).collections
              (λ n. D.reports.reads_status end n ∙ sym (D.solr.same_collections end n))).0,
        )

    -- After the adjustment of the replicas the cluster has the collections that it had, with their
    -- replication factors.
    module _ (n : String) where
      scaled_cases :
          (lookup n (D.reports.status (scaled r).1.cluster).collections ≡ lookup n collections)
          ⊎ ((x : Collection) × (lookup n collections ≡ some x)
              × (lookup n (D.reports.status (scaled r).1.cluster).collections
                  ≡ some (filled D.factor x)))
      scaled_cases =
          let end = (scaled r).1.cluster in
          let after = D.reports.reads_status end n ∙ sym (D.solr.same_collections end n) in
          let before = reads n ∙ sym (D.solr.same_collections r.cluster n) in
          elim (scaled-Scales.keeps n) [
            | inl e ↦ inl (after ∙ e ∙ sym before)
            | inr (x, asked, there, e) ↦ inr (x, before ∙ there, after ∙ e)
          ]

      scaled_back :
          (y : Collection)
          → lookup n (D.reports.status (scaled r).1.cluster).collections ≡ some y
          → (x : Collection) × (lookup n collections ≡ some x)
            × (y.replication_factor ≡ x.replication_factor)
      scaled_back y e = elim scaled_cases [
        | inl same_there ↦ (y, sym same_there ∙ e, refl)
        | inr (x, there, f) ↦ (x, there, ground arith)
      ]

      scaled_keys :
          has_key n (D.reports.status (scaled r).1.cluster).collections ≡ has_key n collections
      unfolding has_key
      scaled_keys = elim scaled_cases [ inl e ↦ rw e refl | inr (x, there, f) ↦ rw (there, f) refl ]

    pub scaled-AlignedAt : AlignedAt s → AlignedAt (scaled r).1.cluster
    scaled-AlignedAt aligned = record {
      present = λ n asked. scaled_keys n ∙ aligned.present n asked;
      factors = λ n y e asked.
          let (x, there, factors) = scaled_back n y e in
          rw factors (aligned.factors n x there asked);
      clean = λ cleanup n there. aligned.clean cleanup n (sym (scaled_keys n) ∙ there);
    }
