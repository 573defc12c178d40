-- ===== src/Controller/Reconcile/Converged.antt =====
-- That two runs of `Reconcile` bring Solr in line with the resource and the config maps, on a cluster
-- on which only the operator changes something.
use solr_collections_operato.Base.{
  Option-cases, String, true, arith, ◌≡◌, ◌⊎◌, inl, inr, refl, sym, ap, ◌∙◌,
}
use solr_collections_operato.Base.GoMap.{has_key, lookup}
use solr_collections_operato.Base.Outcome.{ok}
use solr_collections_operato.Api.{Settings}
use solr_collections_operato.Solr.ConfigStore.{Sets}
use solr_collections_operato.Platform.{World}
use solr_collections_operato.Controller.Collections.Ready.{IsReady}
use solr_collections_operato.Controller.Reconcile.{immediately, unscheduled, Process}
use solr_collections_operato.Controller.Reconcile.Loop.{reconcile}
use solr_collections_operato.Controller.Reconcile.Deployment.{Deployment, active_settings}
use solr_collections_operato.Controller.Reconcile.Announced.{reconcile-answers}
use solr_collections_operato.Controller.Reconcile.Provided.{
  CurrentAt-same, CanProvide, manage_config_sets-answers,
}
use solr_collections_operato.Controller.Reconcile.Scaled.{AlignedAt, FullAt, ProvidedAt}
use solr_collections_operato.Controller.Reconcile.Managed.{Advances, IsReady-same, managed-Advances}

module _ (D : Deployment) where
  abbrev cfg : Settings
  cfg = active_settings D.factor D.is_blue_green D.is_cleanup

  -- What a run needs: the config sets are as the config maps ask, or it can make them so,
  abbrev pub IsProvidable : World D.platform → Type 0
  IsProvidable =
      CanProvide D.platform D.fair D.client D.key D.set D.factor D.solr D.separate D.reports D.maps
        D.kube cfg D.known

  -- and so are the collections, where the config sets of those that are missing have config maps.
  abbrev pub IsPlaceable : World D.platform → Type 0
  IsPlaceable w =
      AlignedAt D w.cluster
      ⊎ IsReady D.platform D.client cfg D.solr.cluster D.set.spec.collections
          (λ n. has_key n D.maps) w

  module _ (w v : World D.platform)
      (same : D.solr.store.sets v.cluster ≡ D.solr.store.sets w.cluster) where
    provide-same : IsProvidable w → IsProvidable v
    provide-same (inl current) = inl (
        CurrentAt-same D.platform D.fair D.client D.key D.set D.factor D.solr D.separate D.reports
          D.maps D.kube _ D.known w.cluster v.cluster (λ n. ap (λ (x : Sets). x.has_set n) same)
          (λ n. ap (λ (x : Sets). x.checksum n) same) current)
    provide-same (inr ready) = inr (record {
      uploadable = ready.uploadable;
      removable = λ cleanup n there surplus.
          let (named, free) =
            ready.removable cleanup n
              (D.reports.reads_sets w.cluster n
                ∙ ap (λ (x : Sets). x.has_set n) (sym same)
                ∙ sym (D.reports.reads_sets v.cluster n)
                ∙ there)
              surplus in
          (named, ap (λ (x : Sets). x.is_unused n) same ∙ free);
    })

  -- The config set of every config map is there once the config sets were managed.
  stored_config :
      (r : World D.platform)
      → ProvidedAt D r.cluster
      → (n : String) → has_key n D.maps ≡ true
      → D.solr.cluster.has_config r.cluster n ≡ true
  unfolding has_key
  stored_config r current n there = elim (Option-cases (lookup n D.maps)) [
    | inl e ↦ absurd (ground (arith, e))
    | inr (cm, e) ↦
        D.solr.same_configs r.cluster n
        ∙ sym (D.reports.reads_sets r.cluster n)
        ∙ ground (arith, current.uploaded n cm e)
  ]

  place-same :
      (w r : World D.platform)
      → D.solr.cluster.contents r.cluster ≡ D.solr.cluster.contents w.cluster
      → ProvidedAt D r.cluster
      → IsPlaceable w
      → AlignedAt D w.cluster
        ⊎ IsReady D.platform D.client cfg D.solr.cluster D.set.spec.collections
            (D.solr.cluster.has_config r.cluster)
            r
  place-same w r same current (inl aligned) = inl aligned
  place-same w r same current (inr ready) = inr (
      IsReady-same D.platform D.client _ D.solr.cluster D.set.spec.collections _ _ w r same
        (stored_config r current) ready)

  reconcile-Advances :
      (w : World D.platform)
      → IsProvidable w
      → IsPlaceable w
      → Advances D w.cluster
          (reconcile D.platform D.key (record { world = w; solr_client = D.client }))
  reconcile-Advances w provide place =
      let (v, answer, same) =
        reconcile-answers D.platform D.client D.key D.set D.factor D.solr D.maps D.kube cfg D.known
          D.reports D.separate w D.made D.complete refl in
      let (r, provided, current, kept) =
        manage_config_sets-answers D.platform D.fair D.client D.key D.set D.factor D.solr D.separate
          D.reports D.maps D.kube cfg D.known v (provide-same w v same.1 provide) in
      rw answer (
        managed-Advances D w.cluster v same.0 r provided current (kept ∙ same.0)
          (place-same w r (kept ∙ same.0) current place))

  announced :
      (w : World D.platform)
      → let result = reconcile D.platform D.key (record { world = w; solr_client = D.client }) in
        Advances D w.cluster result
        → (result.0 ≡ ok immediately)
          ⊎ ((result.0 ≡ ok unscheduled) × FullAt D result.1.world.cluster)
  announced w one = elim one.continues [
    | inl more ↦ inl (one.ends ∙ ap ok more)
    | inr (last, full) ↦ inr (one.ends ∙ ap ok last, full)
  ]

  on_client :
      (p : Process D.platform)
      → p.solr_client ≡ D.client
      → p ≡ record { world = p.world; solr_client = D.client }
  on_client p e = rw e refl

  -- On a platform whose loops are fair and whose errors can be read, and a cluster on which only
  -- the operator changes something: the resource is stored with its defaults and a condition and
  -- is active, its status can be stored, the config maps stay as they are and each has its
  -- label, the Solr client is made, the collection for the checksums is there, and there are as
  -- many nodes as the replication factor, which is positive and of the range of `int32`. Solr
  -- keeps the promises of its interfaces on collections, aliases, replicas, config sets and
  -- checksums, answers the queries with what it has, and no request changes what it is not
  -- about. At first the config sets are as the config maps ask, or Solr takes the config maps'
  -- names, archives and checksums and no collection uses a config set that is to be removed; and
  -- the collections are as the spec asks, or Solr takes their names, the config sets of those
  -- that are missing have config maps, no alias that is there, and in a blue/green set none of
  -- the spec, has the name of a collection that the spec asks for, and no alias points to a
  -- stray collection. Then the collections of the spec and the one for the checksums are called
  -- full where they have as many replicas as the factor says, as far as Solr has them. Of two
  -- runs of Reconcile the first asks for another run at once, or asks for none and after it they
  -- are full. The second ends without an error and asks for no other run, and after it the
  -- config sets are as the config maps ask, the collections are as the spec asks, and they are
  -- full.
  pub reconcile_twice-converges :
      (w : World D.platform)
      → IsProvidable w
      → IsPlaceable w
      → let first = reconcile D.platform D.key (record { world = w; solr_client = D.client }) in
        let second = reconcile D.platform D.key first.1 in
        ((first.0 ≡ ok immediately) ⊎ ((first.0 ≡ ok unscheduled) × FullAt D first.1.world.cluster))
        × (second.0 ≡ ok unscheduled)
        × ProvidedAt D second.1.world.cluster
        × AlignedAt D second.1.world.cluster
        × FullAt D second.1.world.cluster
  reconcile_twice-converges w provide place =
      let one = reconcile-Advances w provide place in
      let first = (reconcile D.platform D.key (record { world = w; solr_client = D.client })).1 in
      let two = reconcile-Advances first.world (inl one.provided) (inl one.aligned) in
      let (last, full) = two.completed one.aligned in
      rw (on_client first one.same_client)
        (announced w one, two.ends ∙ ap ok last, two.provided, two.aligned, full)
