-- ===== src/Controller/Collections/Converged.antt =====
-- That one run of `ManageCollections` brings the collections in line with the spec, on a cluster that
-- keeps the promises of the collections API.
use solr_collections_operato.Base.{
  ◌≡◌, ◌∙◌, ap, inl, inr, String, Bool, true, false, some, List, arith, Option-cases, Bool-cases,
}
use solr_collections_operato.Base.Int.{ℤ, eqb_ℤ}
use solr_collections_operato.Base.GoMap.{GoMap, IsFair, lookup, has_key, NodupKeys}
use solr_collections_operato.Base.Outcome.{Outcome, ok}
use solr_collections_operato.Api.{SolrCollection, SolrCollectionSet, Settings, settings}
use solr_collections_operato.Solr.{SolrClient, Collection}
use solr_collections_operato.Platform.{Platform, World}
use solr_collections_operato.Solr.Client.Delivery.{IsCivil}
use solr_collections_operato.Solr.Cluster.{SolrCluster}
use solr_collections_operato.Solr.Cluster.Requests.{collection_of}
use solr_collections_operato.Controller.Names.Mapped.{specified}
use solr_collections_operato.Controller.Collections.{manage_collections}
use solr_collections_operato.Controller.Collections.Planned.{is_stray}
use solr_collections_operato.Controller.Collections.Run.{manage_collections_lem}
use solr_collections_operato.Controller.Collections.Aligned.{IsAligned, manage_collections_idle}
use solr_collections_operato.Controller.Collections.Ready.{IsReady}
use solr_collections_operato.Controller.Collections.Cleared.{
  w4, after_plan, created_settled, kept_settled, stray_gone,
}

eqb_ℤ_refl : (z : ℤ) → eqb_ℤ z z ≡ true
eqb_ℤ_refl z = ground arith

module _ (P : Platform) (c : SolrClient) (cfg : Settings) (cluster : SolrCluster P c cfg.factor)
    (collections : List SolrCollection) (fair : IsFair P.order) (solr : GoMap Collection)
    (aliases : GoMap String) (u : NodupKeys solr) (w : World P)
    (read : (n : String) → lookup n solr ≡ collection_of P c cfg.factor cluster w n)
    (ready : IsReady P c cfg cluster collections (cluster.has_config w.cluster) w) where
  abbrev end : World P
  end = w4 P c cfg cluster collections fair solr aliases u w read ready

  -- A collection that the spec asks for is there in the end, with the factor of the set.
  specified_settled :
      (n : String) (spec : SolrCollection)
      → specified cfg.is_blue_green collections n ≡ some spec
      → (x : Collection) × (collection_of P c cfg.factor cluster end n ≡ some x)
        × (eqb_ℤ x.replication_factor cfg.factor ≡ true)
  specified_settled n spec e = elim (Option-cases (lookup n solr)) [
    | inl absent ↦ (
      cluster.fresh n spec.configset_name,
      created_settled P c cfg cluster collections fair solr aliases u w read ready n spec e absent,
      rw cluster.fresh-factor (eqb_ℤ_refl cfg.factor),
    )
    | inr (x, there) ↦
        let kept =
          kept_settled P c cfg cluster collections fair solr aliases u w read ready n spec x e
            there in
        elim (Bool-cases (eqb_ℤ x.replication_factor cfg.factor)) [
          | inl fits ↦ (x, rw fits at kept, fits)
          | inr other ↦ (
            record x { replication_factor = cfg.factor },
            rw other at kept,
            eqb_ℤ_refl cfg.factor,
          )
        ]
  ]

  module _ (solr' : GoMap Collection)
      (read' : (n : String) → lookup n solr' ≡ collection_of P c cfg.factor cluster end n) where
    end-IsAligned : IsAligned cfg collections solr'
    unfolding has_key
    end-IsAligned = record {
      present = λ n h. elim (Option-cases (specified cfg.is_blue_green collections n)) [
        | inl e ↦ ground (arith, e)
        | inr (spec, e) ↦
            let (x, there, fits) = specified_settled n spec e in ground (arith, there, read' n)
      ];
      factors = λ n y found h. elim (Option-cases (specified cfg.is_blue_green collections n)) [
        | inl e ↦ ground (arith, e)
        | inr (spec, e) ↦
            let (x, there, fits) = specified_settled n spec e in
            ground (arith, there, fits, found, read' n)
      ];
      clean = λ cleanup n h. elim (Bool-cases (is_stray cfg collections n)) [
        | inl stray ↦ ground (
          arith,
          stray_gone P c cfg cluster collections fair solr aliases u w read ready cleanup n stray,
          read' n,
        )
        | inr other ↦ other
      ];
    }

module _ (P : Platform) (fair : IsFair P.order) (civil : IsCivil P) (c : SolrClient)
    (cfg : Settings) (cluster : SolrCluster P c cfg.factor) (set : SolrCollectionSet)
    (solr : GoMap Collection) (aliases : GoMap String) (w : World P) (u : NodupKeys solr)
    (known : settings set.spec ≡ ok cfg)
    (read : (n : String) → lookup n solr ≡ collection_of P c cfg.factor cluster w n)
    (ready : IsReady P c cfg cluster set.spec.collections (cluster.has_config w.cluster) w) where
  manage_collections-end :
      (manage_collections P c set solr aliases w).1
      ≡ end P c cfg cluster set.spec.collections fair solr aliases u w read ready
  manage_collections-end =
      ap (λ (r : Outcome Bool × World P). r.1)
        (manage_collections_lem P c civil set solr aliases w cfg known)
      ∙ after_plan P c cfg cluster set.spec.collections fair solr aliases u w read ready

  -- On a platform whose loops are fair and whose errors can be read, and a cluster that keeps
  -- the promises of the collections API, with the pointers of the spec set, a positive
  -- replication factor, names that Solr takes, stored config sets for the collections that are
  -- missing, no collection listed twice, the collections as the cluster has them, no alias that
  -- is there, and in a blue/green set none of the spec, with the name of a collection that the
  -- spec asks for, and no alias that points to a stray collection: after one run of
  -- ManageCollections the collections that the cluster then has are as the spec asks, and the
  -- next run on a list of them without repetition sends nothing, changes nothing and reports no
  -- change.
  pub manage_collections-converges :
      let w' = (manage_collections P c set solr aliases w).1 in
      (solr' : GoMap Collection) (aliases' : GoMap String)
      → NodupKeys solr'
      → ((n : String) → lookup n solr' ≡ collection_of P c cfg.factor cluster w' n)
      → IsAligned cfg set.spec.collections solr'
        × (manage_collections P c set solr' aliases' w' ≡ (ok false, w'))
  manage_collections-converges solr' aliases' u' read' =
      let aligned =
        end-IsAligned P c cfg cluster set.spec.collections fair solr aliases u w read ready solr'
          (rw manage_collections-end at read') in
      (aligned, manage_collections_idle P fair civil c set cfg solr' aliases' _ u' known aligned)
