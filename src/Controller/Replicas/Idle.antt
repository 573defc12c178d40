-- ===== src/Controller/Replicas/Idle.antt =====
-- When `AdjustReplicas` has nothing to do.
use solr_collections_operato.Base.{
  ◌≡◌, refl, String, true, false, ◌||◌, none, some, List, [], arith, ◌==◌, is_some, inl, inr,
  Option-cases,
}
use solr_collections_operato.Base.Int.{ℤ, pos, negsuc, eqb_ℤ, sub32}
use solr_collections_operato.Base.GoMap.{GoMap, lookup, IsFair}
use solr_collections_operato.Base.Outcome.{ok}
use solr_collections_operato.Api.{SolrCollection, SolrCollectionSet, Settings, settings}
use solr_collections_operato.Solr.{AreNamed, SolrClient, Collection, ReplicationAdjustment}
use solr_collections_operato.Platform.{Platform, World, adjust_queue}
use solr_collections_operato.Controller.Names.Mapped.{specified}
use solr_collections_operato.Controller.Collections.Aligned.{eq-nil, visit-nil}
use solr_collections_operato.Controller.Replicas.{
  queue_adjustments, run_adjustments, adjust_replicas,
}
use solr_collections_operato.Controller.Replicas.Queued.{needed, lookup-queue_adjustments}

-- The collections of the spec and the one for the checksums have as many replicas as they should have,
-- as far as the cluster has them.
pub record AreFull (cfg : Settings) (collections : List SolrCollection) (checksums : String)
    (solr : GoMap Collection) : Type 0 where
  pub full :
      (n : String) (x : Collection)
      → lookup n solr ≡ some x
      → (is_some (specified cfg.is_blue_green collections n) || n == checksums) ≡ true
      → x.replica_count ≡ cfg.factor

sub32_self : (z : ℤ) → eqb_ℤ (sub32 z z) (pos 0) ≡ true
unfolding sub32
sub32_self (pos n) = ground arith
sub32_self (negsuc n) = ground arith

pub needed-full :
    (factor : ℤ) (x : Collection) → x.replica_count ≡ factor → needed factor (some x) ≡ none
needed-full factor x e = rw (e, sub32_self factor) refl

module _ (P : Platform) (fair : IsFair P.order) (cfg : Settings) (set : SolrCollectionSet)
    (solr : GoMap Collection) (checksums : String) (named : AreNamed solr)
    (full : AreFull cfg set.spec.collections checksums solr) where
  queue_adjustments-nil :
      queue_adjustments P set.spec.collections cfg.is_blue_green cfg.factor solr checksums ≡ []
  queue_adjustments-nil = eq-nil _ λ n. elim (Option-cases (lookup n solr)) [
    | inl absent ↦ ground (
      arith,
      absent,
      lookup-queue_adjustments P fair set.spec.collections cfg.is_blue_green cfg.factor solr
          checksums named n,
    )
    | inr (x, there) ↦ ground (
      arith,
      there,
      full.full n x there,
      needed-full cfg.factor x,
      lookup-queue_adjustments P fair set.spec.collections cfg.is_blue_green cfg.factor solr
          checksums named n,
    )
  ]

  -- On a platform whose loops are fair, with the pointers of the spec set and each collection under
  -- its own name, if the collections of the spec and the one for the checksums have as many
  -- replicas as the replication factor of the set, as far as the cluster has them: AdjustReplicas
  -- sends nothing, changes nothing and reports no scaling.
  pub adjust_replicas_idle :
      (c : SolrClient) (w : World P)
      → settings set.spec ≡ ok cfg
      → adjust_replicas P c set solr checksums w ≡ (ok false, w)
  unfolding adjust_replicas run_adjustments
  adjust_replicas_idle c w known =
      rw (known, queue_adjustments-nil, visit-nil P fair adjust_queue ReplicationAdjustment) refl
