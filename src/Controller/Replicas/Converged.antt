-- ===== src/Controller/Replicas/Converged.antt =====
-- What a cluster has after `AdjustReplicas`, where Solr does what the collections API promises, and
-- what the next run finds.
use solr_collections_operato.Base.{
  ℕ, ◌≤◌, ◌<◌, ◌≡◌, ◌⊎◌, refl, sym, ◌∙◌, String, Bool, true, false, ◌||◌, none, some, [], arith,
  ◌==◌, is_some, if◌then◌else◌, inl, inr, Option-cases,
}
use solr_collections_operato.Base.Int.{pos}
use solr_collections_operato.Base.GoMap.{GoMap, lookup, has_key, NodupKeys, IsFair}
use solr_collections_operato.Base.Outcome.{Outcome, ok}
use solr_collections_operato.Api.{SolrCollectionSet, Settings, settings}
use solr_collections_operato.Solr.{AreNamed, SolrClient, Collection, ReplicationAdjustment}
use solr_collections_operato.Solr.Replicas.{ReplicaStore}
use solr_collections_operato.Platform.{Platform, World, adjust_queue}
use solr_collections_operato.Controller.Names.Mapped.{specified}
use solr_collections_operato.Controller.Replicas.{queue_adjustments, adjust_replicas}
use solr_collections_operato.Controller.Replicas.Queued.{needed, lookup-queue_adjustments}
use solr_collections_operato.Controller.Replicas.Idle.{AreFull, adjust_replicas_idle}
use solr_collections_operato.Controller.Replicas.Filled.{
  filled, AreDue, Fills, run_adjustments-Fills,
}
use solr_collections_operato.Controller.Replicas.Needed.{
  queue_named-NodupKeys, queue_all-NodupKeys, needed-some, needed-none,
}

-- The counts of what the cluster reports, and the names that Solr takes.
pub record AreCounted {P : Platform} {c : SolrClient} {factor : ℕ} (solr : ReplicaStore P c factor)
    (reported : GoMap Collection) : Type 0 where
  pub count : String → ℕ
  pub counted :
      (n : String) (x : Collection)
      → lookup n reported ≡ some x
      → (x.replica_count ≡ pos (count n)) × (count n < 2147483648)
  pub named : (n : String) (x : Collection) → lookup n reported ≡ some x → solr.is_name n ≡ true

module _ (P : Platform) (c : SolrClient) (factor : ℕ) (cfg : Settings)
    (solr : ReplicaStore P c factor) (set : SolrCollectionSet) (checksums : String)
    (w : World P) where
  -- The set asks for a collection of that name, or it is the one for the checksums.
  abbrev is_asked : String → Bool
  is_asked n = is_some (specified cfg.is_blue_green set.spec.collections n) || n == checksums

  -- What holds of a run: it ends without an error. A collection is as before, or one that the set asks
  -- for and with the replicas that it should have. If the run does not ask for a later one, the
  -- collections that the cluster then has are full, and the next run on a list of them does nothing.
  -- With enough nodes it does not ask for a later one.
  pub record Scales (result : Outcome Bool × World P) : Type 0 where
    pub is_waiting : Bool
    pub ends : result.0 ≡ ok is_waiting
    pub keeps :
        (n : String)
        → (solr.collection result.1.cluster n ≡ solr.collection w.cluster n)
          ⊎ ((x : Collection) × (is_asked n ≡ true)
              × (solr.collection w.cluster n ≡ some x)
              × (solr.collection result.1.cluster n ≡ some (filled factor x)))
    pub finishes :
        is_waiting ≡ false
        → (later : GoMap Collection)
        → ((n : String) → lookup n later ≡ solr.collection result.1.cluster n)
        → AreFull cfg set.spec.collections checksums later
          × (adjust_replicas P c set later checksums result.1 ≡ (ok false, result.1))
    pub needs_nodes : factor ≤ solr.nodes w.cluster → is_waiting ≡ false

module _ (P : Platform) (fair : IsFair P.order) (c : SolrClient) (factor : ℕ) (cfg : Settings)
    (solr : ReplicaStore P c factor) (set : SolrCollectionSet) (reported : GoMap Collection)
    (checksums : String) (w : World P) (positive : 0 < factor) (bounded : factor < 2147483648)
    (wanted : cfg.factor ≡ pos factor)
    (reads : (n : String) → lookup n reported ≡ solr.collection w.cluster n)
    (named : AreNamed reported) (counts : AreCounted solr reported) where
  abbrev queue : GoMap ReplicationAdjustment
  queue =
      P.order.visit adjust_queue ReplicationAdjustment
        (queue_adjustments P set.spec.collections cfg.is_blue_green cfg.factor reported checksums)

  queued-NodupKeys :
      NodupKeys
        (queue_adjustments P set.spec.collections cfg.is_blue_green cfg.factor reported checksums)
  unfolding queue_adjustments
  queued-NodupKeys =
      queue_named-NodupKeys reported cfg.factor checksums _
        (queue_all-NodupKeys reported cfg.factor _ [] tt)

  lookup-queue :
      (n : String)
      → lookup n queue ≡ (
          if is_asked P c factor cfg solr set checksums w n
          then needed cfg.factor (lookup n reported)
          else none)
  lookup-queue n =
      fair.lookup-visit adjust_queue ReplicationAdjustment _ queued-NodupKeys n
      ∙ lookup-queue_adjustments P fair set.spec.collections cfg.is_blue_green cfg.factor reported
          checksums named n

  queue-AreDue : AreDue P c factor solr positive bounded queue w
  queue-AreDue n a e = elim (Option-cases (lookup n reported)) [
    | inl absent ↦ absurd (ground (arith, lookup-queue n, absent))
    | inr (x, there) ↦
        let (entry, differs) =
          needed-some cfg.factor x a (ground (arith, lookup-queue n, there, e)) in
        let (counted, small) = counts.counted n x there in
        record {
          count = counts.count n;
          existing = x;
          named = counts.named n x there;
          there = sym (reads n) ∙ there;
          counted = counted;
          small = small;
          differs = λ same. differs (ground arith);
          is_adjustment = ground arith;
        }
  ]

  module _ (result : Outcome Bool × World P)
      (fills : Fills P c factor solr positive bounded queue w result) where
    asked_of_queued :
        (n : String)
        → has_key n queue ≡ true
        → is_asked P c factor cfg solr set checksums w n ≡ true
    unfolding has_key
    asked_of_queued n h = ground (arith, lookup-queue n)

    scaled_from :
        (later : GoMap Collection)
        → ((n : String) → lookup n later ≡ solr.collection result.1.cluster n)
        → (n : String) (x : Collection) → lookup n later ≡ some x
        → (lookup n reported ≡ some x)
          ⊎ ((y : Collection) × (lookup n reported ≡ some y) × (x ≡ filled factor y))
    scaled_from later known n x e = elim (fills.keeps n) [
      | inl same ↦ inl (reads n ∙ (sym same ∙ (sym (known n) ∙ e)))
      | inr (y, queued, before, after) ↦ inr (y, reads n ∙ before, ground (arith, known n))
    ]

    later-AreNamed :
        (later : GoMap Collection)
        → ((n : String) → lookup n later ≡ solr.collection result.1.cluster n)
        → AreNamed later
    later-AreNamed later known n x e = elim (scaled_from later known n x e) [
      | inl same ↦ named n x same
      | inr (y, before, same) ↦ rw same (named n y before)
    ]

    later-AreFull :
        fills.is_waiting ≡ false
        → (later : GoMap Collection)
        → ((n : String) → lookup n later ≡ solr.collection result.1.cluster n)
        → AreFull cfg set.spec.collections checksums later
    unfolding has_key
    later-AreFull stop later known = record {
      full = λ n x e asked. elim (scaled_from later known n x e) [
        | inr (y, before, same) ↦ rw same (sym wanted)
        | inl same ↦ elim (Option-cases (needed cfg.factor (some x))) [
          | inl due ↦
              let (counted, small) = counts.counted n x same in
              needed-none cfg.factor x (ground (arith, wanted)) (ground (arith, counted)) due
          | inr (a, due) ↦
              let queued : lookup n queue ≡ some a =
                ground (arith, lookup-queue n, same, asked, due) in
              let filled_up = fills.finishes stop n x (rw queued refl) (sym (reads n) ∙ same) in
              ground (arith, known n, wanted)
        ]
      ];
    }

  -- On a platform whose loops are fair, and a Solr that keeps the promises of the collections API on
  -- replicas and puts those of a collection on nodes of their own, with the pointers of the spec
  -- set, a positive replication factor of the range of `int32`, names that Solr takes, and the
  -- collections as the cluster has them, each under its own name, with counts of the range of
  -- `int32` that are not negative: AdjustReplicas ends without an error. Each collection is as
  -- before, or is one that the set asks for or the one for the checksums, and has as many replicas
  -- as the factor says. With as many nodes as this factor it reports no scaling; and if it reports
  -- none, all those collections have so many replicas, as far as the cluster has them, and the next
  -- run, on a list of the collections that the cluster then has, sends nothing, changes nothing and
  -- reports no scaling.
  pub adjust_replicas-Scales :
      settings set.spec ≡ ok cfg
      → Scales P c factor cfg solr set checksums w (adjust_replicas P c set reported checksums w)
  unfolding adjust_replicas
  adjust_replicas-Scales known =
      let fair_queue = fair.visit-NodupKeys adjust_queue ReplicationAdjustment _ queued-NodupKeys in
      let fills =
        run_adjustments-Fills P c factor solr positive bounded queue w fair_queue queue-AreDue in
      rw (known, adjust_replicas)
        (record {
          is_waiting = fills.is_waiting;
          ends = fills.ends;
          keeps = λ n. elim (fills.keeps n) [
            | inl same ↦ inl same
            | inr (x, queued, before, after) ↦
                inr (x, asked_of_queued _ fills n queued, before, after)
          ];
          finishes = λ stop later now.
              let full = later-AreFull _ fills stop later now in
              (
                full,
                adjust_replicas_idle P fair cfg set later checksums
                    (later-AreNamed _ fills later now) full c _ known,
              );
          needs_nodes = fills.needs_nodes;
        })
