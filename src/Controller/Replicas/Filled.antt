-- ===== src/Controller/Replicas/Filled.antt =====
-- What a cluster has after the loop of `AdjustReplicas` that makes the adjustments, where Solr does what
-- the collections API promises.
use native.Mathlib.Decide.{dec_lt}
use solr_collections_operato.Base.{
  ℕ, ◌-◌, ◌≤◌, ◌<◌, ◌≡◌, ◌≢◌, ◌⊎◌, refl, ◌∙◌, String, Bool, true, false, none, some, [], ◌∷◌, arith,
  ◌==◌, if◌then◌else◌, inl, inr, Bool-cases, ==→≡,
}
use solr_collections_operato.Base.Int.{pos}
use solr_collections_operato.Base.GoMap.{GoMap, lookup, has_key, NodupKeys, lookup-cons}
use solr_collections_operato.Base.Outcome.{Outcome, ok}
use solr_collections_operato.Solr.{SolrClient, Collection, ReplicationAdjustment}
use solr_collections_operato.Platform.{Request, Platform, World}
use solr_collections_operato.Solr.Client.Commands.{add_replicas_request}
use solr_collections_operato.Solr.Client.Delivery.{after}
use solr_collections_operato.Solr.ConfigStore.{IsFine, cluster-fine}
use solr_collections_operato.Solr.Replicas.{ReplicaStore, cluster-accepted}
use solr_collections_operato.Controller.Replicas.{run_adjustments}
use solr_collections_operato.Controller.Replicas.Round.{run-add, run-wait, run-remove}

-- The collection with as many replicas as it should have.
abbrev pub filled : ℕ → Collection → Collection
filled factor x = record x { replica_count = pos factor }

module _ (P : Platform) (c : SolrClient) (factor : ℕ) (solr : ReplicaStore P c factor)
    (positive : 0 < factor) (bounded : factor < 2147483648) where
  -- An adjustment that the cluster needs.
  pub record IsDue (w : World P) (name : String) (adjustment : ReplicationAdjustment) : Type 0 where
    pub count : ℕ
    pub existing : Collection
    pub named : solr.is_name name ≡ true
    pub there : solr.collection w.cluster name ≡ some existing
    pub counted : existing.replica_count ≡ pos count
    pub small : count < 2147483648
    pub differs : count ≢ factor
    pub is_adjustment : adjustment ≡ record { current_count = pos count; target_count = pos factor }

  abbrev pub AreDue : GoMap ReplicationAdjustment → World P → Type 0
  AreDue m w = (n : String) (a : ReplicationAdjustment) → lookup n m ≡ some a → IsDue w n a

  -- The adjustments end without an error. A collection is as before, or one of those to adjust and has
  -- the replicas that it should have. If the run is not to be continued later, all of them have; and
  -- with enough nodes it is not.
  pub record Fills (m : GoMap ReplicationAdjustment) (w : World P) (result : Outcome Bool × World P)
      : Type 0 where
    pub is_waiting : Bool
    pub ends : result.0 ≡ ok is_waiting
    pub keeps :
        (n : String)
        → (solr.collection result.1.cluster n ≡ solr.collection w.cluster n)
          ⊎ ((x : Collection) × (has_key n m ≡ true)
              × (solr.collection w.cluster n ≡ some x)
              × (solr.collection result.1.cluster n ≡ some (filled factor x)))
    pub finishes :
        is_waiting ≡ false
        → (n : String) (x : Collection) → has_key n m ≡ true
        → solr.collection w.cluster n ≡ some x
        → solr.collection result.1.cluster n ≡ some (filled factor x)
    pub needs_nodes : factor ≤ solr.nodes w.cluster → is_waiting ≡ false

  -- One adjustment was made, and the others follow.
  module _ (name : String) (adjustment : ReplicationAdjustment) (m : GoMap ReplicationAdjustment)
      (fresh : lookup name m ≡ none) (w v : World P) (x : Collection)
      (there : solr.collection w.cluster name ≡ some x)
      (made : (n : String)
        → solr.collection v.cluster n
          ≡ (if n == name then some (filled factor x) else solr.collection w.cluster n))
      (same_nodes : solr.nodes v.cluster ≡ solr.nodes w.cluster) where
    rest-AreDue : AreDue ((name, adjustment) ∷ m) w → AreDue m v
    rest-AreDue due n a e =
        let d : IsDue w n a = due n a (ground (arith, lookup-cons n name adjustment m)) in
        record {
          count = d.count;
          existing = d.existing;
          named = d.named;
          there = ground (arith, made n, d.there);
          counted = d.counted;
          small = d.small;
          differs = d.differs;
          is_adjustment = d.is_adjustment;
        }

    Fills-made :
        (result : Outcome Bool × World P)
        → Fills m v result
        → Fills ((name, adjustment) ∷ m) w result
    unfolding has_key
    Fills-made result rest = record {
      is_waiting = rest.is_waiting;
      ends = rest.ends;
      keeps = λ n. elim (rest.keeps n) [
        | inl e ↦ elim (Bool-cases (n == name)) [
          | inl same ↦ inr (
            x,
            ground (arith, lookup-cons n name adjustment m),
            ground arith,
            ground (arith, made n),
          )
          | inr other ↦ inl (e ∙ (made n ∙ rw other refl))
        ]
        | inr (y, hk, before, after) ↦
            inr (y, ground (arith, lookup-cons n name adjustment m), ground (arith, made n), after)
      ];
      finishes = λ stop n y hk before. elim (Bool-cases (n == name)) [
        | inl same ↦ elim (rest.keeps n) [
          | inl e ↦ ground (arith, made n)
          | inr (z, hk', before', after) ↦ absurd (ground (arith, ==→≡ n name same))
        ]
        | inr other ↦
            rest.finishes stop n y (ground (arith, lookup-cons n name adjustment m))
              (made n ∙ rw other before)
      ];
      needs_nodes = λ enough. rest.needs_nodes (rw same_nodes enough);
    }

  Fills-nil : (w : World P) → Fills [] w (ok false, w)
  unfolding has_key lookup
  Fills-nil w = record {
    is_waiting = false;
    ends = refl;
    keeps = λ n. inl refl;
    finishes = λ stop n x there. ground arith;
    needs_nodes = λ enough. refl;
  }

  Fills-waiting :
      (m : GoMap ReplicationAdjustment) (w v : World P)
      → ((n : String) → solr.collection v.cluster n ≡ solr.collection w.cluster n)
      → solr.nodes w.cluster < factor
      → Fills m w (ok true, v)
  Fills-waiting m w v same few = record {
    is_waiting = true;
    ends = refl;
    keeps = λ n. inl (same n);
    finishes = λ stop. absurd (ground arith);
    needs_nodes = λ enough. absurd (omega arith);
  }

  module _ (name : String) (adjustment : ReplicationAdjustment) (m : GoMap ReplicationAdjustment)
      (fresh : lookup name m ≡ none) (w : World P) (d : IsDue w name adjustment) where
    -- The world after the request for the adjustment, where Solr makes it.
    abbrev IsMade : World P → Type 0
    IsMade v =
        ((n : String)
          → solr.collection v.cluster n
            ≡ (if n == name then some (filled factor d.existing) else solr.collection w.cluster n))
        × (solr.nodes v.cluster ≡ solr.nodes w.cluster)

    Fills-next :
        ((v : World P) → IsMade v → Fills m v (run_adjustments P c m v))
        → (req : Request) → IsFine P req w.cluster
        → ((n : String)
            → solr.collection (P.do_request req w.cluster).1 n ≡ (
                if n == name then some (filled factor d.existing) else solr.collection w.cluster n))
        → solr.nodes (P.do_request req w.cluster).1 ≡ solr.nodes w.cluster
        → (a : ReplicationAdjustment)
        → Fills ((name, a) ∷ m) w (run_adjustments P c m (after P req w))
    Fills-next rest req fine made nodes a =
        let same = cluster-fine P w req fine in
        let reads : IsMade (after P req w) = (λ n. rw same (made n), rw same nodes) in
        Fills-made name a m fresh w (after P req w) d.existing d.there reads.0 reads.1 _
          (rest (after P req w) reads)

    -- One round of the loop, whatever the collection lacks or has too much of.
    Fills-cons :
        ((v : World P) → IsMade v → Fills m v (run_adjustments P c m v))
        → Fills ((name, adjustment) ∷ m) w (run_adjustments P c ((name, adjustment) ∷ m) w)
    Fills-cons rest =
        let add = add_replicas_request c name (pos (factor - d.count)) in
        rw d.is_adjustment (elim (dec_lt d.count factor) [
          | yes few ↦ elim (dec_lt (solr.nodes w.cluster) factor) [
            | yes short ↦
                let (wait, same) =
                  solr.wait name d.existing d.count w.cluster d.named d.there d.counted few short in
                rw (run-wait P c factor bounded name d.count d.small m w few wait) (
                  Fills-waiting _ w (after P add w)
                    (λ n. rw (cluster-accepted P w add wait.accepted) (same n)) short)
            | no enough ↦
                let (fine, same, nodes) =
                  solr.add name d.existing d.count w.cluster d.named d.there d.counted few
                    (omega arith) in
                rw (run-add P c factor bounded name d.count d.small m w few fine)
                  (Fills-next rest add fine same nodes _)
          ]
          | no many ↦
              let more : factor < d.count = omega (arith, d.differs) in
              let (fine, same, nodes) =
                solr.remove name d.existing d.count w.cluster d.named d.there d.counted more
                  positive in
              rw (run-remove P c factor bounded name d.count d.small m w more fine)
                (Fills-next rest _ fine same nodes _)
        ])

  pub run_adjustments-Fills :
      (m : GoMap ReplicationAdjustment) (w : World P)
      → NodupKeys m
      → AreDue m w
      → Fills m w (run_adjustments P c m w)
  unfolding run_adjustments
  run_adjustments-Fills [] w u due = Fills-nil w
  run_adjustments-Fills ((name, adjustment) ∷ m) w (fresh, u) due =
      let d : IsDue w name adjustment =
        due name adjustment (ground (arith, lookup-cons name name adjustment m)) in
      Fills-cons name adjustment m fresh w d (λ v made.
        run_adjustments-Fills m v u
          (rest-AreDue name adjustment m fresh w v d.existing d.there made.0 made.1 due))
