-- ===== src/Controller/Replicas/Adjusted.antt =====
-- What the adjustment of the replicas sends, and when it stops.
use mathlib.Core.Path.{subst}
use solr_collections_operato.Base.{
  ℕ, ◌-◌, ◌<◌, ◌≡◌, ◌≢◌, refl, ap, String, Bool, true, false, Option, none, some, List, [], ◌∷◌,
  ◌++◌, arith, if◌then◌else◌, ltb, inl, inr, Bool-cases,
}
use solr_collections_operato.Base.Int.{ℤ, pos, ltb_ℤ, sub32}
use solr_collections_operato.Base.GoMap.{GoMap}
use solr_collections_operato.Base.Outcome.{Outcome, ok, err, panic}
use solr_collections_operato.Base.Exec.{resume, pure, raise}
use solr_collections_operato.Solr.{SolrClient, ReplicationAdjustment}
use solr_collections_operato.Platform.{Request, Platform, World, Go}
use solr_collections_operato.Solr.Client.Commands.{
  add_replicas, remove_replicas, add_replicas_request, remove_replicas_request,
}
use solr_collections_operato.Solr.Client.Delivery.{
  after, after_all, command-after, add_replicas-after,
}
use solr_collections_operato.Controller.Names.{abs}
use solr_collections_operato.Controller.Replicas.{run_adjustments}

-- The request for an adjustment.
unfoldable pub adjustment_request : SolrClient → String → ReplicationAdjustment → Request
adjustment_request c name adjustment =
    let diff = sub32 adjustment.target_count adjustment.current_count in
    if ltb_ℤ (pos 0) diff
    then add_replicas_request c name diff
    else remove_replicas_request c name (abs diff)

abbrev pub adjustment_requests : SolrClient → GoMap ReplicationAdjustment → List Request
adjustment_requests c [] = []
adjustment_requests c ((name, adjustment) ∷ m) =
    adjustment_request c name adjustment ∷ adjustment_requests c m

adjustment_request_amount :
    (c : SolrClient) (name : String) (current target : ℕ)
    → current < 2147483648
    → target < 2147483648
    → adjustment_request c name (record { current_count = pos current; target_count = pos target })
      ≡ (if ltb current target
          then add_replicas_request c name (pos (target - current))
          else remove_replicas_request c name (pos (current - target)))
unfolding adjustment_request sub32 abs
adjustment_request_amount c name current target h k = ground arith

module _ (c : SolrClient) (name : String) (adjustment : ReplicationAdjustment) where
  adjustment_request_add :
      ltb_ℤ (pos 0) (sub32 adjustment.target_count adjustment.current_count) ≡ true
      → adjustment_request c name adjustment
        ≡ add_replicas_request c name (sub32 adjustment.target_count adjustment.current_count)
  unfolding adjustment_request
  adjustment_request_add e = rw e

  adjustment_request_remove :
      ltb_ℤ (pos 0) (sub32 adjustment.target_count adjustment.current_count) ≡ false
      → adjustment_request c name adjustment
        ≡ remove_replicas_request c name
            (abs (sub32 adjustment.target_count adjustment.current_count))
  unfolding adjustment_request
  adjustment_request_remove e = rw e

remove_replicas-after :
    (P : Platform) (c : SolrClient) (name : String) (count : ℤ) (w : World P)
    → (remove_replicas P c name count w).1 ≡ after P (remove_replicas_request c name count) w
unfolding remove_replicas
remove_replicas-after P c name count w = command-after P (remove_replicas_request c name count) _ w

module _ (P : Platform) where
  -- Some first part of the requests was made, and all of them if the result is false.
  abbrev pub Runs : List Request → World P → Outcome Bool × World P → Type 0
  Runs reqs w result =
      (done left : List Request) × (done ++ left ≡ reqs)
      × (result.1 ≡ after_all P done w)
      × (result.0 ≡ ok false → left ≡ [])

  module _ (req : Request) (reqs : List Request) (w : World P) where
    Runs-stop :
        (result : Outcome Bool × World P)
        → result.1 ≡ after P req w
        → result.0 ≢ ok false
        → Runs (req ∷ reqs) w result
    unfolding after_all
    Runs-stop result e stop = (req ∷ [], reqs, refl, e, λ h. absurd (stop h))

    Runs-more :
        (result : Outcome Bool × World P)
        → Runs reqs (after P req w) result
        → Runs (req ∷ reqs) w result
    unfolding after_all
    Runs-more result (done, left, all, made, rest) =
        (req ∷ done, left, ap (λ (l : List Request). req ∷ l) all, made, rest)

    Runs-add :
        (rest : Go P Bool) (r : Outcome (Bool × Option String) × World P)
        → r.1 ≡ after P req w
        → Runs reqs (after P req w) (rest (after P req w))
        → Runs (req ∷ reqs) w (
            resume
              (λ (is_scaling, error).
                if is_scaling then pure true else elim error [ none ↦ rest | some e ↦ raise e ])
              r)
    Runs-add rest (ok (true, error), v) e more = Runs-stop (ok true, v) e (λ h. cc)
    Runs-add rest (ok (false, none), v) e more = Runs-more _ (rw e more)
    Runs-add rest (ok (false, some message), v) e more = Runs-stop (err message, v) e (λ h. cc)
    Runs-add rest (err message, v) e more = Runs-stop (err message, v) e (λ h. cc)
    Runs-add rest (panic, v) e more = Runs-stop (panic, v) e (λ h. cc)

    Runs-remove :
        (rest : Go P Bool) (r : Outcome (Unit {0}) × World P)
        → r.1 ≡ after P req w
        → Runs reqs (after P req w) (rest (after P req w))
        → Runs (req ∷ reqs) w (resume (λ _. rest) r)
    Runs-remove rest (ok x, v) e more = Runs-more _ (rw e more)
    Runs-remove rest (err message, v) e more = Runs-stop (err message, v) e (λ h. cc)
    Runs-remove rest (panic, v) e more = Runs-stop (panic, v) e (λ h. cc)

  -- The loop of AdjustReplicas makes the requests of the adjustments in their order, one for
  -- each adjustment, and may stop early; if it returns false without an error, it has made all
  -- of them.
  pub run_adjustments-Runs :
      (c : SolrClient) (m : GoMap ReplicationAdjustment) (w : World P)
      → Runs (adjustment_requests c m) w (run_adjustments P c m w)
  unfolding run_adjustments after_all
  run_adjustments-Runs c [] w = ([], [], refl, refl, λ h. refl)
  run_adjustments-Runs c ((name, adjustment) ∷ m) w =
      let diff = sub32 adjustment.target_count adjustment.current_count in
      elim (Bool-cases (ltb_ℤ (pos 0) diff)) [
        | inl e ↦
            rw (adjustment_request_add c name adjustment e, e)
              (Runs-add (add_replicas_request c name diff) (adjustment_requests c m) w
                (run_adjustments P c m) (add_replicas P c name diff w)
                (add_replicas-after P c name diff w) (run_adjustments-Runs c m _))
        | inr e ↦
            rw (adjustment_request_remove c name adjustment e, e)
              (Runs-remove (remove_replicas_request c name (abs diff)) (adjustment_requests c m) w
                (run_adjustments P c m) (remove_replicas P c name (abs diff) w)
                (remove_replicas-after P c name (abs diff) w) (run_adjustments-Runs c m _))
      ]

-- A queue of current and wanted counts, as the adjustments that the code makes of it.
abbrev pub adjustments : GoMap (ℕ × ℕ) → GoMap ReplicationAdjustment
adjustments [] = []
adjustments ((name, (current, target)) ∷ m) =
    (name, record { current_count = pos current; target_count = pos target }) ∷ adjustments m

abbrev pub AreBounded : GoMap (ℕ × ℕ) → Type 0
AreBounded [] = Unit
AreBounded ((name, (current, target)) ∷ m) =
    (current < 2147483648) × (target < 2147483648) × AreBounded m

-- The requests for the replicas that are missing or too many.
abbrev pub amount_requests : SolrClient → GoMap (ℕ × ℕ) → List Request
amount_requests c [] = []
amount_requests c ((name, (current, target)) ∷ m) =
    (if ltb current target
      then add_replicas_request c name (pos (target - current))
      else remove_replicas_request c name (pos (current - target)))
    ∷ amount_requests c m

adjustment_requests-amounts :
    (c : SolrClient) (m : GoMap (ℕ × ℕ))
    → AreBounded m
    → adjustment_requests c (adjustments m) ≡ amount_requests c m
adjustment_requests-amounts c [] bounded = refl
adjustment_requests-amounts c ((name, (current, target)) ∷ m) (h, k, bounded) =
    rw
      (adjustment_request_amount c name current target h k, adjustment_requests-amounts c m bounded)
      refl

-- For counts that are not negative and of the range of `int32`: the loop adds to each
-- collection the replicas that it lacks, or removes those that it has too many, as ADDREPLICA
-- and DELETEREPLICA requests with these numbers in the order of the queue. It may stop early;
-- if it returns false without an error, it has made all of the requests.
pub run_adjustments-amounts :
    (P : Platform) (c : SolrClient) (m : GoMap (ℕ × ℕ)) (w : World P)
    → AreBounded m
    → Runs P (amount_requests c m) w (run_adjustments P c (adjustments m) w)
run_adjustments-amounts P c m w bounded =
    subst (λ reqs. Runs P reqs w (run_adjustments P c (adjustments m) w))
      (adjustment_requests-amounts c m bounded) (run_adjustments-Runs P c (adjustments m) w)
