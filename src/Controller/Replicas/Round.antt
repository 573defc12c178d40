-- ===== src/Controller/Replicas/Round.antt =====
-- One round of the loop of `AdjustReplicas` that makes the adjustments.
use solr_collections_operato.Base.{ℕ, ◌-◌, ◌<◌, ◌≡◌, refl, String, true, false, ◌∷◌, arith}
use solr_collections_operato.Base.Int.{pos, ltb_ℤ, sub32}
use solr_collections_operato.Base.GoMap.{GoMap}
use solr_collections_operato.Base.Outcome.{ok}
use solr_collections_operato.Solr.{SolrClient, ReplicationAdjustment}
use solr_collections_operato.Platform.{Platform, World}
use solr_collections_operato.Solr.Client.Commands.{add_replicas_request, remove_replicas_request}
use solr_collections_operato.Solr.Client.Delivery.{after}
use solr_collections_operato.Solr.ConfigStore.{IsFine}
use solr_collections_operato.Solr.Replicas.{
  IsWaiting, add_replicas-fine, add_replicas-waiting, remove_replicas-fine,
}
use solr_collections_operato.Controller.Names.{abs}
use solr_collections_operato.Controller.Replicas.{run_adjustments}

module _ (current target : ℕ) (h : current < 2147483648) (k : target < 2147483648) where
  sub32-add : current < target → sub32 (pos target) (pos current) ≡ pos (target - current)
  unfolding sub32
  sub32-add lt = ground arith

  abs-sub32 : target < current → abs (sub32 (pos target) (pos current)) ≡ pos (current - target)
  unfolding sub32 abs
  abs-sub32 lt = ground arith

  is_add : current < target → ltb_ℤ (pos 0) (sub32 (pos target) (pos current)) ≡ true
  unfolding sub32
  is_add lt = ground arith

  is_remove : target < current → ltb_ℤ (pos 0) (sub32 (pos target) (pos current)) ≡ false
  unfolding sub32
  is_remove lt = ground arith

module _ (P : Platform) (c : SolrClient) (factor : ℕ) (bounded : factor < 2147483648) where
  module _ (name : String) (count : ℕ) (small : count < 2147483648)
      (m : GoMap ReplicationAdjustment) (w : World P) where
    abbrev due_adjustment : ReplicationAdjustment
    due_adjustment = record { current_count = pos count; target_count = pos factor }

    pub run-add :
        count < factor
        → IsFine P (add_replicas_request c name (pos (factor - count))) w.cluster
        → run_adjustments P c ((name, due_adjustment) ∷ m) w
          ≡ run_adjustments P c m (after P (add_replicas_request c name (pos (factor - count))) w)
    unfolding run_adjustments
    run-add few fine =
        rw
          (
            is_add count factor small bounded few,
            sub32-add count factor small bounded few,
            add_replicas-fine P c name (pos (factor - count)) w fine,
          )
          refl

    pub run-wait :
        count < factor
        → IsWaiting P (add_replicas_request c name (pos (factor - count))) w.cluster
        → run_adjustments P c ((name, due_adjustment) ∷ m) w
          ≡ (ok true, after P (add_replicas_request c name (pos (factor - count))) w)
    unfolding run_adjustments
    run-wait few wait =
        rw
          (
            is_add count factor small bounded few,
            sub32-add count factor small bounded few,
            (add_replicas-waiting P c name (pos (factor - count)) w wait).1,
          )
          refl

    pub run-remove :
        factor < count
        → IsFine P (remove_replicas_request c name (pos (count - factor))) w.cluster
        → run_adjustments P c ((name, due_adjustment) ∷ m) w
          ≡ run_adjustments P c m
              (after P (remove_replicas_request c name (pos (count - factor))) w)
    unfolding run_adjustments
    run-remove many fine =
        rw
          (
            is_remove count factor small bounded many,
            abs-sub32 count factor small bounded many,
            remove_replicas-fine P c name (pos (count - factor)) w fine,
          )
          refl
