-- ===== src/Controller/Replicas.antt =====
-- `AdjustReplicas` and `queueReplicaAdjustment` of
-- internal/controller/solrcollectionset_controller.go: the replica counts are brought to the
-- replication factor of the set.
pub mod Queued
pub mod Adjusted
pub mod Idle
pub mod Needed
pub mod Round
pub mod Filled
pub mod Converged
use solr_collections_operato.Base.{
  String, Bool, true, false, none, some, List, [], ◌∷◌, if◌then◌else◌,
}
use solr_collections_operato.Base.Int.{ℤ, pos, eqb_ℤ, ltb_ℤ, sub32}
use solr_collections_operato.Base.GoMap.{GoMap, lookup, insert}
use solr_collections_operato.Base.Exec.{◌>>=◌, ◌>>◌, pure, raise, lift}
use solr_collections_operato.Api.{SolrCollection, SolrCollectionSet, settings}
use solr_collections_operato.Solr.{SolrClient, Collection, ReplicationAdjustment}
use solr_collections_operato.Platform.{Platform, Go, adjust_specs, adjust_queue}
use solr_collections_operato.Solr.Client.Commands.{add_replicas, remove_replicas}
use solr_collections_operato.Controller.Names.{abs, map_collections}

-- `adjustment` is computed on `int32`, and may wrap.
unfoldable pub queue_replica_adjustment :
    Collection → ℤ → GoMap ReplicationAdjustment → GoMap ReplicationAdjustment
unfolding sub32
queue_replica_adjustment collection factor m =
    if eqb_ℤ (sub32 factor collection.replica_count) (pos 0)
    then m
    else insert collection.name
        (record { current_count = collection.replica_count; target_count = factor }) m

-- What the loop and the statement after it do with a name: a missing collection is only logged.
unfoldable pub queue_named :
    GoMap Collection → ℤ → String → GoMap ReplicationAdjustment → GoMap ReplicationAdjustment
unfolding queue_replica_adjustment
queue_named solr factor name m = elim (lookup name solr) [
  | none ↦ m
  | some collection ↦ queue_replica_adjustment collection factor m
]

-- The loop over the names of the spec.
unfoldable pub queue_all :
    GoMap Collection
    → ℤ
    → GoMap SolrCollection
    → GoMap ReplicationAdjustment
    → GoMap ReplicationAdjustment
queue_all solr factor [] m = m
queue_all solr factor ((name, _) ∷ specs) m =
    queue_all solr factor specs (queue_named solr factor name m)

module _ (P : Platform) where
  -- The adjustments to make; the checksum collection, which is in no spec, comes last.
  unfoldable pub queue_adjustments :
      List SolrCollection → Bool → ℤ → GoMap Collection → String → GoMap ReplicationAdjustment
  queue_adjustments collections is_blue_green factor solr checksum_collection =
      queue_named solr factor checksum_collection (
        queue_all solr factor
          (P.order.visit adjust_specs SolrCollection (map_collections collections [] is_blue_green))
          [])

  module _ (c : SolrClient) where
    -- The loop that makes the adjustments. It ends early with true where Solr waits for nodes, whatever
    -- the error says, and with the first other error.
    unfoldable pub run_adjustments : GoMap ReplicationAdjustment → Go P Bool
    run_adjustments [] = pure false
    run_adjustments ((name, adjustment) ∷ m) =
        let rest = run_adjustments m in
        let diff = sub32 adjustment.target_count adjustment.current_count in
        if ltb_ℤ (pos 0) diff
        then (add_replicas P c name diff >>= λ (is_scaling, error).
            if is_scaling then pure true else elim error [ none ↦ rest | some e ↦ raise e ])
        else (remove_replicas P c name (abs diff) >> rest)

    -- The pointers of the spec, which WithDefaults sets, are followed first.
    unfoldable pub adjust_replicas : SolrCollectionSet → GoMap Collection → String → Go P Bool
    unfolding settings
    adjust_replicas set solr checksum_collection = do
      cfg ← lift (settings set.spec)
      run_adjustments (
          P.order.visit adjust_queue ReplicationAdjustment (
            queue_adjustments set.spec.collections cfg.is_blue_green cfg.factor solr
              checksum_collection))
