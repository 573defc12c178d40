-- ===== src/Tests/Replicas.antt =====
-- `AdjustReplicas` at concrete data.
use solr_collections_operato.Base.{
  ◌≡◌, refl, Bool, false, ◌||◌, none, some, [], ◌∷◌, map, arith, ◌==◌, is_some, String-discrete,
  if◌then◌else◌,
}
use solr_collections_operato.Base.Int.{pos, sub32}
use solr_collections_operato.Base.GoMap.{GoMap, lookup, insert}
use solr_collections_operato.Base.Decimal.{decimal, show_int}
use solr_collections_operato.Base.Outcome.{Outcome}
use solr_collections_operato.Solr.{AreNamed, ReplicationAdjustment}
use solr_collections_operato.Platform.{Request, World}
use solr_collections_operato.Solr.Client.Commands.{
  add_replicas_request, remove_replicas_request, add_replicas, remove_replicas,
  remove_replicas_request,
}
use solr_collections_operato.Controller.Names.{map_collections, abs}
use solr_collections_operato.Controller.Names.Mapped.{specified}
use solr_collections_operato.Controller.Replicas.{
  queue_all, queue_named, queue_adjustments, run_adjustments, adjust_replicas,
}
use solr_collections_operato.Controller.Replicas.Queued.{needed, lookup-queue_adjustments}
use solr_collections_operato.Controller.Replicas.Adjusted.{
  adjustments, run_adjustments-amounts, adjustment_requests, Runs, run_adjustments-Runs,
}
use solr_collections_operato.Tests.Data.{
  in_order-IsFair as fair, platform, start, client, specs, set_of, settled,
}

adjusted : Outcome Bool × World platform
unfolding adjust_replicas queue_adjustments queue_all queue_named map_collections run_adjustments
    add_replicas remove_replicas abs sub32
adjusted =
    adjust_replicas platform client (set_of (some false) (some false)) settled "_libraryChecksums"
      start

-- Two collections lack a replica.
adjusted_run :
    map (λ (r : Request). r.url) adjusted.1.sent
    ≡ "http://solr/solr/admin/collections?action=ADDREPLICA&collection=books&shard=shard1&nrtReplicas=1&wt=json"
      ∷ "http://solr/solr/admin/collections?action=ADDREPLICA&collection=_libraryChecksums&shard=shard1&nrtReplicas=1&wt=json"
      ∷ []
unfolding adjusted String-discrete lookup insert show_int decimal
adjusted_run = refl

settled-AreNamed : AreNamed settled
unfolding lookup
settled-AreNamed n collection e = ground arith

lookup-queue_adjustments_example :
    lookup "books" (queue_adjustments platform specs false (pos 2) settled "_libraryChecksums") ≡ (
      if is_some (specified false specs "books") || "books" == "_libraryChecksums"
      then needed (pos 2) (lookup "books" settled)
      else none)
lookup-queue_adjustments_example =
    lookup-queue_adjustments platform fair specs false (pos 2) settled "_libraryChecksums"
      settled-AreNamed "books"

run_adjustments-amounts_example :
    Runs platform
      (add_replicas_request client "books" (pos 1)
        ∷ remove_replicas_request client "films" (pos 2)
        ∷ [])
      start
      (run_adjustments platform client
        (adjustments (("books", (1, 2)) ∷ ("films", (4, 2)) ∷ []))
        start)
run_adjustments-amounts_example =
    run_adjustments-amounts platform client (("books", (1, 2)) ∷ ("films", (4, 2)) ∷ []) start
      (omega arith, omega arith, (omega arith, omega arith, tt))

abbrev queue : GoMap ReplicationAdjustment
queue =
    ("books", record { current_count = pos 1; target_count = pos 2 })
    ∷ ("films", record { current_count = pos 4; target_count = pos 2 })
    ∷ []

run_adjustments-Runs_example :
    Runs platform
      (adjustment_requests client queue)
      start
      (run_adjustments platform client queue start)
run_adjustments-Runs_example = run_adjustments-Runs platform client queue start
