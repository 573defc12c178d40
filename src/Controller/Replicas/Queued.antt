-- ===== src/Controller/Replicas/Queued.antt =====
-- Which adjustments are queued, whatever the order of the loop.
use solr_collections_operato.Base.{
  ◌≡◌, String, Bool, ◌&&◌, ◌||◌, Option, none, some, List, [], ◌∷◌, arith, if◌then◌else◌, ◌==◌,
  is_some, inl, inr, Option-cases,
}
use solr_collections_operato.Base.Int.{ℤ, pos, eqb_ℤ, sub32}
use solr_collections_operato.Base.GoMap.{
  GoMap, lookup, NodupKeys, IsFair, lookup-nil, lookup-cons, lookup-insert,
}
use solr_collections_operato.Api.{SolrCollection}
use solr_collections_operato.Solr.{Collection, ReplicationAdjustment, AreNamed}
use solr_collections_operato.Platform.{Platform, adjust_specs}
use solr_collections_operato.Controller.Names.{map_collections}
use solr_collections_operato.Controller.Names.Mapped.{
  specified, map_collections-NodupKeys, lookup-visit_map_collections,
}
use solr_collections_operato.Controller.Replicas.{queue_named, queue_all, queue_adjustments}

-- The adjustment that a collection needs, if any.
abbrev pub needed : ℤ → Option Collection → Option ReplicationAdjustment
needed factor none = none
needed factor (some collection) =
    if eqb_ℤ (sub32 factor collection.replica_count) (pos 0)
    then none
    else some (record { current_count = collection.replica_count; target_count = factor })

module _ (solr : GoMap Collection) (factor : ℤ) (named : AreNamed solr) where
  lookup-queue_named :
      (name : String) (m : GoMap ReplicationAdjustment) (n : String)
      → lookup n (queue_named solr factor name m) ≡ (
          if n == name && is_some (needed factor (lookup name solr))
          then needed factor (lookup name solr)
          else lookup n m)
  unfolding queue_named
  lookup-queue_named name m n = elim (Option-cases (lookup name solr)) [
    | inl e ↦ rw (e, queue_named) (ground arith)
    | inr (collection, e) ↦
        rw (e, queue_named)
          (ground (
            arith,
            named name collection e,
            lookup-insert n collection.name
                (record { current_count = collection.replica_count; target_count = factor }) m,
          ))
  ]

  lookup-queue_all :
      (specs : GoMap SolrCollection) (m : GoMap ReplicationAdjustment) (n : String)
      → NodupKeys specs
      → lookup n (queue_all solr factor specs m) ≡ (
          if is_some (lookup n specs) && is_some (needed factor (lookup n solr))
          then needed factor (lookup n solr)
          else lookup n m)
  unfolding queue_all
  lookup-queue_all [] m n u = ground (arith, lookup-nil {V = SolrCollection} n)
  lookup-queue_all ((name, spec) ∷ specs) m n (fresh, u) = ground (
    arith,
    lookup-queue_all specs (queue_named solr factor name m) n u,
    lookup-queue_named name m n,
    lookup-cons n name spec specs,
  )

module _ (P : Platform) (fair : IsFair P.order) (collections : List SolrCollection)
    (is_blue_green : Bool) (factor : ℤ) (solr : GoMap Collection) (checksum_collection : String)
    (named : AreNamed solr) where
  -- On a platform whose loops are fair, with every collection under its own name: an adjustment is
  -- queued under a name exactly when the spec asks for that collection or it is the checksum
  -- collection, the cluster has it, and the wrapped difference of its replica count and the
  -- replication factor of the set is not zero.
  pub lookup-queue_adjustments :
      (n : String)
      → lookup n (queue_adjustments P collections is_blue_green factor solr checksum_collection) ≡ (
          if is_some (specified is_blue_green collections n) || n == checksum_collection
          then needed factor (lookup n solr)
          else none)
  unfolding queue_adjustments
  lookup-queue_adjustments n =
      let visited =
        P.order.visit adjust_specs SolrCollection (map_collections collections [] is_blue_green) in
      ground (
        arith,
        lookup-queue_named solr factor named checksum_collection (queue_all solr factor visited [])
            n,
        lookup-queue_all solr factor named visited [] n (
            fair.visit-NodupKeys adjust_specs SolrCollection _
              (map_collections-NodupKeys is_blue_green collections [] tt)),
        lookup-visit_map_collections P.order fair adjust_specs is_blue_green collections n,
        lookup-nil {V = ReplicationAdjustment} n,
      )
