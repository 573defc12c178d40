-- ===== src/Controller/Replicas/Needed.antt =====
-- The adjustments that AdjustReplicas queues: each name once, and only where a count differs.
use solr_collections_operato.Base.{
  ◌≡◌, ◌≢◌, sym, String, none, some, [], ◌∷◌, arith, inl, inr, Option-cases, Bool-cases,
}
use solr_collections_operato.Base.Int.{ℤ, pos, eqb_ℤ, eqb_ℤ→≡, sub32, sub32_zero, IsInt32}
use solr_collections_operato.Base.GoMap.{GoMap, lookup, NodupKeys, insert-NodupKeys}
use solr_collections_operato.Api.{SolrCollection}
use solr_collections_operato.Solr.{Collection, ReplicationAdjustment}
use solr_collections_operato.Controller.Replicas.{queue_named, queue_all}
use solr_collections_operato.Controller.Replicas.Queued.{needed}
use solr_collections_operato.Controller.Replicas.Idle.{needed-full}

module _ (solr : GoMap Collection) (factor : ℤ) where
  pub queue_named-NodupKeys :
      (name : String) (m : GoMap ReplicationAdjustment)
      → NodupKeys m
      → NodupKeys (queue_named solr factor name m)
  unfolding queue_named
  queue_named-NodupKeys name m u = elim (Option-cases (lookup name solr)) [
    | inl absent ↦ rw (absent, queue_named) u
    | inr (x, there) ↦ elim (Bool-cases (eqb_ℤ (sub32 factor x.replica_count) (pos 0))) [
      | inl zero ↦ rw (there, queue_named, zero) u
      | inr more ↦ rw (there, queue_named, more) (insert-NodupKeys x.name _ m u)
    ]
  ]

  pub queue_all-NodupKeys :
      (specs : GoMap SolrCollection) (m : GoMap ReplicationAdjustment)
      → NodupKeys m
      → NodupKeys (queue_all solr factor specs m)
  unfolding queue_all
  queue_all-NodupKeys [] m u = u
  queue_all-NodupKeys ((name, _) ∷ specs) m u =
      queue_all-NodupKeys specs _ (queue_named-NodupKeys name m u)

module _ (factor : ℤ) (x : Collection) where
  -- An adjustment that is needed changes the count.
  pub needed-some :
      (a : ReplicationAdjustment)
      → needed factor (some x) ≡ some a
      → (a ≡ record { current_count = x.replica_count; target_count = factor })
        × (x.replica_count ≢ factor)
  needed-some a e =
      let differs : x.replica_count ≢ factor =
        λ same. ground (arith, needed-full factor x same, e) in
      (ground (arith, e), differs)

  pub needed-none :
      IsInt32 factor
      → IsInt32 x.replica_count
      → needed factor (some x) ≡ none
      → x.replica_count ≡ factor
  needed-none h k e = elim (Bool-cases (eqb_ℤ (sub32 factor x.replica_count) (pos 0))) [
    | inl zero ↦ sym (
        sub32_zero factor x.replica_count h k (eqb_ℤ→≡ (sub32 factor x.replica_count) (pos 0) zero))
    | inr more ↦ absurd (ground (arith, more, e))
  ]
