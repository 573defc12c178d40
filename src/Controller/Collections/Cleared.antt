-- ===== src/Controller/Collections/Cleared.antt =====
-- What a cluster has after the loops of `ManageCollections`, where it keeps the promises of the
-- collections API.
use mathlib.Core.Option.{map as map_option}
use solr_collections_operato.Base.{
  ◌&&◌, ◌≡◌, ◌≢◌, ◌∙◌, sym, inl, inr, String, true, none, some, Option-cases, List, arith,
  if◌then◌else◌,
}
use solr_collections_operato.Base.Int.{eqb_ℤ}
use solr_collections_operato.Base.GoMap.{GoMap, IsFair, lookup, has_key, NodupKeys}
use solr_collections_operato.Api.{SolrCollection, Settings}
use solr_collections_operato.Solr.{SolrClient, Collection}
use solr_collections_operato.Platform.{
  Platform, World, manage_creates, manage_alias_deletes, manage_deletes, manage_adjusts,
}
use solr_collections_operato.Solr.Client.Commands.{
  delete_alias_request, delete_collection_request, set_replication_factor_request,
}
use solr_collections_operato.Solr.Client.Delivery.{after_all, after_all-append}
use solr_collections_operato.Solr.Cluster.{SolrCluster}
use solr_collections_operato.Solr.Cluster.Requests.{collection_of, alias_of}
use solr_collections_operato.Controller.Names.Mapped.{specified}
use solr_collections_operato.Controller.Collections.{Plan, plan_collections}
use solr_collections_operato.Controller.Collections.Planned.{is_stray}
use solr_collections_operato.Controller.Collections.Run.{
  plan_requests, create_requests, key_requests,
}
use solr_collections_operato.Controller.Collections.Ready.{IsReady}
use solr_collections_operato.Controller.Collections.Effects.{
  after_modifies, after_deletes, after_delete_aliases, alias-delete_aliases,
}
use solr_collections_operato.Controller.Collections.Created.{
  CanCreate, after_creates, alias-creates,
}
use solr_collections_operato.Controller.Collections.Visited.{
  changed, creates-NodupKeys_visited, has_key-deletes_creates, has_key-alias_deletes,
  has_key-changes, deletes-NodupKeys_visited, changes-NodupKeys_visited, lookup-visited_creates,
  has_key-deletes, lookup-changes,
}

module _ (P : Platform) (c : SolrClient) (cfg : Settings) (cluster : SolrCluster P c cfg.factor)
    (collections : List SolrCollection) where
  module _ (fair : IsFair P.order) (solr : GoMap Collection) (aliases : GoMap String)
      (u : NodupKeys solr) (w : World P)
      (read : (n : String) → lookup n solr ≡ collection_of P c cfg.factor cluster w n)
      (ready : IsReady P c cfg cluster collections (cluster.has_config w.cluster) w) where
    abbrev plan : Plan
    plan = plan_collections P cfg collections solr aliases

    abbrev creates : GoMap SolrCollection
    creates = P.order.visit manage_creates SolrCollection plan.creates

    abbrev alias_deletes : GoMap String
    alias_deletes = P.order.visit manage_alias_deletes String plan.alias_deletes

    abbrev deletes : GoMap SolrCollection
    deletes = P.order.visit manage_deletes SolrCollection plan.deletes

    abbrev changes : GoMap Collection
    changes = P.order.visit manage_adjusts Collection plan.factor_changes

    creates-CanCreate : CanCreate P c cfg cluster aliases ready.positive creates w
    unfolding has_key
    creates-CanCreate = record {
      named = λ n spec e.
          ready.named n spec
            (ground (arith, lookup-visited_creates P fair c cfg collections solr aliases u n));
      configured = λ n spec e.
          ready.configured n spec
            (ground (arith, lookup-visited_creates P fair c cfg collections solr aliases u n))
            (ground
              (arith, lookup-visited_creates P fair c cfg collections solr aliases u n, read n));
      absent = λ n spec e.
          ground (arith, lookup-visited_creates P fair c cfg collections solr aliases u n, read n);
      unaliased = λ n spec e.
          ready.unaliased n spec
            (ground (arith, lookup-visited_creates P fair c cfg collections solr aliases u n));
      distinct = λ bg n k spec other e f.
          ready.distinct bg n k spec other
            (ground (arith, lookup-visited_creates P fair c cfg collections solr aliases u n))
            (ground (arith, lookup-visited_creates P fair c cfg collections solr aliases u k));
    }

    named_stray :
        (n : String)
        → (has_key n solr && is_stray cfg collections n) ≡ true
        → cluster.is_name n ≡ true
    unfolding has_key
    named_stray n there = elim (Option-cases (lookup n solr)) [
      | inl e ↦ ground (arith, e)
      | inr (x, e) ↦ ready.existing n x (ground arith) (sym (read n) ∙ e)
    ]

    named_deletes : (n : String) → has_key n deletes ≡ true → cluster.is_name n ≡ true
    named_deletes n there =
        named_stray n (ground (arith, has_key-deletes P fair c cfg collections solr aliases u n))

    named_alias_deletes : (n : String) → has_key n alias_deletes ≡ true → cluster.is_name n ≡ true
    named_alias_deletes n there =
        named_stray n (has_key-alias_deletes P fair c cfg collections solr aliases u n there)

    named_changes : (n : String) → has_key n changes ≡ true → cluster.is_name n ≡ true
    named_changes n there = elim (Option-cases (specified cfg.is_blue_green collections n)) [
      | inl e ↦
          absurd
            (ground (arith, e, has_key-changes P fair c cfg collections solr aliases u n there))
      | inr (spec, e) ↦ (ready.named n spec e).0
    ]

    -- The worlds after the first, the first two and the first three loops.
    abbrev pub w1 : World P
    w1 = after_all P (create_requests c cfg aliases creates) w

    abbrev pub w2 : World P
    w2 = after_all P (key_requests (delete_alias_request c) alias_deletes) w1

    abbrev pub w3 : World P
    w3 = after_all P (key_requests (delete_collection_request c) deletes) w2

    abbrev pub w4 : World P
    w4 =
        after_all P
          (key_requests (λ name. set_replication_factor_request c name cfg.factor) changes) w3

    pub after_plan : after_all P (plan_requests P c cfg aliases plan) w ≡ w4
    after_plan = simp after_all-append

    -- No alias points to a collection that is to be deleted.
    untargeted :
        (n a : String) → has_key n deletes ≡ true → alias_of P c cfg.factor cluster w2 a ≢ some n
    untargeted n a there e =
        elim (alias-creates P c cfg cluster aliases ready.positive creates
          (creates-NodupKeys_visited P fair c cfg collections solr aliases u) w creates-CanCreate a
          n
          (alias-delete_aliases P c cfg.factor cluster alias_deletes named_alias_deletes w1 a n
            e)) [
              | inl old ↦
                  ready.untargeted n a
                    (ground (arith, has_key-deletes P fair c cfg collections solr aliases u n)) old
              | inr new ↦ absurd (
                  cc (
                    sym new,
                    has_key-deletes_creates P fair c cfg collections solr aliases u n there,
                  ))
            ]

    -- What there is under a name after the creation of the missing collections.
    collection_of-w2 :
        (n : String)
        → collection_of P c cfg.factor cluster w2 n ≡ elim (lookup n creates) [
          | none ↦ collection_of P c cfg.factor cluster w n
          | some spec ↦ some (cluster.fresh n spec.configset_name)
        ]
    collection_of-w2 n =
        after_delete_aliases P c cfg.factor cluster alias_deletes named_alias_deletes w1 n
        ∙ after_creates P c cfg cluster aliases ready.positive creates
            (creates-NodupKeys_visited P fair c cfg collections solr aliases u) w creates-CanCreate
            n

    collection_of-w3 :
        (n : String)
        → collection_of P c cfg.factor cluster w3 n
          ≡ (if has_key n deletes then none else collection_of P c cfg.factor cluster w2 n)
    collection_of-w3 n =
        after_deletes P c cfg.factor cluster deletes
          (deletes-NodupKeys_visited P fair c cfg collections solr aliases u) named_deletes w2
          untargeted n

    collection_of-w4 :
        (n : String)
        → collection_of P c cfg.factor cluster w4 n ≡ (
            if has_key n changes
            then map_option
                (λ (x : Collection). record x { replication_factor = cfg.factor })
                (collection_of P c cfg.factor cluster w3 n)
            else collection_of P c cfg.factor cluster w3 n)
    collection_of-w4 n =
        after_modifies P c cfg.factor cluster ready.positive changes
          (changes-NodupKeys_visited P fair c cfg collections solr aliases u) named_changes w3 n

    -- A new collection is there in the end.
    pub created_settled :
        (n : String) (spec : SolrCollection)
        → specified cfg.is_blue_green collections n ≡ some spec
        → lookup n solr ≡ none
        → collection_of P c cfg.factor cluster w4 n ≡ some (cluster.fresh n spec.configset_name)
    unfolding has_key
    created_settled n spec e absent = ground (
      arith,
      collection_of-w4 n,
      collection_of-w3 n,
      collection_of-w2 n,
      lookup-changes P fair c cfg collections solr aliases u n,
      has_key-deletes P fair c cfg collections solr aliases u n,
      lookup-visited_creates P fair c cfg collections solr aliases u n,
    )

    -- A collection that was there and that the spec asks for has the factor of the set in the end.
    pub kept_settled :
        (n : String) (spec : SolrCollection) (x : Collection)
        → specified cfg.is_blue_green collections n ≡ some spec
        → lookup n solr ≡ some x
        → collection_of P c cfg.factor cluster w4 n
          ≡ some (
              if eqb_ℤ x.replication_factor cfg.factor
              then x
              else record x { replication_factor = cfg.factor })
    unfolding has_key changed
    kept_settled n spec x e there = ground (
      arith,
      collection_of-w4 n,
      collection_of-w3 n,
      collection_of-w2 n,
      lookup-changes P fair c cfg collections solr aliases u n,
      has_key-deletes P fair c cfg collections solr aliases u n,
      lookup-visited_creates P fair c cfg collections solr aliases u n,
      read n,
    )

    -- Under clean-up, no stray collection is there in the end.
    pub stray_gone :
        cfg.is_cleanup ≡ true
        → (n : String) → is_stray cfg collections n ≡ true
        → collection_of P c cfg.factor cluster w4 n ≡ none
    unfolding has_key changed
    stray_gone cleanup n stray = ground (
      arith,
      collection_of-w4 n,
      collection_of-w3 n,
      collection_of-w2 n,
      lookup-changes P fair c cfg collections solr aliases u n,
      has_key-deletes P fair c cfg collections solr aliases u n,
      lookup-visited_creates P fair c cfg collections solr aliases u n,
      read n,
    )
