-- ===== src/Controller/Collections/Deleted.antt =====
-- What `ManageCollections` deletes.
use solr_collections_operato.Base.{
  ◌==◌, ◌&&◌, ◌||◌, map, ◌≡◌, refl, ap, ◌∙◌, String, Bool, true, false, List, [], ◌∷◌, ◌++◌, arith,
  if◌then◌else◌, inl, inr, Option-cases,
}
use solr_collections_operato.Base.GoMap.{
  GoMap, lookup-nil, IsFair, lookup, has_key, NodupKeys, lookup-cons, insert-NodupKeys,
}
use solr_collections_operato.Base.Outcome.{ok}
use solr_collections_operato.Api.{SolrCollection, SolrCollectionSet, Settings, settings}
use solr_collections_operato.Solr.{SolrClient, Collection}
use solr_collections_operato.Platform.{
  Request, Platform, World, manage_aliases, manage_creates, manage_alias_deletes, manage_deletes,
  manage_adjusts, manage_cleanup,
}
use solr_collections_operato.Solr.Client.Commands.{
  delete_collection_request, delete_alias_request, set_replication_factor_request,
}
use solr_collections_operato.Solr.Client.Delivery.{IsCivil, accepted, sent-after_all}
use solr_collections_operato.Controller.Names.Colored.{is_target, has_key-reverse_aliases}
use solr_collections_operato.Controller.Collections.{
  Plan, plan_collections, manage_collections, find_deletes, now_deleted, no_spec,
}
use solr_collections_operato.Controller.Collections.Planned.{
  is_stray, lookup-deletes, lookup-alias_deletes,
}
use solr_collections_operato.Controller.Collections.Run.{
  create_requests, key_requests, manage_collections_lem,
}

abbrev pub keys : {V : Type 0} → GoMap V → List String
keys [] = []
keys ((k, _) ∷ m) = k ∷ keys m

abbrev pub is_among : List String → String → Bool
is_among [] name = false
is_among (k ∷ ks) name = name == k || is_among ks name

is_among-keys : {V : Type 0} (m : GoMap V) (n : String) → is_among (keys m) n ≡ has_key n m
unfolding has_key
is_among-keys {V = V} [] n = ground (arith, lookup-nil {V = V} n)
is_among-keys ((k, v) ∷ m) n = ground (arith, lookup-cons n k v m, is_among-keys m n)

key_requests-keys :
    {V : Type 0} (f : String → Request) (m : GoMap V) → key_requests f m ≡ map f (keys m)
key_requests-keys f [] = refl
key_requests-keys f ((k, v) ∷ m) = ap (λ (l : List Request). f k ∷ l) (key_requests-keys f m)

now_deleted-NodupKeys :
    (to_alias : GoMap String) (name : String) (alias_deletes : GoMap String)
    → NodupKeys alias_deletes
    → NodupKeys (now_deleted to_alias name alias_deletes)
unfolding now_deleted
now_deleted-NodupKeys to_alias name alias_deletes u = elim (Option-cases (lookup name to_alias)) [
  | inl e ↦ rw (e, now_deleted) u
  | inr (alias, e) ↦ rw (e, now_deleted) (insert-NodupKeys name alias alias_deletes u)
]

pub either-NodupKeys :
    {V : Type 0} (b : Bool) (m n : GoMap V)
    → NodupKeys m
    → NodupKeys n
    → NodupKeys (if b then m else n)
either-NodupKeys true m n u v = u
either-NodupKeys false m n u v = v

find_deletes-NodupKeys :
    (specs : GoMap SolrCollection) (to_alias : GoMap String) (solr : GoMap Collection)
    (deletes : GoMap SolrCollection) (alias_deletes : GoMap String)
    → NodupKeys deletes
    → NodupKeys alias_deletes
    → NodupKeys (find_deletes specs to_alias solr deletes alias_deletes).0
      × NodupKeys (find_deletes specs to_alias solr deletes alias_deletes).1
unfolding find_deletes
find_deletes-NodupKeys specs to_alias [] deletes alias_deletes u v = (u, v)
find_deletes-NodupKeys specs to_alias ((name, _) ∷ solr) deletes alias_deletes u v =
    find_deletes-NodupKeys specs to_alias solr _ _
      (either-NodupKeys _ _ _ (insert-NodupKeys name no_spec deletes u) u)
      (either-NodupKeys _ _ _ (now_deleted-NodupKeys to_alias name alias_deletes v) v)

module _ (P : Platform) (fair : IsFair P.order) (c : SolrClient) (cfg : Settings)
    (collections : List SolrCollection) (solr : GoMap Collection) (aliases : GoMap String)
    (u : NodupKeys solr) where
  abbrev plan : Plan
  plan = plan_collections P cfg collections solr aliases

  pub deletes-NodupKeys : NodupKeys plan.deletes × NodupKeys plan.alias_deletes
  unfolding plan_collections
  deletes-NodupKeys =
      let both =
        find_deletes-NodupKeys _ _ (P.order.visit manage_cleanup Collection solr) [] [] tt tt in
      (both_if cfg.is_cleanup _ both.0, both_if cfg.is_cleanup _ both.1)
    where
      both_if :
          {V : Type 0} (b : Bool) (m : GoMap V) → NodupKeys m → NodupKeys (if b then m else [])
      both_if true m v = v
      both_if false m v = tt

  -- The names of the collections and of the aliases in the requests of the plan that delete them.
  is_among-deletes :
      (n : String)
      → is_among (keys (P.order.visit manage_deletes SolrCollection plan.deletes)) n
        ≡ (cfg.is_cleanup && (has_key n solr && is_stray cfg collections n))
  unfolding has_key
  is_among-deletes n = ground (
    arith,
    is_among-keys (P.order.visit manage_deletes SolrCollection plan.deletes) n,
    fair.lookup-visit manage_deletes SolrCollection plan.deletes deletes-NodupKeys.0 n,
    lookup-deletes P fair cfg collections solr aliases u n,
  )

  is_among-alias_deletes :
      NodupKeys aliases
      → (n : String)
      → is_among (keys (P.order.visit manage_alias_deletes String plan.alias_deletes)) n ≡ (
          cfg.is_cleanup && (has_key n solr && (is_stray cfg collections n && is_target aliases n)))
  unfolding has_key
  is_among-alias_deletes v n = ground (
    arith,
    is_among-keys (P.order.visit manage_alias_deletes String plan.alias_deletes) n,
    fair.lookup-visit manage_alias_deletes String plan.alias_deletes deletes-NodupKeys.1 n,
    lookup-alias_deletes P fair cfg collections solr aliases u n,
    has_key-reverse_aliases P.order fair manage_aliases aliases v n,
  )

-- On a platform whose loops are fair and whose errors can be read, with the pointers of the spec
-- set and no collection and no alias listed twice: ManageCollections sends the requests that
-- create collections and aliases, then requests that delete aliases, then requests that delete
-- collections, then those that set replication factors, as far as the HTTP library accepts them,
-- and no others. The names in the requests that delete collections are exactly those of the
-- collections that the cluster has, that the spec does not ask for, and that are not the
-- operator's own, and there are none without the clean-up. The names in the requests that delete
-- aliases are exactly those of these collections to which an alias points: the names of the
-- collections, and not of the aliases.
pub manage_collections-deletions :
    (P : Platform)
    → IsFair P.order
    → IsCivil P
    → (c : SolrClient) (set : SolrCollectionSet) (cfg : Settings) (solr : GoMap Collection)
      (aliases : GoMap String) (w : World P)
    → settings set.spec ≡ ok cfg
    → NodupKeys solr
    → NodupKeys aliases
    → let plan = plan_collections P cfg set.spec.collections solr aliases in
      (named deleted : List String) × ((manage_collections P c set solr aliases w).1.sent
        ≡ w.sent
          ++ accepted P (
              create_requests c cfg aliases
                (P.order.visit manage_creates SolrCollection plan.creates)
              ++ (map (delete_alias_request c) named
                  ++ (map (delete_collection_request c) deleted
                      ++ key_requests
                          (λ name. set_replication_factor_request c name cfg.factor)
                          (P.order.visit manage_adjusts Collection plan.factor_changes)))))
      × ((n : String)
          → is_among deleted n
            ≡ (cfg.is_cleanup && (has_key n solr && is_stray cfg set.spec.collections n)))
      × ((n : String)
          → is_among named n ≡ (
              cfg.is_cleanup
              && (has_key n solr && (is_stray cfg set.spec.collections n && is_target aliases n))))
manage_collections-deletions P fair civil c set cfg solr aliases w known u v =
    let plan = plan_collections P cfg set.spec.collections solr aliases in
    (
      keys (P.order.visit manage_alias_deletes String plan.alias_deletes),
      keys (P.order.visit manage_deletes SolrCollection plan.deletes),
      ap (λ (r : _ × World P). r.1.sent)
            (manage_collections_lem P c civil set solr aliases w cfg known)
          ∙ sent-after_all P _ w
          ∙ rw
              (
                key_requests-keys (delete_alias_request c)
                    (P.order.visit manage_alias_deletes String plan.alias_deletes),
                key_requests-keys (delete_collection_request c)
                    (P.order.visit manage_deletes SolrCollection plan.deletes),
              )
              refl,
      is_among-deletes P fair c cfg set.spec.collections solr aliases u,
      is_among-alias_deletes P fair c cfg set.spec.collections solr aliases u v,
    )
