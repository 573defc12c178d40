-- ===== src/Controller/Collections/Visited.antt =====
-- The queues of `ManageCollections` as its loops visit them, name by name.
use solr_collections_operato.Base.{
  ◌≡◌, ◌∙◌, inl, inr, String, Bool, true, false, not, ◌&&◌, none, some, List, [], ◌∷◌, arith,
  if◌then◌else◌, Option-cases, is_some,
}
use solr_collections_operato.Base.Int.{ℤ, eqb_ℤ}
use solr_collections_operato.Base.GoMap.{
  GoMap, IsFair, lookup, insert, has_key, NodupKeys, insert-NodupKeys,
}
use solr_collections_operato.Api.{SolrCollection, Settings}
use solr_collections_operato.Solr.{SolrClient, Collection}
use solr_collections_operato.Platform.{
  Platform, manage_specs, manage_factors, manage_creates, manage_alias_deletes, manage_deletes,
  manage_adjusts,
}
use solr_collections_operato.Controller.Names.{map_collections}
use solr_collections_operato.Controller.Names.Mapped.{specified}
use solr_collections_operato.Controller.Collections.{
  Plan, plan_collections, find_creates, find_factor_changes,
}
use solr_collections_operato.Controller.Collections.Planned.{
  is_stray, lookup-creates, lookup-deletes, lookup-alias_deletes, lookup-factor_changes,
}
use solr_collections_operato.Controller.Collections.Deleted.{deletes-NodupKeys, either-NodupKeys}

find_creates-NodupKeys :
    (solr : GoMap Collection) (specs creates : GoMap SolrCollection)
    → NodupKeys creates
    → NodupKeys (find_creates solr specs creates)
unfolding find_creates
find_creates-NodupKeys solr [] creates u = u
find_creates-NodupKeys solr ((name, spec) ∷ specs) creates u = find_creates-NodupKeys solr specs _ (
    either-NodupKeys (has_key name solr) creates (insert name spec creates) u
      (insert-NodupKeys name spec creates u))

find_factor_changes-NodupKeys :
    (factor : ℤ) (specs : GoMap SolrCollection) (solr changes : GoMap Collection)
    → NodupKeys changes
    → NodupKeys (find_factor_changes factor specs solr changes)
unfolding find_factor_changes
find_factor_changes-NodupKeys factor specs [] changes u = u
find_factor_changes-NodupKeys factor specs ((name, collection) ∷ solr) changes u =
    find_factor_changes-NodupKeys factor specs solr _
      (either-NodupKeys _ _ _ (insert-NodupKeys name collection changes u) u)

module _ (P : Platform) (fair : IsFair P.order) (c : SolrClient) (cfg : Settings)
    (collections : List SolrCollection) (solr : GoMap Collection) (aliases : GoMap String)
    (u : NodupKeys solr) where
  abbrev pub plan : Plan
  plan = plan_collections P cfg collections solr aliases

  abbrev pub creates : GoMap SolrCollection
  creates = P.order.visit manage_creates SolrCollection plan.creates

  abbrev pub deletes : GoMap SolrCollection
  deletes = P.order.visit manage_deletes SolrCollection plan.deletes

  abbrev pub changes : GoMap Collection
  changes = P.order.visit manage_adjusts Collection plan.factor_changes

  pub creates-NodupKeys : NodupKeys plan.creates
  unfolding plan_collections
  creates-NodupKeys =
      find_creates-NodupKeys solr
        (P.order.visit manage_specs SolrCollection
          (map_collections collections [] cfg.is_blue_green))
        [] tt

  pub changes-NodupKeys : NodupKeys plan.factor_changes
  unfolding plan_collections
  changes-NodupKeys =
      find_factor_changes-NodupKeys cfg.factor (map_collections collections [] cfg.is_blue_green)
        (P.order.visit manage_factors Collection solr) [] tt

  pub lookup-visited_creates :
      (n : String)
      → lookup n creates
        ≡ (if has_key n solr then none else specified cfg.is_blue_green collections n)
  lookup-visited_creates n =
      fair.lookup-visit manage_creates SolrCollection plan.creates creates-NodupKeys n
      ∙ lookup-creates P fair cfg collections solr aliases n

  pub has_key-deletes :
      (n : String)
      → has_key n deletes ≡ (cfg.is_cleanup && (has_key n solr && is_stray cfg collections n))
  unfolding has_key
  has_key-deletes n = ground (
    arith,
    fair.lookup-visit manage_deletes SolrCollection plan.deletes
        (deletes-NodupKeys P fair c cfg collections solr aliases u).0 n,
    lookup-deletes P fair cfg collections solr aliases u n,
  )

  unfoldable pub changed : String → Collection → Bool
  changed n x =
      is_some (specified cfg.is_blue_green collections n)
      && not (eqb_ℤ x.replication_factor cfg.factor)

  pub lookup-changes :
      (n : String)
      → has_key n changes ≡ elim (lookup n solr) [ none ↦ false | some x ↦ changed n x ]
  unfolding has_key changed
  lookup-changes n = elim (Option-cases (lookup n solr)) [
    | inl e ↦ rw (
      fair.lookup-visit manage_adjusts Collection plan.factor_changes changes-NodupKeys n,
      lookup-factor_changes P fair cfg collections solr aliases u n,
      e,
    )
    | inr (x, e) ↦
        rw
          (
            fair.lookup-visit manage_adjusts Collection plan.factor_changes changes-NodupKeys n,
            lookup-factor_changes P fair cfg collections solr aliases u n,
            e,
          )
          (ground arith)
  ]

  pub creates-NodupKeys_visited : NodupKeys creates
  creates-NodupKeys_visited =
      fair.visit-NodupKeys manage_creates SolrCollection plan.creates creates-NodupKeys

  pub has_key-deletes_creates : (n : String) → has_key n deletes ≡ true → has_key n creates ≡ false
  unfolding has_key
  has_key-deletes_creates n there = ground (arith, has_key-deletes n, lookup-visited_creates n)

  pub deletes-NodupKeys_visited : NodupKeys deletes
  deletes-NodupKeys_visited =
      fair.visit-NodupKeys manage_deletes SolrCollection plan.deletes
        (deletes-NodupKeys P fair c cfg collections solr aliases u).0

  pub changes-NodupKeys_visited : NodupKeys changes
  changes-NodupKeys_visited =
      fair.visit-NodupKeys manage_adjusts Collection plan.factor_changes changes-NodupKeys

  pub has_key-alias_deletes :
      (n : String)
      → has_key n (P.order.visit manage_alias_deletes String plan.alias_deletes) ≡ true
      → (has_key n solr && is_stray cfg collections n) ≡ true
  unfolding has_key
  has_key-alias_deletes n there = ground (
    arith,
    fair.lookup-visit manage_alias_deletes String plan.alias_deletes
        (deletes-NodupKeys P fair c cfg collections solr aliases u).1 n,
    lookup-alias_deletes P fair cfg collections solr aliases u n,
  )

  pub has_key-changes :
      (n : String)
      → has_key n changes ≡ true
      → is_some (specified cfg.is_blue_green collections n) ≡ true
  unfolding has_key changed
  has_key-changes n there = ground (arith, lookup-changes n)
