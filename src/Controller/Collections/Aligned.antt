-- ===== src/Controller/Collections/Aligned.antt =====
-- When `ManageCollections` has nothing to do.
use solr_collections_operato.Base.{
  ◌≡◌, refl, ap, ◌∙◌, ◌↔◌, String, Bool, true, false, none, some, List, [], ◌∷◌, arith, is_some,
  length, inl, inr, Option-cases,
}
use solr_collections_operato.Base.Int.{eqb_ℤ}
use solr_collections_operato.Base.GoMap.{
  GoMap, lookup, has_key, NodupKeys, IsFair, lookup-nil, lookup-cons,
}
use solr_collections_operato.Base.Outcome.{Outcome, ok}
use solr_collections_operato.Api.{SolrCollection, SolrCollectionSet, Settings, settings}
use solr_collections_operato.Solr.{SolrClient, Collection}
use solr_collections_operato.Platform.{
  Platform, World, Site, manage_creates, manage_alias_deletes, manage_deletes, manage_adjusts,
}
use solr_collections_operato.Solr.Client.Delivery.{IsCivil, after_all}
use solr_collections_operato.Controller.Names.Mapped.{specified}
use solr_collections_operato.Controller.Collections.{
  Plan, plan_collections, manage_collections, is_filled,
}
use solr_collections_operato.Controller.Collections.Planned.{
  is_stray, lookup-creates, lookup-deletes, lookup-alias_deletes, lookup-factor_changes,
}
use solr_collections_operato.Controller.Collections.Run.{
  has_work, plan_requests, manage_collections_lem,
}

-- The cluster is as the spec asks: every instance is there, with the replication factor of the set,
-- and under clean-up nothing else is.
pub record IsAligned (cfg : Settings) (collections : List SolrCollection) (solr : GoMap Collection)
    : Type 0 where
  pub present :
      (n : String)
      → is_some (specified cfg.is_blue_green collections n) ≡ true
      → has_key n solr ≡ true
  pub factors :
      (n : String) (collection : Collection)
      → lookup n solr ≡ some collection
      → is_some (specified cfg.is_blue_green collections n) ≡ true
      → eqb_ℤ collection.replication_factor cfg.factor ≡ true
  pub clean :
      cfg.is_cleanup ≡ true
      → (n : String) → has_key n solr ≡ true
      → is_stray cfg collections n ≡ false

module _ {V : Type 0} where
  filled_lookup : (m : GoMap V) (n : String) → is_filled m ≡ false → lookup n m ≡ none
  filled_lookup [] n h = lookup-nil n
  filled_lookup (_ ∷ m) n h = ground arith

  pub eq-nil : (m : GoMap V) → ((n : String) → lookup n m ≡ none) → m ≡ []
  eq-nil [] h = refl
  eq-nil ((k, v) ∷ m) h = ground (arith, h k, lookup-cons k k v m)

module _ (P : Platform) (fair : IsFair P.order) where
  pub visit-nil : (s : Site) (V : Type 0) → P.order.visit s V [] ≡ []
  visit-nil s V = nil_of_length (P.order.visit s V []) (fair.length-visit s V [])
    where
      nil_of_length : (m : GoMap V) → length m ≡ 0 → m ≡ []
      nil_of_length [] h = refl
      nil_of_length (_ ∷ m) h = absurd (omega arith)

module _ (P : Platform) (fair : IsFair P.order) (cfg : Settings) (collections : List SolrCollection)
    (solr : GoMap Collection) (aliases : GoMap String) (u : NodupKeys solr) where
  abbrev plan : Plan
  plan = plan_collections P cfg collections solr aliases

  module _ (aligned : IsAligned cfg collections solr) where
    creates-nil : plan.creates ≡ []
    creates-nil =
        eq-nil plan.creates λ n.
          ground (arith, lookup-creates P fair cfg collections solr aliases n, aligned.present n)

    deletes-nil : plan.deletes ≡ []
    deletes-nil = eq-nil plan.deletes λ n. ground (
      arith,
      lookup-deletes P fair cfg collections solr aliases u n,
      λ (e : cfg.is_cleanup ≡ true). aligned.clean e n,
    )

    alias_deletes-nil : plan.alias_deletes ≡ []
    alias_deletes-nil = eq-nil plan.alias_deletes λ n. ground (
      arith,
      lookup-alias_deletes P fair cfg collections solr aliases u n,
      λ (e : cfg.is_cleanup ≡ true). aligned.clean e n,
    )

    factor_changes-nil : plan.factor_changes ≡ []
    factor_changes-nil = eq-nil plan.factor_changes λ n. elim (Option-cases (lookup n solr)) [
      | inl e ↦ lookup-factor_changes P fair cfg collections solr aliases u n ∙ rw e
      | inr (collection, e) ↦ ground (
        arith,
        lookup-factor_changes P fair cfg collections solr aliases u n,
        aligned.factors n collection e,
      )
    ]

    pub plan_requests-nil : (c : SolrClient) → plan_requests P c cfg aliases plan ≡ []
    plan_requests-nil c = rw (
      creates-nil,
      alias_deletes-nil,
      deletes-nil,
      factor_changes-nil,
      visit-nil P fair manage_creates SolrCollection,
      visit-nil P fair manage_alias_deletes String,
      visit-nil P fair manage_deletes SolrCollection,
      visit-nil P fair manage_adjusts Collection,
    )

    has_work-false : has_work plan ≡ false
    has_work-false = rw (creates-nil, alias_deletes-nil, deletes-nil, factor_changes-nil)

  module _ (idle : has_work plan ≡ false) where
    present_of_idle :
        (n : String)
        → is_some (specified cfg.is_blue_green collections n) ≡ true
        → has_key n solr ≡ true
    present_of_idle n s = ground (
      arith,
      lookup-creates P fair cfg collections solr aliases n,
      filled_lookup plan.creates n (ground arith),
    )

    factors_of_idle :
        (n : String) (collection : Collection)
        → lookup n solr ≡ some collection
        → is_some (specified cfg.is_blue_green collections n) ≡ true
        → eqb_ℤ collection.replication_factor cfg.factor ≡ true
    factors_of_idle n collection e s = ground (
      arith,
      lookup-factor_changes P fair cfg collections solr aliases u n,
      filled_lookup plan.factor_changes n (ground arith),
    )

    clean_of_idle :
        cfg.is_cleanup ≡ true
        → (n : String) → has_key n solr ≡ true
        → is_stray cfg collections n ≡ false
    clean_of_idle e n k = ground (
      arith,
      lookup-deletes P fair cfg collections solr aliases u n,
      filled_lookup plan.deletes n (ground arith),
    )

  has_work_iff : (has_work plan ≡ false) ↔ IsAligned cfg collections solr
  has_work_iff = (
    λ idle. record {
      present = present_of_idle idle;
      factors = factors_of_idle idle;
      clean = clean_of_idle idle;
    },
    has_work-false,
  )

module _ (P : Platform) (fair : IsFair P.order) (civil : IsCivil P) (c : SolrClient)
    (set : SolrCollectionSet) (cfg : Settings) (solr : GoMap Collection) (aliases : GoMap String)
    (w : World P) (u : NodupKeys solr) (read : settings set.spec ≡ ok cfg) where
  -- Under the same conditions, if the cluster is as the spec asks, ManageCollections sends
  -- nothing, changes nothing and reports no change.
  pub manage_collections_idle :
      IsAligned cfg set.spec.collections solr
      → manage_collections P c set solr aliases w ≡ (ok false, w)
  unfolding after_all
  manage_collections_idle aligned =
      manage_collections_lem P c civil set solr aliases w cfg read
      ∙ rw (
        has_work-false P fair cfg set.spec.collections solr aliases u aligned,
        plan_requests-nil P fair cfg set.spec.collections solr aliases u aligned c,
      )

  -- On a platform whose loops are fair and whose errors can be read, with the pointers of the
  -- spec set and no collection listed twice: ManageCollections reports no change exactly when
  -- the cluster is as the spec asks.
  pub manage_collections-IsAligned :
      ((manage_collections P c set solr aliases w).0 ≡ ok false)
      ↔ IsAligned cfg set.spec.collections solr
  manage_collections-IsAligned = (
    λ e. (has_work_iff P fair cfg set.spec.collections solr aliases u).0 (
        cc (
          ap (λ (r : Outcome Bool × World P). r.0)
              (manage_collections_lem P c civil set solr aliases w cfg read),
          e,
        )),
    λ aligned. ap (λ (r : Outcome Bool × World P). r.0) (manage_collections_idle aligned),
  )
