-- ===== src/Controller/Collections/Planned.antt =====
-- What `ManageCollections` decides to do, name by name, whatever the order of its loops.
use mathlib.Core.Option.{or_else}
use solr_collections_operato.Base.{
  ◌≡◌, refl, String, Bool, not, ◌&&◌, none, some, List, [], ◌∷◌, arith, if◌then◌else◌, ◌==◌, inl,
  inr, Option-cases, is_some,
}
use solr_collections_operato.Base.Text.{has_prefix}
use solr_collections_operato.Base.Int.{ℤ, eqb_ℤ}
use solr_collections_operato.Base.GoMap.{
  GoMap, lookup, insert, has_key, NodupKeys, IsFair, lookup-nil, lookup-insert,
}
use solr_collections_operato.Api.{SolrCollection, Settings}
use solr_collections_operato.Solr.{Collection}
use solr_collections_operato.Platform.{
  Platform, manage_specs, manage_cleanup, manage_factors, manage_aliases,
}
use solr_collections_operato.Controller.Names.{map_collections, reverse_aliases}
use solr_collections_operato.Controller.Names.Mapped.{
  specified, lookup-map_collections, map_collections-NodupKeys, lookup-visit_map_collections,
}
use solr_collections_operato.Controller.Collections.{
  Plan, no_spec, now_deleted, find_creates, is_leftover, find_deletes, find_factor_changes,
  plan_collections,
}

lookup-find_creates :
    (solr : GoMap Collection) (specs creates : GoMap SolrCollection) (n : String)
    → NodupKeys specs
    → lookup n (find_creates solr specs creates)
      ≡ (if has_key n solr then lookup n creates else or_else (lookup n specs) (lookup n creates))
unfolding find_creates or_else
lookup-find_creates solr [] creates n u = ground arith
lookup-find_creates solr ((name, spec) ∷ specs) creates n (fresh, u) = ground (
  arith,
  lookup-find_creates solr specs creates n u,
  lookup-find_creates solr specs (insert name spec creates) n u,
  lookup-insert n name spec creates,
)

lookup-find_factor_changes :
    (factor : ℤ) (specs : GoMap SolrCollection) (solr changes : GoMap Collection) (n : String)
    → NodupKeys solr
    → lookup n (find_factor_changes factor specs solr changes) ≡ elim (lookup n solr) [
      | none ↦ lookup n changes
      | some collection ↦
          if has_key n specs && not (eqb_ℤ collection.replication_factor factor)
          then some collection
          else lookup n changes
    ]
unfolding find_factor_changes
lookup-find_factor_changes factor specs [] changes n u = refl
lookup-find_factor_changes factor specs ((name, collection) ∷ solr) changes n (fresh, u) = ground (
  arith,
  lookup-find_factor_changes factor specs solr changes n u,
  lookup-find_factor_changes factor specs solr (insert name collection changes) n u,
  lookup-insert n name collection changes,
)

lookup-now_deleted :
    (to_alias : GoMap String) (name : String) (alias_deletes : GoMap String) (n : String)
    → lookup n (now_deleted to_alias name alias_deletes) ≡ (
        if n == name
        then or_else (lookup name to_alias) (lookup n alias_deletes)
        else lookup n alias_deletes)
unfolding now_deleted or_else
lookup-now_deleted to_alias name alias_deletes n = elim (Option-cases (lookup name to_alias)) [
  | inl e ↦ rw (e, now_deleted) (ground arith)
  | inr (alias, e) ↦ rw (e, now_deleted) (lookup-insert n name alias alias_deletes)
]

lookup-find_deletes :
    (specs : GoMap SolrCollection) (to_alias : GoMap String) (solr : GoMap Collection)
    (deletes : GoMap SolrCollection) (alias_deletes : GoMap String) (n : String)
    → lookup n (find_deletes specs to_alias solr deletes alias_deletes).0
      ≡ (if has_key n solr && is_leftover specs n then some no_spec else lookup n deletes)
unfolding find_deletes has_key
lookup-find_deletes specs to_alias [] deletes alias_deletes n = refl
lookup-find_deletes specs to_alias ((name, collection) ∷ solr) deletes alias_deletes n = ground (
  arith,
  lookup-find_deletes specs to_alias solr deletes alias_deletes n,
  lookup-find_deletes specs to_alias solr (insert name no_spec deletes)
      (now_deleted to_alias name alias_deletes) n,
  lookup-insert n name no_spec deletes,
)

lookup-find_alias_deletes :
    (specs : GoMap SolrCollection) (to_alias : GoMap String) (solr : GoMap Collection)
    (deletes : GoMap SolrCollection) (alias_deletes : GoMap String) (n : String)
    → lookup n (find_deletes specs to_alias solr deletes alias_deletes).1 ≡ (
        if has_key n solr && is_leftover specs n
        then or_else (lookup n to_alias) (lookup n alias_deletes)
        else lookup n alias_deletes)
unfolding find_deletes has_key or_else
lookup-find_alias_deletes specs to_alias [] deletes alias_deletes n = refl
lookup-find_alias_deletes specs to_alias ((name, collection) ∷ solr) deletes alias_deletes n =
    ground (
      arith,
      lookup-find_alias_deletes specs to_alias solr deletes alias_deletes n,
      lookup-find_alias_deletes specs to_alias solr (insert name no_spec deletes)
          (now_deleted to_alias name alias_deletes) n,
      lookup-now_deleted to_alias name alias_deletes n,
    )

-- The name of a collection that the spec does not ask for, other than the operator's own.
abbrev pub is_stray : Settings → List SolrCollection → String → Bool
is_stray cfg collections n =
    not (is_some (specified cfg.is_blue_green collections n)) && not (has_prefix n "_")

module _ (P : Platform) (fair : IsFair P.order) (cfg : Settings) (collections : List SolrCollection)
    (solr : GoMap Collection) (aliases : GoMap String) where
  abbrev plan : Plan
  plan = plan_collections P cfg collections solr aliases

  abbrev specs : GoMap SolrCollection
  specs = map_collections collections [] cfg.is_blue_green

  abbrev to_alias : GoMap String
  to_alias = reverse_aliases (P.order.visit manage_aliases String aliases) []

  has_key-specs :
      (n : String) → has_key n specs ≡ is_some (specified cfg.is_blue_green collections n)
  unfolding has_key
  has_key-specs n = rw lookup-map_collections

  -- On a platform whose loops are fair: a name is queued for creation exactly when the spec asks for it and the cluster lacks it, with the
  -- collection of the spec that it is an instance of.
  pub lookup-creates :
      (n : String)
      → lookup n plan.creates
        ≡ (if has_key n solr then none else specified cfg.is_blue_green collections n)
  unfolding plan_collections or_else
  lookup-creates n = ground (
    arith,
    lookup-find_creates solr (P.order.visit manage_specs SolrCollection specs) [] n (
        fair.visit-NodupKeys manage_specs SolrCollection specs
          (map_collections-NodupKeys cfg.is_blue_green collections [] tt)),
    lookup-visit_map_collections P.order fair manage_specs cfg.is_blue_green collections n,
    lookup-nil {V = SolrCollection} n,
  )

  is_leftover-is_stray : (n : String) → is_leftover specs n ≡ is_stray cfg collections n
  unfolding is_leftover
  is_leftover-is_stray n = rw has_key-specs

  has_key-visit :
      NodupKeys solr
      → (n : String) → has_key n (P.order.visit manage_cleanup Collection solr) ≡ has_key n solr
  unfolding has_key
  has_key-visit u n = rw (fair.lookup-visit manage_cleanup Collection solr u n)

  -- On a platform whose loops are fair, with no collection listed twice: a collection is queued for
  -- deletion exactly when the clean-up is enabled, the cluster has it, the
  -- spec does not ask for it, and it is not one of the operator's own.
  pub lookup-deletes :
      NodupKeys solr
      → (n : String)
      → lookup n plan.deletes ≡ (
          if cfg.is_cleanup && (has_key n solr && is_stray cfg collections n)
          then some no_spec
          else none)
  unfolding plan_collections
  lookup-deletes u n = ground (
    arith,
    lookup-find_deletes specs to_alias (P.order.visit manage_cleanup Collection solr) [] [] n,
    has_key-visit u n,
    is_leftover-is_stray n,
    lookup-nil {V = SolrCollection} n,
  )

  -- An alias is queued for deletion under the name of a collection exactly when that collection is
  -- queued for deletion and the alias is the one that the reversed map of aliases has for it.
  pub lookup-alias_deletes :
      NodupKeys solr
      → (n : String)
      → lookup n plan.alias_deletes ≡ (
          if cfg.is_cleanup && (has_key n solr && is_stray cfg collections n)
          then lookup n to_alias
          else none)
  unfolding plan_collections or_else
  lookup-alias_deletes u n = ground (
    arith,
    lookup-find_alias_deletes specs to_alias (P.order.visit manage_cleanup Collection solr) [] [] n,
    has_key-visit u n,
    is_leftover-is_stray n,
    lookup-nil {V = String} n,
  )

  -- On a platform whose loops are fair, with no collection listed twice: a collection is queued for an
  -- adjustment exactly when the spec asks for it, the cluster has it,
  -- and its replication factor is another than that of the set.
  pub lookup-factor_changes :
      NodupKeys solr
      → (n : String)
      → lookup n plan.factor_changes ≡ elim (lookup n solr) [
        | none ↦ none
        | some collection ↦
            if is_some (specified cfg.is_blue_green collections n)
              && not (eqb_ℤ collection.replication_factor cfg.factor)
            then some collection
            else none
      ]
  unfolding plan_collections
  lookup-factor_changes u n = ground (
    arith,
    lookup-find_factor_changes cfg.factor specs (P.order.visit manage_factors Collection solr) [] n
        (fair.visit-NodupKeys manage_factors Collection solr u),
    fair.lookup-visit manage_factors Collection solr u n,
    has_key-specs n,
    lookup-nil {V = Collection} n,
  )
