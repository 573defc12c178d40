-- ===== src/Controller/Collections.antt =====
-- `ManageCollections` of internal/controller/solrcollectionset_controller.go: which collections and
-- aliases are created and deleted, and the requests that do it.
pub mod Run
pub mod Planned
pub mod Aligned
pub mod Deleted
pub mod Ready
pub mod Effects
pub mod Created
pub mod Visited
pub mod Cleared
pub mod Converged
use mathlib.Core.List.{flat_map}
use solr_collections_operato.Base.{
  String, Bool, true, false, not, ◌&&◌, ◌||◌, none, some, List, [], ◌∷◌, ◌++◌, map, if◌then◌else◌,
}
use solr_collections_operato.Base.Int.{ℤ, eqb_ℤ}
use solr_collections_operato.Base.Text.{has_prefix}
use solr_collections_operato.Base.GoMap.{GoMap, lookup, insert, has_key}
use solr_collections_operato.Base.Exec.{◌>>=◌, ◌>>◌, pure, lift, log_error}
use solr_collections_operato.Api.{SolrCollection, SolrCollectionSet, Settings, settings}
use solr_collections_operato.Solr.{SolrClient, Collection}
use solr_collections_operato.Platform.{
  Platform, Go, manage_aliases, manage_specs, manage_cleanup, manage_factors, manage_creates,
  manage_alias_deletes, manage_deletes, manage_adjusts,
}
use solr_collections_operato.Solr.Client.Commands.{
  create_collection, assign_alias, delete_alias, delete_collection, set_replication_factor,
}
use solr_collections_operato.Controller.Names.{map_collections, reverse_aliases}

-- The maps of collection actions to take.
pub record Plan : Type 0 where
  pub creates : GoMap SolrCollection
  pub alias_deletes : GoMap String
  pub deletes : GoMap SolrCollection
  pub factor_changes : GoMap Collection

-- The zero value that a missing key of a map of collections gives.
abbrev pub no_spec : SolrCollection
no_spec = record { name = ""; alias = ""; configset_name = "" }

-- The loop over the specs.
unfoldable pub find_creates :
    GoMap Collection → GoMap SolrCollection → GoMap SolrCollection → GoMap SolrCollection
unfolding has_key
find_creates solr [] creates = creates
find_creates solr ((name, spec) ∷ specs) creates =
    find_creates solr specs (if has_key name solr then creates else insert name spec creates)

-- A collection of the cluster that is not specified, and is not one of the operator's own.
unfoldable pub is_leftover : GoMap SolrCollection → String → Bool
unfolding has_key
is_leftover specs name = not (has_key name specs) && not (has_prefix name "_")

-- alias, exists := collectionsToAliasesMap[name]: an alias that points to the collection is noted.
unfoldable pub now_deleted : GoMap String → String → GoMap String → GoMap String
now_deleted to_alias name alias_deletes = elim (lookup name to_alias) [
  | none ↦ alias_deletes
  | some alias ↦ insert name alias alias_deletes
]

-- The loop of the clean-up: the collections to delete, and the aliases that point to them.
unfoldable pub find_deletes :
    GoMap SolrCollection
    → GoMap String
    → GoMap Collection
    → GoMap SolrCollection
    → GoMap String
    → GoMap SolrCollection × GoMap String
unfolding is_leftover
find_deletes specs to_alias [] deletes alias_deletes = (deletes, alias_deletes)
find_deletes specs to_alias ((name, _) ∷ solr) deletes alias_deletes =
    find_deletes specs to_alias solr
      (if is_leftover specs name then insert name no_spec deletes else deletes)
      (if is_leftover specs name then now_deleted to_alias name alias_deletes else alias_deletes)

-- The loop over the replication factors.
unfoldable pub find_factor_changes :
    ℤ → GoMap SolrCollection → GoMap Collection → GoMap Collection → GoMap Collection
unfolding has_key
find_factor_changes factor specs [] changes = changes
find_factor_changes factor specs ((name, collection) ∷ solr) changes =
    find_factor_changes factor specs solr (
      if has_key name specs && not (eqb_ℤ collection.replication_factor factor)
      then insert name collection changes
      else changes)

abbrev pub is_filled : {V : Type 0} → GoMap V → Bool
is_filled [] = false
is_filled (_ ∷ _) = true

module _ (P : Platform) where
  -- What the loops of the first half put into the maps.
  unfoldable pub plan_collections :
      Settings → List SolrCollection → GoMap Collection → GoMap String → Plan
  unfolding map_collections reverse_aliases find_creates find_deletes find_factor_changes
  plan_collections cfg collections solr aliases =
      let to_alias = reverse_aliases (P.order.visit manage_aliases String aliases) [] in
      let specs = map_collections collections [] cfg.is_blue_green in
      let (deletes, alias_deletes) =
        find_deletes specs to_alias (P.order.visit manage_cleanup Collection solr) [] [] in
      record {
        creates = find_creates solr (P.order.visit manage_specs SolrCollection specs) [];
        alias_deletes = if cfg.is_cleanup then alias_deletes else [];
        deletes = if cfg.is_cleanup then deletes else [];
        factor_changes =
            find_factor_changes cfg.factor specs (P.order.visit manage_factors Collection solr) [];
      }

  module _ (c : SolrClient) where
    -- In a blue/green set, an alias that the cluster status does not know is created.
    unfoldable pub ensure_alias :
        Settings → GoMap String → String → SolrCollection → Go P (Unit {0})
    unfolding assign_alias has_key
    ensure_alias cfg aliases name spec =
        if cfg.is_blue_green && not (has_key spec.alias aliases)
        then log_error (assign_alias P c spec.alias name)
        else pure tt

    -- Each error is logged, and the loop goes on.
    unfoldable pub create_all : Settings → GoMap String → GoMap SolrCollection → Go P (Unit {0})
    unfolding create_collection ensure_alias
    create_all cfg aliases [] = pure tt
    create_all cfg aliases ((name, spec) ∷ creates) = do
      log_error (create_collection P c name spec.configset_name cfg.factor)
      ensure_alias cfg aliases name spec
      create_all cfg aliases creates

    -- The loop runs over the keys of the map, which are names of collections.
    unfoldable pub delete_aliases : GoMap String → Go P (Unit {0})
    unfolding delete_alias
    delete_aliases [] = pure tt
    delete_aliases ((alias, _) ∷ alias_deletes) = do
      log_error (delete_alias P c alias)
      delete_aliases alias_deletes

    unfoldable pub delete_all : GoMap SolrCollection → Go P (Unit {0})
    unfolding delete_collection
    delete_all [] = pure tt
    delete_all ((name, _) ∷ deletes) = do log_error (delete_collection P c name); delete_all deletes

    unfoldable pub adjust_factors : ℤ → GoMap Collection → Go P (Unit {0})
    unfolding set_replication_factor
    adjust_factors factor [] = pure tt
    adjust_factors factor ((name, _) ∷ changes) = do
      log_error (set_replication_factor P c name factor)
      adjust_factors factor changes

    -- The second half: each map that is not empty is worked off, and makes the result true.
    unfoldable pub process : Settings → GoMap String → Plan → Go P Bool
    unfolding create_all delete_aliases delete_all adjust_factors
    process cfg aliases plan = do
      create_all cfg aliases (P.order.visit manage_creates SolrCollection plan.creates)
      delete_aliases (P.order.visit manage_alias_deletes String plan.alias_deletes)
      delete_all (P.order.visit manage_deletes SolrCollection plan.deletes)
      adjust_factors cfg.factor (P.order.visit manage_adjusts Collection plan.factor_changes)
      pure (
          is_filled plan.creates
          || (is_filled plan.alias_deletes
              || (is_filled plan.deletes || is_filled plan.factor_changes)))

    -- The pointers of the spec, which WithDefaults sets, are followed first.
    unfoldable pub manage_collections :
        SolrCollectionSet → GoMap Collection → GoMap String → Go P Bool
    unfolding settings plan_collections process
    manage_collections set solr aliases = do
      cfg ← lift (settings set.spec)
      process cfg aliases (plan_collections cfg set.spec.collections solr aliases)
