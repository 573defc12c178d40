-- ===== src/Controller/Collections/Run.antt =====
-- `ManageCollections` as the plan that it makes and the requests that it then sends: no error of Solr
-- stops it, and the answers decide nothing.
use solr_collections_operato.Base.{
  ◌≡◌, refl, String, Bool, not, ◌&&◌, ◌||◌, List, [], ◌∷◌, ◌++◌, if◌then◌else◌, inl, inr,
  Bool-cases,
}
use solr_collections_operato.Base.Int.{ℤ}
use solr_collections_operato.Base.GoMap.{GoMap, has_key}
use solr_collections_operato.Base.Outcome.{ok}
use solr_collections_operato.Api.{SolrCollection, SolrCollectionSet, Settings, settings}
use solr_collections_operato.Solr.{SolrClient, Collection}
use solr_collections_operato.Platform.{
  Request, Platform, World, manage_creates, manage_alias_deletes, manage_deletes, manage_adjusts,
}
use solr_collections_operato.Solr.Client.Commands.{
  create_collection, assign_alias, delete_alias, delete_collection, set_replication_factor,
  create_collection_request, assign_alias_request, delete_alias_request, delete_collection_request,
  set_replication_factor_request,
}
use solr_collections_operato.Solr.Client.Delivery.{
  IsCivil, after_all, after_all-append, log_error-command,
}
use solr_collections_operato.Controller.Collections.{
  Plan, plan_collections, ensure_alias, create_all, delete_aliases, delete_all, adjust_factors,
  process, manage_collections, is_filled,
}

-- In a blue/green set, an alias that the cluster status did not know is assigned.
abbrev pub alias_requests :
    SolrClient → Settings → GoMap String → String → SolrCollection → List Request
alias_requests c cfg aliases name spec =
    if cfg.is_blue_green && not (has_key spec.alias aliases)
    then assign_alias_request c spec.alias name ∷ []
    else []

-- The requests for a map of collections to create: each is created, then its alias is seen to.
abbrev pub create_requests :
    SolrClient → Settings → GoMap String → GoMap SolrCollection → List Request
create_requests c cfg aliases [] = []
create_requests c cfg aliases ((name, spec) ∷ creates) =
    create_collection_request c name spec.configset_name cfg.factor
    ∷ (alias_requests c cfg aliases name spec ++ create_requests c cfg aliases creates)

-- One request for each key of a map.
abbrev pub key_requests : {V : Type 0} → (String → Request) → GoMap V → List Request
key_requests f [] = []
key_requests f ((k, _) ∷ m) = f k ∷ key_requests f m

-- Something is left to do.
abbrev pub has_work : Plan → Bool
has_work plan =
    is_filled plan.creates
    || (is_filled plan.alias_deletes || (is_filled plan.deletes || is_filled plan.factor_changes))

module _ (P : Platform) (c : SolrClient) where
  -- The requests of a plan, in their order.
  abbrev pub plan_requests : Settings → GoMap String → Plan → List Request
  plan_requests cfg aliases plan =
      create_requests c cfg aliases (P.order.visit manage_creates SolrCollection plan.creates)
      ++ (key_requests (delete_alias_request c)
            (P.order.visit manage_alias_deletes String plan.alias_deletes)
          ++ (key_requests (delete_collection_request c)
                (P.order.visit manage_deletes SolrCollection plan.deletes)
              ++ key_requests (λ name. set_replication_factor_request c name cfg.factor)
                  (P.order.visit manage_adjusts Collection plan.factor_changes)))

  module _ (civil : IsCivil P) where
    ensure_alias_lem :
        (cfg : Settings) (aliases : GoMap String) (name : String) (spec : SolrCollection)
        (w : World P)
        → ensure_alias P c cfg aliases name spec w
          ≡ (ok tt, after_all P (alias_requests c cfg aliases name spec) w)
    unfolding ensure_alias after_all assign_alias
    ensure_alias_lem cfg aliases name spec w =
        elim (Bool-cases (cfg.is_blue_green && not (has_key spec.alias aliases))) [
          | inl e ↦ rw (e, ensure_alias) (rw (log_error-command P civil))
          | inr e ↦ rw (e, ensure_alias)
        ]

    create_all_lem :
        (cfg : Settings) (aliases : GoMap String) (creates : GoMap SolrCollection) (w : World P)
        → create_all P c cfg aliases creates w
          ≡ (ok tt, after_all P (create_requests c cfg aliases creates) w)
    unfolding create_all after_all create_collection
    create_all_lem cfg aliases [] w = refl
    create_all_lem cfg aliases ((name, spec) ∷ creates) w =
        rw (log_error-command P civil, ensure_alias_lem, after_all-append)
          (create_all_lem cfg aliases creates _)

    delete_aliases_lem :
        (alias_deletes : GoMap String) (w : World P)
        → delete_aliases P c alias_deletes w
          ≡ (ok tt, after_all P (key_requests (delete_alias_request c) alias_deletes) w)
    unfolding delete_aliases after_all delete_alias
    delete_aliases_lem [] w = refl
    delete_aliases_lem ((name, _) ∷ m) w = rw (log_error-command P civil) (delete_aliases_lem m _)

    delete_all_lem :
        (deletes : GoMap SolrCollection) (w : World P)
        → delete_all P c deletes w
          ≡ (ok tt, after_all P (key_requests (delete_collection_request c) deletes) w)
    unfolding delete_all after_all delete_collection
    delete_all_lem [] w = refl
    delete_all_lem ((name, _) ∷ m) w = rw (log_error-command P civil) (delete_all_lem m _)

    adjust_factors_lem :
        (factor : ℤ) (changes : GoMap Collection) (w : World P)
        → adjust_factors P c factor changes w ≡ (
          ok tt,
          after_all P
              (key_requests (λ name. set_replication_factor_request c name factor) changes)
              w,
        )
    unfolding adjust_factors after_all set_replication_factor
    adjust_factors_lem factor [] w = refl
    adjust_factors_lem factor ((name, _) ∷ m) w =
        rw (log_error-command P civil) (adjust_factors_lem factor m _)

    process_lem :
        (cfg : Settings) (aliases : GoMap String) (plan : Plan) (w : World P)
        → process P c cfg aliases plan w
          ≡ (ok (has_work plan), after_all P (plan_requests cfg aliases plan) w)
    unfolding process
    process_lem cfg aliases plan w =
        simp
          (create_all_lem, delete_aliases_lem, delete_all_lem, adjust_factors_lem, after_all-append)

    -- On a platform whose errors can be read, with the pointers of the spec set:
    -- ManageCollections returns whether its plan has work, and leaves the world as it is after
    -- exactly the requests of the plan, made in their order.
    pub manage_collections_lem :
        (set : SolrCollectionSet) (solr : GoMap Collection) (aliases : GoMap String) (w : World P)
        (cfg : Settings)
        → settings set.spec ≡ ok cfg
        → let plan = plan_collections P cfg set.spec.collections solr aliases in
          manage_collections P c set solr aliases w
          ≡ (ok (has_work plan), after_all P (plan_requests cfg aliases plan) w)
    unfolding manage_collections
    manage_collections_lem set solr aliases w cfg e = rw e (process_lem cfg aliases _ w)
