-- ===== src/Tests/Collections.antt =====
-- `ManageCollections` at concrete data.
use solr_collections_operato.Base.{
  ◌≡◌, refl, ◌↔◌, String, Bool, true, false, not, ◌&&◌, none, some, List, [], ◌∷◌, ◌++◌, map, arith,
  String-discrete, is_some, if◌then◌else◌,
}
use solr_collections_operato.Base.Int.{pos, eqb_ℤ}
use solr_collections_operato.Base.GoMap.{lookup, insert, has_key, NodupKeys}
use solr_collections_operato.Base.Outcome.{ok}
use solr_collections_operato.Base.Decimal.{decimal, show_int}
use text.Mathlib.TextEquality.{eq_iff}
use mathlib.Core.Option.{or_else}
use solr_collections_operato.Solr.{Collection}
use solr_collections_operato.Api.{settings}
use solr_collections_operato.Platform.{Request}
use solr_collections_operato.Solr.Client.Commands.{
  delete_collection_request, delete_alias_request, set_replication_factor_request,
}
use solr_collections_operato.Solr.Client.Delivery.{accepted, after_all}
use solr_collections_operato.Controller.Names.Colored.{is_target}
use solr_collections_operato.Controller.Names.Mapped.{specified}
use solr_collections_operato.Controller.Collections.{
  Plan, no_spec, now_deleted, plan_collections, manage_collections,
}
use solr_collections_operato.Controller.Collections.Run.{
  create_requests, key_requests, has_work, plan_requests, manage_collections_lem,
}
use solr_collections_operato.Controller.Collections.Planned.{
  is_stray, lookup-creates, lookup-deletes, lookup-factor_changes,
}
use solr_collections_operato.Controller.Collections.Aligned.{
  IsAligned, manage_collections_idle, manage_collections-IsAligned,
}
use solr_collections_operato.Controller.Collections.Deleted.{is_among, manage_collections-deletions}
use solr_collections_operato.Tests.Data.{
  in_order-IsFair as fair, platform, civil, start, client, specs, set_of, settings_of, solr,
  solr-NodupKeys, aliases, settled,
}

-- The addresses that a run of the whole sends requests to.
urls : List String
unfolding manage_collections
urls =
    map (λ (r : Request). r.url)
      (manage_collections platform client (set_of (some false) (some true)) solr aliases
        start).1.sent

-- The alias to delete is "shelf", and the request names the collection "old".
urls_of_run :
    urls
    ≡ "http://solr/solr/admin/collections?action=CREATE&name=films&collection.configName=&numShards=1&replicationFactor=2&autoAddReplicas=true&wt=json"
      ∷ "http://solr/solr/admin/collections?action=DELETEALIAS&name=old"
      ∷ "http://solr/solr/admin/collections?action=DELETE&name=old"
      ∷ "http://solr/solr/admin/collections?action=MODIFYCOLLECTION&collection=books&replicationFactor=2&wt=json"
      ∷ []
unfolding urls String-discrete lookup insert now_deleted show_int decimal
urls_of_run = refl

settled-NodupKeys : NodupKeys settled
unfolding lookup String-discrete
settled-NodupKeys = (refl, (refl, (refl, tt)))

abbrev plan : Plan
plan = plan_collections platform (settings_of false true) specs solr aliases

read :
    (is_blue_green is_cleanup : Bool)
    → settings (set_of (some is_blue_green) (some is_cleanup)).spec
      ≡ ok (settings_of is_blue_green is_cleanup)
unfolding settings
read is_blue_green is_cleanup = refl

manage_collections_lem_example :
    manage_collections platform client (set_of (some false) (some true)) solr aliases start ≡ (
      ok (has_work plan),
      after_all platform
          (plan_requests platform client (settings_of false true) aliases plan)
          start,
    )
manage_collections_lem_example =
    manage_collections_lem platform client civil (set_of (some false) (some true)) solr aliases
      start (settings_of false true) (read false true)

lookup-creates_example :
    lookup "films" plan.creates
    ≡ (if has_key "films" solr then none else specified false specs "films")
lookup-creates_example =
    lookup-creates platform fair (settings_of false true) specs solr aliases "films"

lookup-deletes_example : lookup "old" plan.deletes ≡ (
    if true && (has_key "old" solr && is_stray (settings_of false true) specs "old")
    then some no_spec
    else none)
lookup-deletes_example =
    lookup-deletes platform fair (settings_of false true) specs solr aliases solr-NodupKeys "old"

lookup-factor_changes_example : lookup "books" plan.factor_changes ≡ elim (lookup "books" solr) [
  | none ↦ none
  | some collection ↦
      if is_some (specified false specs "books")
        && not (eqb_ℤ collection.replication_factor (pos 2))
      then some collection
      else none
]
lookup-factor_changes_example =
    lookup-factor_changes platform fair (settings_of false true) specs solr aliases solr-NodupKeys
      "books"

settled_present : (n : String) → is_some (specified false specs n) ≡ true → has_key n settled ≡ true
unfolding specified has_key or_else
settled_present n s = ground arith

settled_factors :
    (n : String) (collection : Collection)
    → lookup n settled ≡ some collection
    → is_some (specified false specs n) ≡ true
    → eqb_ℤ collection.replication_factor (pos 2) ≡ true
unfolding specified lookup or_else
settled_factors n collection e s =
    ground (arith, eq_iff "books" "_libraryChecksums", eq_iff "films" "_libraryChecksums")

checksums_not_stray : is_stray (settings_of false true) specs "_libraryChecksums" ≡ false
unfolding specified or_else String-discrete
checksums_not_stray = refl

settled_clean :
    (n : String) → has_key n settled ≡ true → is_stray (settings_of false true) specs n ≡ false
unfolding specified has_key or_else
settled_clean n k = elim (String-discrete n "_libraryChecksums") [
  | yes p ↦ rw p checksums_not_stray
  | no p ↦ ground arith
]

settled-IsAligned : IsAligned (settings_of false true) specs settled
settled-IsAligned = record {
  present = settled_present;
  factors = settled_factors;
  clean = λ e. settled_clean;
}

manage_collections_idle_example :
    manage_collections platform client (set_of (some false) (some true)) settled aliases start
    ≡ (ok false, start)
manage_collections_idle_example =
    manage_collections_idle platform fair civil client (set_of (some false) (some true))
      (settings_of false true) settled aliases start settled-NodupKeys (read false true)
      settled-IsAligned

manage_collections-IsAligned_example :
    ((manage_collections platform client (set_of (some false) (some true)) solr aliases start).0
      ≡ ok false)
    ↔ IsAligned (settings_of false true) specs solr
manage_collections-IsAligned_example =
    manage_collections-IsAligned platform fair civil client (set_of (some false) (some true))
      (settings_of false true) solr aliases start solr-NodupKeys (read false true)

aliases-NodupKeys : NodupKeys aliases
unfolding lookup String-discrete
aliases-NodupKeys = (refl, tt)

manage_collections-deletions_example :
    (named deleted : List String) × ((manage_collections platform client
        (set_of (some false) (some true))
        solr
        aliases
        start).1.sent
      ≡ accepted platform (
          create_requests client (settings_of false true) aliases plan.creates
          ++ (map (delete_alias_request client) named
              ++ (map (delete_collection_request client) deleted
                  ++ key_requests
                      (λ name. set_replication_factor_request client name (pos 2))
                      plan.factor_changes))))
    × ((n : String)
        → is_among deleted n
          ≡ (true && (has_key n solr && is_stray (settings_of false true) specs n)))
    × ((n : String)
        → is_among named n ≡ (
            true
            && (has_key n solr
                && (is_stray (settings_of false true) specs n && is_target aliases n))))
manage_collections-deletions_example =
    manage_collections-deletions platform fair civil client (set_of (some false) (some true))
      (settings_of false true) solr aliases start (read false true) solr-NodupKeys aliases-NodupKeys

abbrev plan_kept : Plan
plan_kept = plan_collections platform (settings_of true false) specs solr aliases
