-- ===== src/Controller/Status/Settled.antt =====
-- When a round of the assessment leaves a collection set stable.
use solr_collections_operato.Base.{
  ◌≡◌, refl, ℕ, String, Bool, true, ◌&&◌, ◌||◌, none, some, List, [], ◌∷◌, arith, eqb,
}
use solr_collections_operato.Base.Int.{ℤ, eqb_ℤ}
use solr_collections_operato.Base.Text.{has_prefix}
use solr_collections_operato.Base.GoMap.{GoMap, NodupKeys, lookup, lookup-cons}
use solr_collections_operato.Base.GoMap.Counted.{lookup_self, count_values}
use solr_collections_operato.Api.{SolrCollection, SolrCollectionSet, Settings}
use solr_collections_operato.Solr.{Collection}
use solr_collections_operato.Controller.Names.{is_counted, count_solr_collections}
use solr_collections_operato.Controller.Status.{
  Assessment, assess_counts, assess_factor, assess_replicas, assess_collection, assess_collections,
}

-- A collection of the cluster that is the operator's own, or has the replication factor of the set and
-- as many replicas.
abbrev pub is_settled : ℤ → Collection → Bool
is_settled factor collection =
    has_prefix collection.name "_"
    || (eqb_ℤ factor collection.replication_factor
        && eqb_ℤ collection.replica_count collection.replication_factor)

abbrev pub all_settled : ℤ → GoMap Collection → Bool
all_settled factor [] = true
all_settled factor ((_, collection) ∷ m) = is_settled factor collection && all_settled factor m

assess_collection-is_stable :
    (cfg : Settings) (set : SolrCollectionSet) (to_alias : GoMap String) (name : String)
    (collection : Collection) (a : Assessment)
    → (assess_collection cfg set to_alias name collection a).is_stable
      ≡ (is_settled cfg.factor collection && a.is_stable)
unfolding assess_collection assess_factor assess_replicas
assess_collection-is_stable cfg set to_alias name collection a = ground arith

pub assess_collections-is_stable :
    (cfg : Settings) (set : SolrCollectionSet) (to_alias : GoMap String) (m : GoMap Collection)
    (a : Assessment)
    → (assess_collections cfg set to_alias m a).is_stable
      ≡ (all_settled cfg.factor m && a.is_stable)
unfolding assess_collections
assess_collections-is_stable cfg set to_alias [] a = refl
assess_collections-is_stable cfg set to_alias ((name, collection) ∷ m) a = ground (
  arith,
  assess_collections-is_stable cfg set to_alias m
      (assess_collection cfg set to_alias name collection a),
  assess_collection-is_stable cfg set to_alias name collection a,
)

pub assess_counts-is_stable :
    (set : SolrCollectionSet) (is_blue_green : Bool) (specified existing : ℕ) (a : Assessment)
    → (assess_counts set is_blue_green specified existing a).is_stable
      ≡ (eqb specified existing && a.is_stable)
unfolding assess_counts
assess_counts-is_stable set is_blue_green specified existing a = ground arith

pub count_solr_collections-count_values :
    (m : GoMap Collection) (specs : List SolrCollection) (is_blue_green : Bool)
    → count_solr_collections m specs is_blue_green ≡ count_values (is_counted specs is_blue_green) m
unfolding count_solr_collections count_values
count_solr_collections-count_values [] specs is_blue_green = refl
count_solr_collections-count_values (_ ∷ m) specs is_blue_green =
    ground (arith, count_solr_collections-count_values m specs is_blue_green)

pub all_settled-lookup :
    (factor : ℤ) (m : GoMap Collection) (n : String) (collection : Collection)
    → all_settled factor m ≡ true
    → lookup n m ≡ some collection
    → is_settled factor collection ≡ true
unfolding lookup
all_settled-lookup factor [] n collection h e = ground arith
all_settled-lookup factor ((k, v) ∷ m) n collection h e =
    ground (arith, all_settled-lookup factor m n collection)

lookup-cons_fresh :
    (k : String) (v : Collection) (m : GoMap Collection) (n : String) (collection : Collection)
    → lookup k m ≡ none
    → lookup n m ≡ some collection
    → lookup n ((k, v) ∷ m) ≡ some collection
lookup-cons_fresh k v m n collection fresh e = ground (arith, lookup-cons n k v m)

pub lookup-all_settled :
    (factor : ℤ) (m : GoMap Collection)
    → NodupKeys m
    → ((n : String) (collection : Collection)
        → lookup n m ≡ some collection
        → is_settled factor collection ≡ true)
    → all_settled factor m ≡ true
lookup-all_settled factor [] u h = refl
lookup-all_settled factor ((k, v) ∷ m) (fresh, u) h = ground (
  arith,
  lookup-all_settled factor m u
      (λ n collection e. h n collection (lookup-cons_fresh k v m n collection fresh e)),
  h k v (lookup_self k v m),
)
