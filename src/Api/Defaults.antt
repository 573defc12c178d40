-- ===== src/Api/Defaults.antt =====
-- The defaults of api/v1/solrcollectionset_types.go: complete, idempotent, and only where a field
-- was missing.
use solr_collections_operato.Base.{◌≡◌, ◌≢◌, false, List, [], ◌∷◌, arith, All, refl}
use mathlib.Core.Option.{get_or}
use solr_collections_operato.Base.Outcome.{ok}
use solr_collections_operato.Api.{
  SolrCollection, SolrCollectionSetSpec, SolrCollectionSet, fill, spec_with_defaults,
  set_collection_defaults, with_defaults, Settings, settings, default_active,
  default_replication_factor, default_blue_green_enabled, default_cleanup_enabled,
}

set_collection_defaults_idem :
    (cs : List SolrCollection)
    → All (λ (c : SolrCollection). c.name ≢ "") cs
    → set_collection_defaults (set_collection_defaults cs).0
      ≡ ((set_collection_defaults cs).0, false)
unfolding set_collection_defaults
set_collection_defaults_idem [] h = refl
set_collection_defaults_idem (c ∷ cs) (named, h) = ground (arith, set_collection_defaults_idem cs h)

set_collection_defaults_unchanged :
    (cs : List SolrCollection)
    → (set_collection_defaults cs).1 ≡ false
    → (set_collection_defaults cs).0 ≡ cs
unfolding set_collection_defaults
set_collection_defaults_unchanged [] h = refl
set_collection_defaults_unchanged (c ∷ cs) h = ground (arith, set_collection_defaults_unchanged cs)

spec_with_defaults_unchanged :
    (spec : SolrCollectionSetSpec)
    → (spec_with_defaults spec).1 ≡ false
    → (spec_with_defaults spec).0 ≡ spec
unfolding spec_with_defaults fill
spec_with_defaults_unchanged spec h = ground arith

-- If every collection has a name, applying the defaults to a resource that has them changes nothing,
-- and reports no change.
pub with_defaults_idem :
    (sc : SolrCollectionSet)
    → All (λ (c : SolrCollection). c.name ≢ "") sc.spec.collections
    → with_defaults (with_defaults sc).0 ≡ ((with_defaults sc).0, false)
unfolding with_defaults spec_with_defaults fill
with_defaults_idem sc h = ground (arith, set_collection_defaults_idem sc.spec.collections h)

-- If no change is reported, the resource is as it was.
pub with_defaults_unchanged :
    (sc : SolrCollectionSet) → (with_defaults sc).1 ≡ false → (with_defaults sc).0 ≡ sc
unfolding with_defaults
with_defaults_unchanged sc h = ground (
  arith,
  spec_with_defaults_unchanged sc.spec,
  set_collection_defaults_unchanged sc.spec.collections,
)

-- After the defaults every pointer can be followed: a setting that the spec gives is kept, and one
-- that it leaves out is the default.
pub settings-with_defaults :
    (sc : SolrCollectionSet)
    → settings (with_defaults sc).0.spec
      ≡ ok (record {
        is_active = get_or sc.spec.active default_active;
        factor = get_or sc.spec.replication_factor default_replication_factor;
        is_blue_green = get_or sc.spec.blue_green_enabled default_blue_green_enabled;
        is_cleanup = get_or sc.spec.cleanup_enabled default_cleanup_enabled;
      })
unfolding with_defaults settings fill
settings-with_defaults sc = ground arith

-- A resource whose defaults report no change has settings: the reconciler follows no nil pointer.
pub settings_of_unchanged :
    (sc : SolrCollectionSet)
    → (with_defaults sc).1 ≡ false
    → (s : Settings) × (settings sc.spec ≡ ok s)
settings_of_unchanged sc h = (_, rw (with_defaults_unchanged sc h) at (settings-with_defaults sc))
