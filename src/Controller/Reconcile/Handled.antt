-- ===== src/Controller/Reconcile/Handled.antt =====
-- How `Reconcile` ends.
use solr_collections_operato.Base.{◌≡◌, refl, false}
use solr_collections_operato.Api.{SolrCollectionSet}
use solr_collections_operato.Platform.{NamespacedName, found, Platform}
use solr_collections_operato.Controller.Reconcile.{Process}
use solr_collections_operato.Controller.Reconcile.Loop.{
  is_unconditioned, reconcile_set, reconcile_fetched, reconcile,
}

module _ (P : Platform) where
  pub reconcile-found :
      (key : NamespacedName) (p : Process P) (set : SolrCollectionSet)
      → P.fetch key p.world.cluster ≡ found set
      → is_unconditioned P set ≡ false
      → reconcile P key p ≡ reconcile_set P key set p
  unfolding reconcile reconcile_fetched
  reconcile-found key p set fetched conditioned =
      rw (fetched, reconcile_fetched) (rw conditioned refl)
