-- ===== src/Tests/Reconcile.antt =====
-- `Reconcile` at concrete data.
use solr_collections_operato.Base.{◌≡◌, none, [], refl, true, String-discrete}
use solr_collections_operato.Api.{SolrCollectionSet, with_defaults}
use solr_collections_operato.Platform.{NamespacedName, found, Platform}
use solr_collections_operato.Controller.Reconcile.{Process}
use solr_collections_operato.Controller.Reconcile.Loop.{reconcile}
use solr_collections_operato.Controller.Reconcile.Quiet.{reconcile_incomplete}
use solr_collections_operato.Controller.Reconcile.Errors.{is_handled}
use solr_collections_operato.Controller.Reconcile.Caught.{reconcile-is_handled}
use solr_collections_operato.Tests.Data.{platform, start, client, stored}

abbrev key : NamespacedName
key = record { name = "library"; namespace = "default" }

abbrev idle : Process platform
idle = record { world = start; solr_client = client }

reconcile-is_handled_example : is_handled (reconcile platform key idle).0 ≡ true
reconcile-is_handled_example = reconcile-is_handled platform key idle

-- The clean-up is not said to be enabled or not.
abbrev draft : SolrCollectionSet
draft = record stored { spec = record stored.spec { cleanup_enabled = none } }

abbrev draft_platform : Platform
draft_platform = record platform { fetch = λ name s. found draft }

abbrev beginning : Process draft_platform
beginning = record { world = record { cluster = 0; sent = [] }; solr_client = client }

reconcile_incomplete_example : (reconcile draft_platform key beginning).1.world.sent ≡ []
reconcile_incomplete_example =
    reconcile_incomplete draft_platform key beginning draft refl refl
      (unfold with_defaults String-discrete in refl)
