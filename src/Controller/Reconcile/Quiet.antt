-- ===== src/Controller/Reconcile/Quiet.antt =====
-- What `Reconcile` does while a collection set lacks its defaults.
use solr_collections_operato.Base.{◌≡◌, refl, ◌∙◌, String, Bool, true, false, if◌then◌else◌}
use solr_collections_operato.Base.Outcome.{Outcome, ok, err, panic}
use solr_collections_operato.Base.Exec.{resume, ◌>>=◌, pure}
use solr_collections_operato.Api.{SolrCollectionSet, with_defaults}
use solr_collections_operato.Platform.{NamespacedName, found, Written, written, refused, Platform}
use solr_collections_operato.Controller.Reconcile.{
  unscheduled, immediately, with_backoff, Process, Run, kubernetes, refetch, requeue_on_error,
  requeue_refetched, requeue_patched, failed_status,
}
use solr_collections_operato.Controller.Reconcile.Loop.{
  spec_updated, reconcile_set, is_unconditioned, reconcile,
}
use solr_collections_operato.Controller.Reconcile.Handled.{reconcile-found}

-- The requests to Solr are as they were, whatever state it starts from.
pub record IsQuiet {P : Platform} {A : Type 0} (m : Run P A) : Type 0 where
  pub same_sent : (p : Process P) → (m p).1.world.sent ≡ p.world.sent

module _ {P : Platform} {A B : Type 0} where
  resume_quiet :
      (f : A → Run P B) (r : Outcome A × Process P)
      → ((a : A) → IsQuiet {P = P} (f a))
      → (resume f r).1.world.sent ≡ r.1.world.sent
  resume_quiet f (ok a, p) k = (k a).same_sent p
  resume_quiet f (err e, p) k = refl
  resume_quiet f (panic, p) k = refl

  bind-IsQuiet :
      {m : Run P A} {f : A → Run P B}
      → IsQuiet {P = P} m
      → ((a : A) → IsQuiet {P = P} (f a))
      → IsQuiet {P = P} (m >>= f)
  bind-IsQuiet {m} {f} h k = record { same_sent = λ p. resume_quiet f (m p) k ∙ h.same_sent p }

module _ {P : Platform} {A : Type 0} where
  pure-IsQuiet : (a : A) → IsQuiet {P = P} (pure a)
  pure-IsQuiet a = record { same_sent = λ p. refl }

  kubernetes-IsQuiet : (f : P.State → A × P.State) → IsQuiet {P = P} (kubernetes P f)
  kubernetes-IsQuiet f = record { same_sent = λ p. refl }

  if-IsQuiet :
      (b : Bool) {m k : Run P A}
      → IsQuiet {P = P} m
      → IsQuiet {P = P} k
      → IsQuiet {P = P} (if b then m else k)
  if-IsQuiet true h quiet = h
  if-IsQuiet false h quiet = quiet

module _ (P : Platform) (key : NamespacedName) where
  refetch-IsQuiet : (set : SolrCollectionSet) → IsQuiet (refetch P key set)
  unfolding refetch
  refetch-IsQuiet set = record { same_sent = λ p. refl }

  requeue_patched-IsQuiet : (answer : Written) → IsQuiet (requeue_patched P key answer)
  unfolding requeue_patched
  requeue_patched-IsQuiet (refused _) = pure-IsQuiet with_backoff
  requeue_patched-IsQuiet (written stored) =
      bind-IsQuiet (refetch-IsQuiet stored) λ r. pure-IsQuiet (requeue_refetched P r)

  pub requeue_on_error-IsQuiet :
      (set : SolrCollectionSet) (message : String) → IsQuiet (requeue_on_error P key set message)
  unfolding requeue_on_error
  requeue_on_error-IsQuiet set message =
      if-IsQuiet (P.deep_equal set.status (failed_status P set message)) (pure-IsQuiet unscheduled)
        (bind-IsQuiet (kubernetes-IsQuiet _) requeue_patched-IsQuiet)

  spec_updated-IsQuiet :
      (set : SolrCollectionSet) (answer : Written) → IsQuiet (spec_updated P key set answer)
  unfolding spec_updated
  spec_updated-IsQuiet set (refused e) = requeue_on_error-IsQuiet set e
  spec_updated-IsQuiet set (written _) = pure-IsQuiet immediately

  store_defaults-IsQuiet :
      (set : SolrCollectionSet)
      → IsQuiet (
          kubernetes P (P.update (with_defaults set).0)
          >>= spec_updated P key (with_defaults set).0)
  store_defaults-IsQuiet set =
      bind-IsQuiet (kubernetes-IsQuiet _) (spec_updated-IsQuiet (with_defaults set).0)

  reconcile_set_incomplete :
      (p : Process P) (set : SolrCollectionSet)
      → (with_defaults set).1 ≡ true
      → (reconcile_set P key set p).1.world.sent ≡ p.world.sent
  unfolding reconcile_set
  reconcile_set_incomplete p set incomplete =
      rw incomplete ((store_defaults-IsQuiet set).same_sent p)

  -- A collection set that has a condition, and lacks some of its defaults: Reconcile sends nothing to
  -- Solr in this run, whether or not the defaults can be stored.
  pub reconcile_incomplete :
      (p : Process P) (set : SolrCollectionSet)
      → P.fetch key p.world.cluster ≡ found set
      → is_unconditioned P set ≡ false
      → (with_defaults set).1 ≡ true
      → (reconcile P key p).1.world.sent ≡ p.world.sent
  reconcile_incomplete p set fetched conditioned incomplete =
      rw (reconcile-found P key p set fetched conditioned)
        (reconcile_set_incomplete p set incomplete)
