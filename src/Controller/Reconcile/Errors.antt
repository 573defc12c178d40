-- ===== src/Controller/Reconcile/Errors.antt =====
-- What becomes of the errors that `Reconcile` meets.
use solr_collections_operato.Base.{
  ◌≡◌, refl, String, Bool, true, false, not, ◌&&◌, [], ◌∷◌, arith, if◌then◌else◌,
}
use solr_collections_operato.Base.GoMap.{GoMap, has_key}
use solr_collections_operato.Base.Outcome.{Outcome, ok, err, panic}
use solr_collections_operato.Base.Exec.{Exec, resume, ◌>>=◌, ◌>>◌, pure, log_error}
use solr_collections_operato.Api.{
  SolrCollection, SolrCollectionSet, SolrCollectionSetSpec, Settings, settings,
}
use solr_collections_operato.Solr.{SolrClient, Collection}
use solr_collections_operato.Platform.{Platform}
use solr_collections_operato.Base.Int.{ℤ}
use solr_collections_operato.Solr.Client.Commands.{
  assign_alias, create_collection, delete_alias, delete_collection, set_replication_factor,
}
use solr_collections_operato.Controller.Collections.{
  Plan, ensure_alias, create_all, delete_aliases, delete_all, adjust_factors, process,
  manage_collections,
}

-- An outcome that is not an error.
abbrev pub is_handled : {A : Type 0} → Outcome A → Bool
is_handled (ok _) = true
is_handled (err _) = false
is_handled panic = true

-- It returns no error, from whatever state.
pub record IsSafe {S A : Type 0} (m : Exec S A) : Type 0 where
  pub outcome : (s : S) → is_handled (m s).0 ≡ true

module _ {S A B : Type 0} where
  resume-is_handled :
      (f : A → Exec S B) (r : Outcome A × S)
      → is_handled r.0 ≡ true
      → ((a : A) → IsSafe (f a))
      → is_handled (resume f r).0 ≡ true
  resume-is_handled f (ok a, s) h k = (k a).outcome s
  resume-is_handled f (err e, s) h k = h
  resume-is_handled f (panic, s) h k = refl

  pub bind-IsSafe :
      {m : Exec S A} {f : A → Exec S B} → IsSafe m → ((a : A) → IsSafe (f a)) → IsSafe (m >>= f)
  bind-IsSafe {m} {f} h k = record { outcome = λ s. resume-is_handled f (m s) (h.outcome s) k }

module _ {S A : Type 0} where
  pub then-IsSafe : {m : Exec S (Unit {0})} {k : Exec S A} → IsSafe m → IsSafe k → IsSafe (m >> k)
  then-IsSafe {m} {k} h safe = record {
    outcome = λ s. resume-is_handled (λ _. k) (m s) (h.outcome s) (λ _. safe);
  }

  pub if-IsSafe : (b : Bool) {m k : Exec S A} → IsSafe m → IsSafe k → IsSafe (if b then m else k)
  if-IsSafe true h safe = h
  if-IsSafe false h safe = safe

  pub pure-IsSafe : (a : A) → IsSafe {S = S} (pure a)
  pure-IsSafe a = record { outcome = λ s. refl }

module _ {S : Type 0} where
  tolerated-is_handled :
      (r : Outcome (Unit {0}) × S) (s : S) → is_handled (log_error (λ (_ : S). r) s).0 ≡ true
  tolerated-is_handled (ok _, v) s = refl
  tolerated-is_handled (err _, v) s = refl
  tolerated-is_handled (panic, v) s = refl

  log_error-IsSafe : (m : Exec S (Unit {0})) → IsSafe (log_error m)
  log_error-IsSafe m = record { outcome = λ s. tolerated-is_handled (m s) s }

pub settings-is_handled : (spec : SolrCollectionSetSpec) → is_handled (settings spec) ≡ true
unfolding settings
settings-is_handled spec = ground arith

module _ (P : Platform) (c : SolrClient) where
  ensure_alias-IsSafe :
      (cfg : Settings) (aliases : GoMap String) (name : String) (spec : SolrCollection)
      → IsSafe (ensure_alias P c cfg aliases name spec)
  unfolding ensure_alias has_key
  ensure_alias-IsSafe cfg aliases name spec =
      if-IsSafe (cfg.is_blue_green && not (has_key spec.alias aliases))
        (log_error-IsSafe (assign_alias P c spec.alias name)) (pure-IsSafe tt)

  create_all-IsSafe :
      (cfg : Settings) (aliases : GoMap String) (creates : GoMap SolrCollection)
      → IsSafe (create_all P c cfg aliases creates)
  unfolding create_all
  create_all-IsSafe cfg aliases [] = pure-IsSafe tt
  create_all-IsSafe cfg aliases ((name, spec) ∷ creates) =
      then-IsSafe (log_error-IsSafe (create_collection P c name spec.configset_name cfg.factor)) (
        then-IsSafe (ensure_alias-IsSafe cfg aliases name spec)
          (create_all-IsSafe cfg aliases creates))

  delete_aliases-IsSafe : (m : GoMap String) → IsSafe (delete_aliases P c m)
  unfolding delete_aliases
  delete_aliases-IsSafe [] = pure-IsSafe tt
  delete_aliases-IsSafe ((alias, _) ∷ m) =
      then-IsSafe (log_error-IsSafe (delete_alias P c alias)) (delete_aliases-IsSafe m)

  delete_all-IsSafe : (m : GoMap SolrCollection) → IsSafe (delete_all P c m)
  unfolding delete_all
  delete_all-IsSafe [] = pure-IsSafe tt
  delete_all-IsSafe ((name, _) ∷ m) =
      then-IsSafe (log_error-IsSafe (delete_collection P c name)) (delete_all-IsSafe m)

  adjust_factors-IsSafe : (factor : ℤ) (m : GoMap Collection) → IsSafe (adjust_factors P c factor m)
  unfolding adjust_factors
  adjust_factors-IsSafe factor [] = pure-IsSafe tt
  adjust_factors-IsSafe factor ((name, _) ∷ m) =
      then-IsSafe (log_error-IsSafe (set_replication_factor P c name factor))
        (adjust_factors-IsSafe factor m)

  process-IsSafe :
      (cfg : Settings) (aliases : GoMap String) (plan : Plan)
      → IsSafe (process P c cfg aliases plan)
  unfolding process
  process-IsSafe cfg aliases plan = then-IsSafe (create_all-IsSafe cfg aliases _) (
      then-IsSafe (delete_aliases-IsSafe _) (
        then-IsSafe (delete_all-IsSafe _)
          (then-IsSafe (adjust_factors-IsSafe cfg.factor _) (pure-IsSafe _))))

  pub manage_collections-IsSafe :
      (set : SolrCollectionSet) (solr : GoMap Collection) (aliases : GoMap String)
      → IsSafe (manage_collections P c set solr aliases)
  unfolding manage_collections
  manage_collections-IsSafe set solr aliases =
      bind-IsSafe (record { outcome = λ s. settings-is_handled set.spec })
        (λ cfg. process-IsSafe cfg aliases _)
