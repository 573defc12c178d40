-- ===== src/Controller/ConfigSets/Refused.antt =====
-- That `ManageConfigSets` ends with an error while a config set that it has to remove is in use.
use solr_collections_operato.Base.{
  ◌≡◌, ◌≢◌, refl, String, Bool, true, ◌==◌, some, List, [], ◌∷◌, ◌<>◌, arith, inl, inr, Bool-cases,
  All, ==→≡,
}
use solr_collections_operato.Base.GoMap.{GoMap, IsFair, lookup, has_key, lookup-cons}
use solr_collections_operato.Base.Outcome.{Outcome, ok, err, panic}
use solr_collections_operato.Base.Exec.{Exec, resume, or_error}
use solr_collections_operato.Solr.{SolrClient}
use solr_collections_operato.Platform.{
  ConfigMap, Request, Platform, World, config_uploads, config_removes,
}
use solr_collections_operato.Solr.Client.Commands.{
  delete_config_set, upload_config_set_request, write_record_request, delete_config_set_request,
}
use solr_collections_operato.Solr.Client.Preserved.{Preserves, preserved-after, preserved-after_all}
use solr_collections_operato.Solr.Client.Accepted.{command-outcome}
use solr_collections_operato.Solr.ConfigStore.{IsFine}
use solr_collections_operato.Controller.Names.{contains}
use solr_collections_operato.Controller.ConfigSets.{
  plan_config_sets, upload_all, remove_all, process_config_sets,
}
use solr_collections_operato.Controller.ConfigSets.Queued.{is_surplus, lookup-removes}
use solr_collections_operato.Controller.ConfigSets.Converged.{find_removes-NodupKeys}
use solr_collections_operato.Controller.ConfigSets.Run.{
  upload_requests, upload_all-Completes, delete_config_set-after,
}

-- A run that ends well: its first part does, and what follows.
pub resume-ok :
    {S : Type 0} (r : Outcome (Unit {0}) × S) (k : Exec S (Unit {0}))
    → (resume (λ _. k) r).0 ≡ ok tt
    → (r.0 ≡ ok tt) × ((k r.1).0 ≡ ok tt)
resume-ok (ok tt, s) k e = (refl, e)
resume-ok (err message, s) k e = absurd (ground arith)
resume-ok (panic, s) k e = absurd (ground arith)

replaced_ok :
    {S : Type 0} (message : String) (r : Outcome (Unit {0}) × S) (s : S)
    → (or_error message (λ (_ : S). r) s).0 ≡ ok tt
    → r.0 ≡ ok tt
replaced_ok message (ok tt, v) s f = refl
replaced_ok message (err _, v) s f = absurd (ground arith)
replaced_ok message (panic, v) s f = absurd (ground arith)

replaced_state :
    {S : Type 0} (message : String) (r : Outcome (Unit {0}) × S) (s : S)
    → (or_error message (λ (_ : S). r) s).1 ≡ r.1
replaced_state message (ok tt, v) s = refl
replaced_state message (err _, v) s = refl
replaced_state message (panic, v) s = refl

-- Solr refuses to delete the config set while a collection uses it, and no request for config sets or
-- checksums changes that.
pub record KeepsUsed (P : Platform) (c : SolrClient) (name : String) : Type 0 where
  pub is_used : P.State → Bool
  pub refused : (s : P.State) → is_used s ≡ true → ¬ (IsFine P (delete_config_set_request c name) s)
  pub after_upload :
      (n content : String) (s : P.State)
      → is_used s ≡ true
      → is_used (P.do_request (upload_config_set_request c n content) s).1 ≡ true
  pub after_write :
      (n content : String) (s : P.State)
      → is_used s ≡ true
      → is_used (P.do_request (write_record_request c n content) s).1 ≡ true
  pub after_delete :
      (n : String) (s : P.State)
      → is_used s ≡ true
      → is_used (P.do_request (delete_config_set_request c n) s).1 ≡ true

module _ (P : Platform) (c : SolrClient) (name : String) (solr : KeepsUsed P c name) where
  abbrev Keeps : Request → Type 0
  Keeps = Preserves P (λ s. solr.is_used s ≡ true)

  upload_requests-Keeps :
      (checksums_collection : String) (m : GoMap ConfigMap)
      → All Keeps (upload_requests P c checksums_collection m)
  upload_requests-Keeps checksums_collection [] = tt
  upload_requests-Keeps checksums_collection ((n, cm) ∷ m) = (
    solr.after_upload n _,
    (solr.after_write checksums_collection _, upload_requests-Keeps checksums_collection m),
  )

  -- The loop of the removals does not end well.
  remove_all-fails :
      (m : GoMap String) (w : World P)
      → has_key name m ≡ true
      → solr.is_used w.cluster ≡ true
      → (remove_all P c m w).0 ≢ ok tt
  unfolding remove_all has_key lookup delete_config_set
  remove_all-fails [] w there used ends = ground arith
  remove_all-fails ((k, x) ∷ m) w there used ends =
      let (first, rest) = resume-ok _ (remove_all P c m) ends in
      let deleted = replaced_ok _ (delete_config_set P c k w) w first in
      let (resp, (made, answer), fine) =
        (command-outcome P (delete_config_set_request c k) _ w).0.0 deleted in
      elim (Bool-cases (name == k)) [
        | inl same ↦
            solr.refused w.cluster used (rw (==→≡ name k same) (made, (resp, answer, fine)))
        | inr other ↦
            remove_all-fails m _ (ground (arith, lookup-cons name k x m))
              (rw
                (
                  replaced_state ("could not clean up config set [" <> (k <> "]"))
                      (delete_config_set P c k w) w,
                  delete_config_set-after P c "" k w,
                )
                (preserved-after P (λ s. solr.is_used s ≡ true) (delete_config_set_request c k) w
                  (solr.after_delete k) used))
              rest
      ]

  removed-queued :
      (fair : IsFair P.order) (names : List String) (maps : GoMap ConfigMap)
      (checksums : GoMap String)
      → contains names name ≡ true
      → is_surplus maps name ≡ true
      → has_key name (
          P.order.visit config_removes String
            (plan_config_sets P true names maps checksums).removes)
        ≡ true
  unfolding has_key plan_config_sets
  removed-queued fair names maps checksums there surplus =
      let plan = plan_config_sets P true names maps checksums in
      let visited =
        fair.lookup-visit config_removes String plan.removes
          (find_removes-NodupKeys maps names [] tt) name in
      let queued : lookup name plan.removes ≡ some name =
        ground (arith, lookup-removes P fair true names maps checksums name, there, surplus) in
      rw (visited, queued) refl

  -- So it is with the whole plan, where the config set is there, is surplus and is to be cleaned up.
  pub process_config_sets-fails :
      IsFair P.order
      → (checksums_collection : String) (names : List String) (maps : GoMap ConfigMap)
        (checksums : GoMap String) (w : World P)
      → contains names name ≡ true
      → is_surplus maps name ≡ true
      → solr.is_used w.cluster ≡ true
      → (process_config_sets P c checksums_collection
          (plan_config_sets P true names maps checksums)
          w).0
        ≢ ok tt
  unfolding process_config_sets
  process_config_sets-fails fair checksums_collection names maps checksums w there surplus used
        ends =
      let plan = plan_config_sets P true names maps checksums in
      let uploads = P.order.visit config_uploads ConfigMap plan.uploads in
      let removes = P.order.visit config_removes String plan.removes in
      let (first, rest) =
        resume-ok (upload_all P c checksums_collection uploads w) (remove_all P c removes) ends in
      let (done, left, all, made, whole) =
        upload_all-Completes P c checksums_collection uploads w in
      remove_all-fails removes _ (removed-queued fair names maps checksums there surplus)
        (rw made (
          preserved-after_all P (λ s. solr.is_used s ≡ true) done left _ w all
            (upload_requests-Keeps checksums_collection uploads) used))
        rest
