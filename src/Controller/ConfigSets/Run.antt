-- ===== src/Controller/ConfigSets/Run.antt =====
-- What `ManageConfigSets` sends once its plan is made, and when it stops.
use mathlib.Core.List.{append_assoc, append-nil}
use solr_collections_operato.Base.{
  ◌≡◌, refl, sym, ap, ◌∙◌, String, ◌<>◌, none, some, List, [], ◌∷◌, ◌++◌, inl, inr, Option-cases,
}
use solr_collections_operato.Base.GoMap.{GoMap}
use solr_collections_operato.Base.Outcome.{Outcome, ok, err, panic}
use solr_collections_operato.Base.Exec.{resume, or_error}
use solr_collections_operato.Platform.{
  ConfigMap, Request, Platform, World, Go, config_uploads, config_removes,
}
use solr_collections_operato.Solr.{SolrClient}
use solr_collections_operato.Solr.Client.Commands.{
  upload_config_set, write_record, delete_config_set, upload_config_set_request,
  write_record_request, delete_config_set_request,
}
use solr_collections_operato.Solr.Client.Delivery.{
  after, after_all, after_all-append, command-after,
}
use solr_collections_operato.Controller.ConfigSets.{
  ConfigPlan, config_set_data, checksum_record, upload_one, upload_all, remove_all,
  process_config_sets,
}

module _ (P : Platform) where
  -- Some first part of the requests was made, and all of them if there is no error.
  abbrev pub Completes : List Request → World P → Outcome (Unit {0}) × World P → Type 0
  Completes reqs w result =
      (done left : List Request) × (done ++ left ≡ reqs)
      × (result.1 ≡ after_all P done w)
      × (result.0 ≡ ok tt → left ≡ [])

  module _ (w : World P) where
    Completes-fail : (reqs : List Request) (message : String) → Completes reqs w (err message, w)
    unfolding after_all
    Completes-fail reqs message = ([], reqs, refl, refl, λ h. cc)

    Completes-one :
        (req : Request) (message : String) (r : Outcome (Unit {0}) × World P)
        → r.1 ≡ after P req w
        → Completes (req ∷ []) w (or_error message (λ (_ : World P). r) w)
    unfolding after_all
    Completes-one req message (ok _, v) e = (req ∷ [], [], refl, e, λ h. refl)
    Completes-one req message (err _, v) e = (req ∷ [], [], refl, e, λ h. refl)
    Completes-one req message (panic, v) e = (req ∷ [], [], refl, e, λ h. refl)

    Completes-then :
        (reqs more : List Request) (r : Outcome (Unit {0}) × World P) (k : Go P (Unit {0}))
        → Completes reqs w r
        → ((v : World P) → Completes more v (k v))
        → Completes (reqs ++ more) w (resume (λ _. k) r)
    Completes-then reqs more (ok _, v) k (done, left, all, made, rest) next =
        let (done', left', all', made', rest') = next v in
        let whole : done ≡ reqs =
          sym (append-nil done) ∙ ap (λ (l : List Request). done ++ l) (sym (rest refl)) ∙ all in
        (
          done ++ done',
          left',
          append_assoc done done' left'
              ∙ ap (λ (l : List Request). done ++ l) all'
              ∙ ap (λ (l : List Request). l ++ more) whole,
          made' ∙ ap (after_all P done') made ∙ sym (after_all-append P done done' w),
          rest',
        )
    Completes-then reqs more (err message, v) k (done, left, all, made, rest) next = (
      done,
      left ++ more,
      sym (append_assoc done left more) ∙ ap (λ (l : List Request). l ++ more) all,
      made,
      λ h. cc,
    )
    Completes-then reqs more (panic, v) k (done, left, all, made, rest) next = (
      done,
      left ++ more,
      sym (append_assoc done left more) ∙ ap (λ (l : List Request). l ++ more) all,
      made,
      λ h. cc,
    )

  module _ (c : SolrClient) (checksums_collection : String) where
    upload_config_set-after :
        (name content : String) (w : World P)
        → (upload_config_set P c name content w).1
          ≡ after P (upload_config_set_request c name content) w
    unfolding upload_config_set
    upload_config_set-after name content w =
        command-after P (upload_config_set_request c name content) _ w

    write_record-after :
        (name content : String) (w : World P)
        → (write_record P c name content w).1 ≡ after P (write_record_request c name content) w
    unfolding write_record
    write_record-after name content w = command-after P (write_record_request c name content) _ w

    pub delete_config_set-after :
        (name : String) (w : World P)
        → (delete_config_set P c name w).1 ≡ after P (delete_config_set_request c name) w
    unfolding delete_config_set
    delete_config_set-after name w = command-after P (delete_config_set_request c name) _ w

    -- The bytes that are uploaded; where base64 cannot be decoded, the loop ends before the request.
    unfoldable pub decoded_content : ConfigMap → String
    decoded_content cm = elim (P.base64_decode (config_set_data cm)) [
      | none ↦ ""
      | some content ↦ content
    ]

    -- The requests for one upload.
    abbrev pub upload_one_requests : String → ConfigMap → List Request
    upload_one_requests collection cm =
        upload_config_set_request c collection (decoded_content cm)
        ∷ write_record_request c checksums_collection
            (checksum_record collection (P.md5_hex (config_set_data cm)))
        ∷ []

    abbrev pub upload_requests : GoMap ConfigMap → List Request
    upload_requests [] = []
    upload_requests ((collection, cm) ∷ m) = upload_one_requests collection cm ++ upload_requests m

    abbrev pub remove_requests : GoMap String → List Request
    remove_requests [] = []
    remove_requests ((name, _) ∷ m) = delete_config_set_request c name ∷ remove_requests m

    upload_one-Completes :
        (collection : String) (cm : ConfigMap) (w : World P)
        → Completes
            (upload_one_requests collection cm)
            w
            (upload_one P c checksums_collection collection cm w)
    unfolding upload_one decoded_content
    upload_one-Completes collection cm w =
        elim (Option-cases (P.base64_decode (config_set_data cm))) [
          | inl e ↦ rw (e, upload_one) (Completes-fail w _ _)
          | inr (content, e) ↦
              let record_text = checksum_record collection (P.md5_hex (config_set_data cm)) in
              let record_request = write_record_request c checksums_collection record_text in
              rw (e, upload_one, decoded_content)
                (Completes-then w (upload_config_set_request c collection content ∷ [])
                  (record_request ∷ []) _ _
                  (Completes-one w (upload_config_set_request c collection content)
                    ("could not upload configset " <> collection)
                    (upload_config_set P c collection content w)
                    (upload_config_set-after collection content w))
                  (λ v.
                    Completes-one v record_request
                      ("could not write checksum to "
                        <> (checksums_collection <> (" for collection " <> collection)))
                      (write_record P c checksums_collection record_text v)
                      (write_record-after checksums_collection record_text v)))
        ]

    pub upload_all-Completes :
        (m : GoMap ConfigMap) (w : World P)
        → Completes (upload_requests m) w (upload_all P c checksums_collection m w)
    unfolding upload_all after_all
    upload_all-Completes [] w = ([], [], refl, refl, λ h. refl)
    upload_all-Completes ((collection, cm) ∷ m) w =
        Completes-then w (upload_one_requests collection cm) (upload_requests m)
          (upload_one P c checksums_collection collection cm w)
          (upload_all P c checksums_collection m) (upload_one-Completes collection cm w)
          (upload_all-Completes m)

    remove_all-Completes :
        (m : GoMap String) (w : World P) → Completes (remove_requests m) w (remove_all P c m w)
    unfolding remove_all after_all
    remove_all-Completes [] w = ([], [], refl, refl, λ h. refl)
    remove_all-Completes ((name, _) ∷ m) w =
        Completes-then w (delete_config_set_request c name ∷ []) (remove_requests m) _
          (remove_all P c m)
          (Completes-one w (delete_config_set_request c name)
            ("could not clean up config set [" <> (name <> "]")) (delete_config_set P c name w)
            (delete_config_set-after name w))
          (remove_all-Completes m)

    -- After its plan is made, ManageConfigSets uploads each queued config set and then its checksum,
    -- and after all of them removes the surplus ones. It makes the requests in this order and ends with
    -- the first error; where it returns none, it has made all of them.
    pub process_config_sets-Completes :
        (plan : ConfigPlan) (w : World P)
        → Completes
            (upload_requests (P.order.visit config_uploads ConfigMap plan.uploads)
              ++ remove_requests (P.order.visit config_removes String plan.removes))
            w
            (process_config_sets P c checksums_collection plan w)
    unfolding process_config_sets
    process_config_sets-Completes plan w =
        let uploads = P.order.visit config_uploads ConfigMap plan.uploads in
        let removes = P.order.visit config_removes String plan.removes in
        Completes-then w (upload_requests uploads) (remove_requests removes)
          (upload_all P c checksums_collection uploads w) (remove_all P c removes)
          (upload_all-Completes uploads w) (remove_all-Completes removes)
