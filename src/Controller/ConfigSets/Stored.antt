-- ===== src/Controller/ConfigSets/Stored.antt =====
-- What Solr has after the loops of `ManageConfigSets`, where it does what its interfaces promise.
use solr_collections_operato.Base.{
  ◌≡◌, refl, ◌∙◌, ap, String, ◌<>◌, true, not, ◌&&◌, ◌||◌, Option, none, some, [], ◌∷◌, arith, ◌==◌,
  if◌then◌else◌,
}
use solr_collections_operato.Base.GoMap.{GoMap, lookup, has_key, NodupKeys, lookup-cons}
use solr_collections_operato.Base.Outcome.{ok}
use solr_collections_operato.Solr.{SolrClient}
use solr_collections_operato.Platform.{ConfigMap, Platform, World}
use solr_collections_operato.Solr.Client.Commands.{
  upload_config_set, write_record, delete_config_set, upload_config_set_request,
  write_record_request, delete_config_set_request,
}
use solr_collections_operato.Solr.Client.Delivery.{after}
use solr_collections_operato.Solr.ConfigStore.{ConfigStore, Sets, command-fine, cluster-fine}
use solr_collections_operato.Controller.ConfigSets.{
  config_set_data, checksum_record, upload_one, upload_all, remove_all,
}

module _ (P : Platform) (c : SolrClient) (checksums_collection : String)
    (store : ConfigStore P c checksums_collection) where
  abbrev pub sets_of : World P → Sets
  sets_of w = store.sets w.cluster

  -- A config map whose config set Solr takes.
  pub record IsUploadable (name : String) (cm : ConfigMap) : Type 0 where
    pub content : String
    pub is_decoded : P.base64_decode (config_set_data cm) ≡ some content
    pub named : store.is_name name ≡ true
    pub archived : store.is_archive content ≡ true
    pub summed : store.is_checksum (P.md5_hex (config_set_data cm)) ≡ true

  upload_one-stored :
      (name : String) (cm : ConfigMap) (w : World P)
      → IsUploadable name cm
      → (w' : World P) × (upload_one P c checksums_collection name cm w ≡ (ok tt, w'))
        × ((n : String) → (sets_of w').has_set n ≡ (n == name || (sets_of w).has_set n))
        × ((n : String)
            → (sets_of w').checksum n ≡ (
                if n == name
                then some (P.md5_hex (config_set_data cm))
                else (sets_of w).checksum n))
        × ((n : String) → (sets_of w').is_unused n ≡ (sets_of w).is_unused n)
  unfolding upload_one upload_config_set write_record
  upload_one-stored name cm w ready =
      let sum = P.md5_hex (config_set_data cm) in
      let upload = upload_config_set_request c name ready.content in
      let write = write_record_request c checksums_collection (checksum_record name sum) in
      let (fine, has, sums, unused) =
        store.upload name ready.content w.cluster ready.named ready.archived in
      let v = after P upload w in
      let (fine', has', sums', unused') = store.write name sum v.cluster ready.named ready.summed in
      let first = cluster-fine P w upload fine in
      let second = cluster-fine P v write fine' in
      (
        after P write v,
        rw
            (
              upload_one,
              ready.is_decoded,
              command-fine P w upload ("create config set " <> (name <> " failed with")) fine,
              command-fine P v write
                  ("write to collection " <> (checksums_collection <> " failed with")) fine',
            )
            refl,
        λ n. rw second (has' n ∙ rw first (has n)),
        λ n.
            let same : (sets_of v).checksum n ≡ (sets_of w).checksum n = rw first (sums n) in
            rw second
              (sums' n ∙ ap (λ (o : Option String). if n == name then some sum else o) same),
        λ n. rw second (unused' n ∙ rw first (unused n)),
      )

  -- The loop of the uploads has no error, and Solr has their config sets and checksums after it.
  pub upload_all-stored :
      (m : GoMap ConfigMap) (w : World P)
      → NodupKeys m
      → ((n : String) (cm : ConfigMap) → lookup n m ≡ some cm → IsUploadable n cm)
      → (w' : World P) × (upload_all P c checksums_collection m w ≡ (ok tt, w'))
        × ((n : String) → (sets_of w').has_set n ≡ (has_key n m || (sets_of w).has_set n))
        × ((n : String)
            → (sets_of w').checksum n ≡ elim (lookup n m) [
              | none ↦ (sets_of w).checksum n
              | some cm ↦ some (P.md5_hex (config_set_data cm))
            ])
        × ((n : String) → (sets_of w').is_unused n ≡ (sets_of w).is_unused n)
  unfolding upload_all has_key lookup
  upload_all-stored [] w u ready = (w, refl, λ n. refl, λ n. refl, λ n. refl)
  upload_all-stored ((k, cm) ∷ m) w (fresh, u) ready =
      let (v, e, has, sums, unused) =
        upload_one-stored k cm w (ready k cm (ground (arith, lookup-cons k k cm m))) in
      let (w', f, has', sums', unused') =
        upload_all-stored m v u (λ n x there. ready n x (ground (arith, lookup-cons n k cm m))) in
      (
        w',
        rw e f,
        λ n. ground (arith, has n, has' n),
        λ n. ground (arith, sums n, sums' n),
        λ n. unused' n ∙ unused n,
      )

  -- The same for the loop of the removals.
  pub remove_all-stored :
      (m : GoMap String) (w : World P)
      → NodupKeys m
      → ((n : String)
          → has_key n m ≡ true
          → (store.is_name n ≡ true) × ((sets_of w).is_unused n ≡ true))
      → (w' : World P) × (remove_all P c m w ≡ (ok tt, w'))
        × ((n : String) → (sets_of w').has_set n ≡ (not (has_key n m) && (sets_of w).has_set n))
        × ((n : String) → (sets_of w').checksum n ≡ (sets_of w).checksum n)
  unfolding remove_all has_key lookup delete_config_set
  remove_all-stored [] w u ready = (w, refl, λ n. refl, λ n. refl)
  remove_all-stored ((k, x) ∷ m) w (fresh, u) ready =
      let (named, free) = ready k (ground (arith, lookup-cons k k x m)) in
      let request = delete_config_set_request c k in
      let (fine, has, sums, unused) = store.delete k w.cluster named free in
      let v = after P request w in
      let first = cluster-fine P w request fine in
      let (w', f, has', sums') = remove_all-stored m v u (λ n there.
        let (named', free') = ready n (ground (arith, lookup-cons n k x m)) in
        (named', rw first (unused n ∙ free'))) in
      (
        w',
        rw (command-fine P w request ("delete config set " <> (k <> " failed with")) fine) f,
        λ n.
            let one : (sets_of v).has_set n ≡ (not (n == k) && (sets_of w).has_set n) =
              rw first (has n) in
            ground (arith, one, has' n),
        λ n. sums' n ∙ rw first (sums n),
      )
