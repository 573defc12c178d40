-- ===== src/Controller/ConfigSets/Converged.antt =====
-- That one run of `ManageConfigSets` brings the config sets in line with the config maps, on a Solr
-- that does what its interfaces promise.
use solr_collections_operato.Base.{
  ◌≡◌, refl, ◌∙◌, String, Bool, true, not, ◌&&◌, ◌||◌, none, some, List, [], ◌∷◌, arith, inl, inr,
  Bool-cases,
}
use solr_collections_operato.Base.GoMap.{
  GoMap, IsFair, lookup, has_key, NodupKeys, insert-NodupKeys,
}
use solr_collections_operato.Base.Outcome.{ok}
use solr_collections_operato.Solr.{SolrClient}
use solr_collections_operato.Platform.{
  ConfigMap, Platform, World, config_maps, config_uploads, config_removes,
}
use solr_collections_operato.Solr.ConfigStore.{ConfigStore}
use solr_collections_operato.Controller.Names.{contains}
use solr_collections_operato.Controller.Collections.Deleted.{either-NodupKeys}
use solr_collections_operato.Controller.ConfigSets.{
  ConfigPlan, config_set_data, plan_config_sets, find_uploads, find_removes, process_config_sets,
}
use solr_collections_operato.Controller.ConfigSets.Queued.{
  is_current, is_surplus, AreCurrent, lookup-uploads, lookup-removes, process_config_sets_idle,
}
use solr_collections_operato.Controller.ConfigSets.Stored.{
  sets_of, IsUploadable, upload_all-stored, remove_all-stored,
}

find_uploads-NodupKeys :
    (P : Platform) (names : List String) (checksums : GoMap String) (maps uploads : GoMap ConfigMap)
    → NodupKeys uploads
    → NodupKeys (find_uploads P names checksums maps uploads)
unfolding find_uploads
find_uploads-NodupKeys P names checksums [] uploads u = u
find_uploads-NodupKeys P names checksums ((name, cm) ∷ maps) uploads u =
    find_uploads-NodupKeys P names checksums maps _
      (either-NodupKeys _ _ _ (insert-NodupKeys name cm uploads u) u)

pub find_removes-NodupKeys :
    (maps : GoMap ConfigMap) (names : List String) (removes : GoMap String)
    → NodupKeys removes
    → NodupKeys (find_removes maps names removes)
unfolding find_removes
find_removes-NodupKeys maps [] removes u = u
find_removes-NodupKeys maps (name ∷ names) removes u =
    find_removes-NodupKeys maps names _
      (either-NodupKeys _ _ _ (insert-NodupKeys name name removes u) u)

module _ (P : Platform) (c : SolrClient) (checksums_collection : String)
    (store : ConfigStore P c checksums_collection) where
  -- What the run needs of Solr and the config maps.
  pub record IsReady (is_cleanup : Bool) (maps : GoMap ConfigMap) (names : List String)
      (w : World P) : Type 0 where
    pub uploadable :
        (n : String) (cm : ConfigMap)
        → lookup n maps ≡ some cm
        → IsUploadable P c checksums_collection store n cm
    pub removable :
        is_cleanup ≡ true
        → (n : String) → contains names n ≡ true
        → is_surplus maps n ≡ true
        → (store.is_name n ≡ true) × ((sets_of P c checksums_collection store w).is_unused n ≡ true)

  -- The names and the checksums are those that Solr has.
  pub record IsReading (names : List String) (checksums : GoMap String) (w : World P) : Type 0 where
    pub sets :
        (n : String) → contains names n ≡ (sets_of P c checksums_collection store w).has_set n
    pub sums :
        (n : String) → lookup n checksums ≡ (sets_of P c checksums_collection store w).checksum n

module _ (P : Platform) (fair : IsFair P.order) (c : SolrClient) (checksums_collection : String)
    (store : ConfigStore P c checksums_collection) (is_cleanup : Bool) (maps : GoMap ConfigMap)
    (u : NodupKeys maps) where
  module _ (names : List String) (checksums : GoMap String) (w : World P)
      (reading : IsReading P c checksums_collection store names checksums w)
      (ready : IsReady P c checksums_collection store is_cleanup maps names w) where
    abbrev plan : ConfigPlan
    plan = plan_config_sets P is_cleanup names maps checksums

    abbrev uploads : GoMap ConfigMap
    uploads = P.order.visit config_uploads ConfigMap plan.uploads

    abbrev removes : GoMap String
    removes = P.order.visit config_removes String plan.removes

    uploads-NodupKeys : NodupKeys plan.uploads
    unfolding plan_config_sets
    uploads-NodupKeys =
        find_uploads-NodupKeys P names checksums (P.order.visit config_maps ConfigMap maps) [] tt

    removes-NodupKeys : NodupKeys plan.removes
    unfolding plan_config_sets
    removes-NodupKeys = either-NodupKeys is_cleanup _ _ (find_removes-NodupKeys maps names [] tt) tt

    lookup-visited_uploads : (n : String) → lookup n uploads ≡ lookup n plan.uploads
    lookup-visited_uploads =
        fair.lookup-visit config_uploads ConfigMap plan.uploads uploads-NodupKeys

    lookup-visited_removes : (n : String) → lookup n removes ≡ lookup n plan.removes
    lookup-visited_removes = fair.lookup-visit config_removes String plan.removes removes-NodupKeys

    -- After the run.
    process_config_sets-stored :
        (w' : World P) × (process_config_sets P c checksums_collection plan w ≡ (ok tt, w'))
        × ((n : String)
            → (sets_of P c checksums_collection store w').has_set n
              ≡ (not (has_key n plan.removes) && (has_key n plan.uploads || contains names n)))
        × ((n : String)
            → (sets_of P c checksums_collection store w').checksum n
              ≡ elim (lookup n plan.uploads) [
                | none ↦ lookup n checksums
                | some cm ↦ some (P.md5_hex (config_set_data cm))
              ])
    unfolding process_config_sets has_key
    process_config_sets-stored =
        let (v, e, has, sums, unused) =
          upload_all-stored P c checksums_collection store uploads w
            (fair.visit-NodupKeys config_uploads ConfigMap plan.uploads uploads-NodupKeys)
            (λ n cm there. ready.uploadable n cm (
              ground (
                arith,
                lookup-visited_uploads n,
                lookup-uploads P fair is_cleanup names maps checksums u n,
                there,
              ))) in
        let (w', f, has', sums') =
          remove_all-stored P c checksums_collection store removes v
            (fair.visit-NodupKeys config_removes String plan.removes removes-NodupKeys)
            (λ n there.
              let r = lookup-removes P fair is_cleanup names maps checksums n in
              let s = lookup-visited_removes n in
              let (named, free) =
                ready.removable (ground (arith, r, s, there)) n (ground (arith, r, s, there))
                  (ground (arith, r, s, there)) in
              (named, unused n ∙ free)) in
        (
          w',
          rw e f,
          λ n. ground (
            arith,
            has n,
            has' n,
            lookup-visited_uploads n,
            lookup-visited_removes n,
            reading.sets n,
          ),
          λ n. ground (arith, sums n, sums' n, lookup-visited_uploads n, reading.sums n),
        )

    module _ (names' : List String) (checksums' : GoMap String)
        (sets' : (n : String)
          → contains names' n
            ≡ (not (has_key n plan.removes) && (has_key n plan.uploads || contains names n)))
        (sums' : (n : String)
          → lookup n checksums' ≡ elim (lookup n plan.uploads) [
            | none ↦ lookup n checksums
            | some cm ↦ some (P.md5_hex (config_set_data cm))
          ]) where
      -- A name with a config map is not removed, and has its checksum if it is not uploaded.
      is_current_then :
          (n : String) (cm : ConfigMap)
          → lookup n maps ≡ some cm
          → is_current P names' checksums' n cm ≡ true
      unfolding has_key
      is_current_then n cm e =
          let r = lookup-removes P fair is_cleanup names maps checksums n in
          let q = lookup-uploads P fair is_cleanup names maps checksums u n in
          ground (arith, r, q, e, sets' n, sums' n)

      AreCurrent_then : AreCurrent P fair is_cleanup names' maps checksums'
      unfolding has_key
      AreCurrent_then = record {
        uploaded = is_current_then;
        removed = λ cleanup n there. elim (Bool-cases (is_surplus maps n)) [
          | inl surplus ↦ ground (
            arith,
            lookup-removes P fair is_cleanup names maps checksums n,
            lookup-uploads P fair is_cleanup names maps checksums u n,
            sets' n,
          )
          | inr kept ↦ kept
        ];
      }

    -- On a platform whose loops are fair, with no name on two config maps, and a Solr that does what the
    -- config sets API and the update handler promise, which takes the config maps' names, archives and
    -- checksums: where the plan is made from the config sets and the checksums that Solr has, and no
    -- collection uses a config set that is to be removed, ManageConfigSets carries out its plan without
    -- an error. The config sets that Solr then has are as the config maps ask, and the next run, whose
    -- plan is made from them, sends nothing, changes nothing and returns no error.
    pub process_config_sets-converges :
        let r = process_config_sets P c checksums_collection plan w in
        (names' : List String) (checksums' : GoMap String)
        → IsReading P c checksums_collection store names' checksums' r.1
        → (r.0 ≡ ok tt)
          × AreCurrent P fair is_cleanup names' maps checksums'
          × (process_config_sets P c checksums_collection
                (plan_config_sets P is_cleanup names' maps checksums')
                r.1
              ≡ (ok tt, r.1))
    process_config_sets-converges names' checksums' again =
        let (w', e, has, sums) = process_config_sets-stored in
        let reading' : IsReading P c checksums_collection store names' checksums' w' =
          rw e at again in
        let current =
          AreCurrent_then names' checksums' (λ n. reading'.sets n ∙ has n)
            (λ n. reading'.sums n ∙ sums n) in
        rw e (
          refl,
          current,
          process_config_sets_idle P fair is_cleanup names' maps checksums' u current c
              checksums_collection w',
        )
