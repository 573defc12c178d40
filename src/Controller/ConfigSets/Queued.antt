-- ===== src/Controller/ConfigSets/Queued.antt =====
-- Which config sets `ManageConfigSets` queues, name by name, whatever the order of its loops.
use mathlib.Core.Path.{subst}
use solr_collections_operato.Base.{
  ◌≡◌, refl, ◌∙◌, String, Bool, true, false, not, ◌&&◌, Option, none, some, List, [], ◌∷◌, arith,
  ◌==◌, if◌then◌else◌, inl, inr, Option-cases, Bool-cases,
}
use solr_collections_operato.Base.Text.{has_prefix}
use solr_collections_operato.Base.GoMap.{
  GoMap, lookup, insert, has_key, NodupKeys, IsFair, lookup-nil, lookup-insert, insert-NodupKeys,
}
use solr_collections_operato.Base.Outcome.{Outcome, ok}
use solr_collections_operato.Platform.{
  ConfigMap, Platform, World, config_maps, config_uploads, config_removes,
}
use solr_collections_operato.Solr.{SolrClient}
use solr_collections_operato.Controller.Names.{contains}
use solr_collections_operato.Controller.Collections.Aligned.{eq-nil, visit-nil}
use solr_collections_operato.Controller.ConfigSets.{
  ConfigPlan, config_set_data, map_config_maps, is_outdated, find_uploads, find_removes,
  plan_config_sets, upload_all, remove_all, process_config_sets,
}

-- The text is what was found.
abbrev pub is_found : Option String → String → Bool
is_found none text = false
is_found (some found) text = text == found

-- Solr has the config set, and the checksum collection has its checksum.
abbrev pub is_current : Platform → List String → GoMap String → String → ConfigMap → Bool
is_current P names checksums name cm =
    contains names name && is_found (lookup name checksums) (P.md5_hex (config_set_data cm))

-- The config set is in no config map, and is not one of the operator's own.
abbrev pub is_surplus : GoMap ConfigMap → String → Bool
is_surplus maps name = not (has_key name maps) && not (has_prefix name "_")

abbrev AreDistinct : Outcome (GoMap ConfigMap) → Type 0
AreDistinct (ok maps) = NodupKeys maps
AreDistinct _ = Unit

map_config_maps-AreDistinct :
    (items : List ConfigMap) (m : GoMap ConfigMap)
    → NodupKeys m
    → AreDistinct (map_config_maps items m)
unfolding map_config_maps
map_config_maps-AreDistinct [] m u = u
map_config_maps-AreDistinct (cm ∷ items) m u = elim (Option-cases (lookup "collection" cm.labels)) [
  | inl missing ↦ rw (missing, map_config_maps) tt
  | inr (name, found) ↦
      rw (found, map_config_maps)
        (map_config_maps-AreDistinct items (insert name cm m) (insert-NodupKeys name cm m u))
]

-- No name has two config maps.
pub map_config_maps-NodupKeys :
    (items : List ConfigMap) (maps : GoMap ConfigMap)
    → map_config_maps items [] ≡ ok maps
    → NodupKeys maps
map_config_maps-NodupKeys items maps e =
    subst AreDistinct e (map_config_maps-AreDistinct items [] tt)

module _ (P : Platform) where
  is_outdated-is_current :
      (names : List String) (checksums : GoMap String) (name : String) (cm : ConfigMap)
      → is_outdated P names checksums name cm ≡ not (is_current P names checksums name cm)
  unfolding is_outdated
  is_outdated-is_current names checksums name cm = elim (Option-cases (lookup name checksums)) [
    | inl e ↦ rw (e, is_outdated) (ground arith)
    | inr (found, e) ↦ rw (e, is_outdated) (ground arith)
  ]

  lookup-find_uploads :
      (names : List String) (checksums : GoMap String) (maps uploads : GoMap ConfigMap) (n : String)
      → NodupKeys maps
      → lookup n (find_uploads P names checksums maps uploads) ≡ elim (lookup n maps) [
        | none ↦ lookup n uploads
        | some cm ↦ if is_outdated P names checksums n cm then some cm else lookup n uploads
      ]
  unfolding find_uploads
  lookup-find_uploads names checksums [] uploads n u = refl
  lookup-find_uploads names checksums ((name, cm) ∷ maps) uploads n (fresh, u) = ground (
    arith,
    lookup-find_uploads names checksums maps uploads n u,
    lookup-find_uploads names checksums maps (insert name cm uploads) n u,
    lookup-insert n name cm uploads,
  )

lookup-find_removes :
    (maps : GoMap ConfigMap) (names : List String) (removes : GoMap String) (n : String)
    → lookup n (find_removes maps names removes)
      ≡ (if contains names n && is_surplus maps n then some n else lookup n removes)
unfolding find_removes contains
lookup-find_removes maps [] removes n = refl
lookup-find_removes maps (name ∷ names) removes n = ground (
  arith,
  lookup-find_removes maps names removes n,
  lookup-find_removes maps names (insert name name removes) n,
  lookup-insert n name name removes,
)

module _ (P : Platform) (fair : IsFair P.order) (is_cleanup : Bool) (names : List String)
    (maps : GoMap ConfigMap) (checksums : GoMap String) where
  abbrev plan : ConfigPlan
  plan = plan_config_sets P is_cleanup names maps checksums

  -- On a platform whose loops are fair, with no name on two config maps: a config set is queued for
  -- upload exactly when there is a config map for it, and Solr lacks the config set or the checksum
  -- collection lacks the checksum of what the config map has.
  pub lookup-uploads :
      NodupKeys maps
      → (n : String)
      → lookup n plan.uploads ≡ elim (lookup n maps) [
        | none ↦ none
        | some cm ↦ if is_current P names checksums n cm then none else some cm
      ]
  unfolding plan_config_sets
  lookup-uploads u n =
      lookup-find_uploads P names checksums (P.order.visit config_maps ConfigMap maps) [] n
        (fair.visit-NodupKeys config_maps ConfigMap maps u)
      ∙ rw (fair.lookup-visit config_maps ConfigMap maps u n) (elim (Option-cases (lookup n maps)) [
        | inl e ↦ ground (arith, e, lookup-nil {V = ConfigMap} n)
        | inr (cm, e) ↦
            ground (
              arith,
              e,
              lookup-nil {V = ConfigMap} n,
              is_outdated-is_current P names checksums n cm,
            )
      ])

  -- On a platform whose loops are fair: a config set is queued for removal exactly when the clean-up is
  -- enabled, Solr has the config set,
  -- it is in no config map, and it is not one of the operator's own.
  pub lookup-removes :
      (n : String)
      → lookup n plan.removes
        ≡ (if is_cleanup && (contains names n && is_surplus maps n) then some n else none)
  unfolding plan_config_sets
  lookup-removes n = ground (arith, lookup-find_removes maps names [] n, lookup-nil {V = String} n)

  -- The config sets are as the config maps ask.
  pub record AreCurrent : Type 0 where
    pub uploaded :
        (n : String) (cm : ConfigMap)
        → lookup n maps ≡ some cm
        → is_current P names checksums n cm ≡ true
    pub removed :
        is_cleanup ≡ true → (n : String) → contains names n ≡ true → is_surplus maps n ≡ false

  module _ (u : NodupKeys maps) (current : AreCurrent) where
    uploads-nil : plan.uploads ≡ []
    uploads-nil = eq-nil plan.uploads λ n. elim (Option-cases (lookup n maps)) [
      | inl e ↦ ground (arith, lookup-uploads u n)
      | inr (cm, e) ↦ ground (arith, lookup-uploads u n, current.uploaded n cm e)
    ]

    removes-nil : plan.removes ≡ []
    removes-nil = eq-nil plan.removes λ n. elim (Bool-cases is_cleanup) [
      | inl h ↦ elim (Bool-cases (contains names n)) [
        | inl k ↦ ground (arith, lookup-removes n, current.removed h n k)
        | inr k ↦ ground (arith, lookup-removes n)
      ]
      | inr h ↦ ground (arith, lookup-removes n)
    ]

  -- On a platform whose loops are fair, with no name on two config maps: where Solr has every config
  -- set with its checksum, and under clean-up no surplus one, nothing is sent, and no error returned.
  pub process_config_sets_idle :
      NodupKeys maps
      → AreCurrent
      → (c : SolrClient) (checksums_collection : String) (w : World P)
      → process_config_sets P c checksums_collection plan w ≡ (ok tt, w)
  unfolding process_config_sets upload_all remove_all
  process_config_sets_idle u current c checksums_collection w =
      rw
        (
          uploads-nil u current,
          removes-nil u current,
          visit-nil P fair config_uploads ConfigMap,
          visit-nil P fair config_removes String,
        )
        refl
