-- ===== src/Controller/Collections/Effects.antt =====
-- What a cluster has after the requests of each of the four loops of `ManageCollections`.
use mathlib.Core.Option.{map as map_option}
use solr_collections_operato.Base.{
  ◌≡◌, ◌≢◌, ◌∙◌, refl, sym, ◌⊎◌, inl, inr, String, true, not, ◌&&◌, none, some, [], ◌∷◌, arith,
  if◌then◌else◌, Bool-cases,
}
use solr_collections_operato.Base.Int.{ℤ, pos, ltb_ℤ}
use solr_collections_operato.Base.GoMap.{GoMap, has_key, NodupKeys, lookup-cons, lookup-nil}
use solr_collections_operato.Api.{SolrCollection, Settings}
use solr_collections_operato.Solr.{SolrClient, Collection}
use solr_collections_operato.Platform.{Platform, World}
use solr_collections_operato.Solr.Client.Commands.{
  delete_alias_request, delete_collection_request, set_replication_factor_request,
}
use solr_collections_operato.Solr.Client.Delivery.{after, after_all}
use solr_collections_operato.Solr.Cluster.{SolrCluster}
use solr_collections_operato.Solr.Cluster.Requests.{
  collection_of, alias_of, has_config_of, config-assign, after-assign, alias-assign,
  after-delete_alias, alias-delete_alias, after-delete, alias-delete, after-modify,
}
use solr_collections_operato.Controller.Collections.Run.{alias_requests, key_requests}

module _ (P : Platform) (c : SolrClient) (factor : ℤ) (solr : SolrCluster P c factor) where
  -- The loop over the replication factors.
  pub after_modifies :
      {V : Type 0}
      → ltb_ℤ (pos 0) factor ≡ true
      → (m : GoMap V) → NodupKeys m
      → ((n : String) → has_key n m ≡ true → solr.is_name n ≡ true)
      → (w : World P) (n : String)
      → collection_of P c factor solr
          (after_all P (key_requests (λ name. set_replication_factor_request c name factor) m) w)
          n
        ≡ (if has_key n m
            then map_option
                (λ (x : Collection). record x { replication_factor = factor })
                (collection_of P c factor solr w n)
            else collection_of P c factor solr w n)
  unfolding after_all has_key
  after_modifies positive [] u named w n = ground (arith, lookup-nil {V = _} n)
  after_modifies positive ((k, v) ∷ m) (fresh, u) named w n = ground (
    arith,
    after_modifies positive m u (λ i there. named i (ground (arith, lookup-cons i k v m)))
        (after P (set_replication_factor_request c k factor) w) n,
    after-modify P c factor solr w k (named k (ground (arith, lookup-cons k k v m))) positive n,
    lookup-cons n k v m,
  )

  -- The loop over the collections to delete.
  pub after_deletes :
      {V : Type 0} (m : GoMap V)
      → NodupKeys m
      → ((n : String) → has_key n m ≡ true → solr.is_name n ≡ true)
      → (w : World P)
      → ((n a : String) → has_key n m ≡ true → alias_of P c factor solr w a ≢ some n)
      → (n : String)
      → collection_of P c factor solr
          (after_all P (key_requests (delete_collection_request c) m) w)
          n
        ≡ (if has_key n m then none else collection_of P c factor solr w n)
  unfolding after_all has_key
  after_deletes [] u named w h n = ground (arith, lookup-nil {V = _} n)
  after_deletes ((k, v) ∷ m) (fresh, u) named w h n = ground (
    arith,
    after_deletes m u (λ i there. named i (ground (arith, lookup-cons i k v m)))
        (after P (delete_collection_request c k) w)
        (λ i a there e. h i a (ground (arith, lookup-cons i k v m)) (
          sym (alias-delete P c factor solr w k (named k (ground (arith, lookup-cons k k v m))) a)
          ∙ e))
        n,
    after-delete P c factor solr w k (named k (ground (arith, lookup-cons k k v m)))
        (λ a. h k a (ground (arith, lookup-cons k k v m))) n,
    lookup-cons n k v m,
  )

  -- The loop over the aliases to delete.
  pub after_delete_aliases :
      (m : GoMap String)
      → ((n : String) → has_key n m ≡ true → solr.is_name n ≡ true)
      → (w : World P) (n : String)
      → collection_of P c factor solr (after_all P (key_requests (delete_alias_request c) m) w) n
        ≡ collection_of P c factor solr w n
  unfolding after_all has_key
  after_delete_aliases [] named w n = refl
  after_delete_aliases ((k, v) ∷ m) named w n =
      after_delete_aliases m (λ i there. named i (ground (arith, lookup-cons i k v m)))
        (after P (delete_alias_request c k) w) n
      ∙ after-delete_alias P c factor solr w k (named k (ground (arith, lookup-cons k k v m))) n

  pub alias-delete_aliases :
      (m : GoMap String)
      → ((n : String) → has_key n m ≡ true → solr.is_name n ≡ true)
      → (w : World P) (n t : String)
      → alias_of P c factor solr (after_all P (key_requests (delete_alias_request c) m) w) n
        ≡ some t
      → alias_of P c factor solr w n ≡ some t
  unfolding after_all has_key
  alias-delete_aliases [] named w n t e = e
  alias-delete_aliases ((k, v) ∷ m) named w n t e =
      alias-delete_alias P c factor solr w k (named k (ground (arith, lookup-cons k k v m))) n t (
        alias-delete_aliases m (λ i there. named i (ground (arith, lookup-cons i k v m)))
          (after P (delete_alias_request c k) w) n t e)

  module _ (cfg : Settings) (aliases : GoMap String) where
    -- Seeing to the alias of a new collection.
    pub after_alias :
        (name : String) (spec : SolrCollection)
        → solr.is_name name ≡ true
        → solr.is_name spec.alias ≡ true
        → (w : World P) (n : String)
        → collection_of P c factor solr (after_all P (alias_requests c cfg aliases name spec) w) n
          ≡ collection_of P c factor solr w n
    unfolding after_all
    after_alias name spec named to_name w n =
        elim (Bool-cases (cfg.is_blue_green && not (has_key spec.alias aliases))) [
          | inl e ↦ rw e (after-assign P c factor solr w spec.alias name to_name named n)
          | inr e ↦ rw e refl
        ]

    pub config_alias :
        (name : String) (spec : SolrCollection)
        → solr.is_name name ≡ true
        → solr.is_name spec.alias ≡ true
        → (w : World P) (n : String) → has_config_of P c factor solr w n ≡ true
        → has_config_of P c factor solr (after_all P (alias_requests c cfg aliases name spec) w) n
          ≡ true
    unfolding after_all
    config_alias name spec named to_name w n there =
        elim (Bool-cases (cfg.is_blue_green && not (has_key spec.alias aliases))) [
          | inl e ↦ rw e (config-assign P c factor solr w spec.alias name to_name named n there)
          | inr e ↦ rw e there
        ]

    pub alias_alias :
        (name : String) (spec : SolrCollection)
        → solr.is_name name ≡ true
        → solr.is_name spec.alias ≡ true
        → (w : World P) (n t : String)
        → alias_of P c factor solr (after_all P (alias_requests c cfg aliases name spec) w) n
          ≡ some t
        → (alias_of P c factor solr w n ≡ some t)
          ⊎ ((cfg.is_blue_green ≡ true) × (n ≡ spec.alias) × (t ≡ name))
    unfolding after_all
    alias_alias name spec named to_name w n t h =
        elim (Bool-cases (cfg.is_blue_green && not (has_key spec.alias aliases))) [
          | inl e ↦
              elim (alias-assign P c factor solr w spec.alias name to_name named n t (rw e at h)) [
                | inl old ↦ inl old
                | inr (same, target) ↦ inr (ground arith, same, target)
              ]
          | inr e ↦ inl (rw e at h)
        ]
