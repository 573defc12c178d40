-- ===== src/Controller/Collections/Created.antt =====
-- What a cluster has after the loop of `ManageCollections` that creates collections.
use solr_collections_operato.Base.{
  ◌≡◌, ◌≢◌, ◌∙◌, refl, sym, ◌⊎◌, inl, inr, String, true, false, none, some, [], ◌∷◌, arith, ◌==◌,
  if◌then◌else◌, Option-cases,
}
use solr_collections_operato.Base.Int.{pos, ltb_ℤ}
use solr_collections_operato.Base.GoMap.{GoMap, lookup, has_key, NodupKeys, lookup-cons}
use solr_collections_operato.Base.GoMap.Counted.{lookup_self}
use solr_collections_operato.Api.{SolrCollection, Settings}
use solr_collections_operato.Solr.{SolrClient}
use solr_collections_operato.Platform.{Platform, World}
use solr_collections_operato.Solr.Client.Commands.{create_collection_request}
use solr_collections_operato.Solr.Client.Delivery.{after, after_all, after_all-append}
use solr_collections_operato.Solr.Cluster.{SolrCluster}
use solr_collections_operato.Solr.Cluster.Requests.{
  collection_of, alias_of, has_config_of, config-create, after-create, alias-create,
}
use solr_collections_operato.Controller.Collections.Run.{alias_requests, create_requests}
use solr_collections_operato.Controller.Collections.Effects.{after_alias, alias_alias, config_alias}

module _ (P : Platform) (c : SolrClient) (cfg : Settings) (solr : SolrCluster P c cfg.factor)
    (aliases : GoMap String) (positive : ltb_ℤ (pos 0) cfg.factor ≡ true) where
  -- The config sets are stored, the names are new to the cluster, and in a blue/green set no alias of a collection to create is one
  -- of them.
  pub record CanCreate (m : GoMap SolrCollection) (w : World P) : Type 0 where
    pub named :
        (n : String) (spec : SolrCollection)
        → lookup n m ≡ some spec
        → (solr.is_name n ≡ true)
          × (solr.is_name spec.configset_name ≡ true)
          × (solr.is_name spec.alias ≡ true)
    pub configured :
        (n : String) (spec : SolrCollection)
        → lookup n m ≡ some spec
        → has_config_of P c cfg.factor solr w spec.configset_name ≡ true
    pub absent :
        (n : String) (spec : SolrCollection)
        → lookup n m ≡ some spec
        → collection_of P c cfg.factor solr w n ≡ none
    pub unaliased :
        (n : String) (spec : SolrCollection)
        → lookup n m ≡ some spec
        → alias_of P c cfg.factor solr w n ≡ none
    pub distinct :
        cfg.is_blue_green ≡ true
        → (n k : String) (spec other : SolrCollection) → lookup n m ≡ some spec
        → lookup k m ≡ some other
        → n ≢ other.alias

  -- The world after one round of the loop.
  abbrev created : String → SolrCollection → World P → World P
  created name spec w =
      after_all P (alias_requests c cfg aliases name spec)
        (after P (create_collection_request c name spec.configset_name cfg.factor) w)

  module _ (name : String) (spec : SolrCollection) (m : GoMap SolrCollection)
      (fresh : lookup name m ≡ none) (w : World P) (can : CanCreate ((name, spec) ∷ m) w) where
    lookup_rest :
        (n : String) (other : SolrCollection)
        → lookup n m ≡ some other
        → (lookup n ((name, spec) ∷ m) ≡ some other) × ((n == name) ≡ false)
    lookup_rest n other e = (ground (arith, lookup-cons n name spec m), ground arith)

    collection_of-created :
        (n : String)
        → collection_of P c cfg.factor solr (created name spec w) n ≡ (
            if n == name
            then some (solr.fresh name spec.configset_name)
            else collection_of P c cfg.factor solr w n)
    collection_of-created n =
        after_alias P c cfg.factor solr cfg aliases name spec
          (can.named name spec (lookup_self name spec m)).0
          (can.named name spec (lookup_self name spec m)).2 _ n
        ∙ after-create P c cfg.factor solr w name spec.configset_name
            (can.named name spec (lookup_self name spec m)).0
            (can.named name spec (lookup_self name spec m)).1
            (can.configured name spec (lookup_self name spec m))
            (can.absent name spec (lookup_self name spec m))
            (can.unaliased name spec (lookup_self name spec m)) positive n

    config_of-created :
        (n : String)
        → has_config_of P c cfg.factor solr w n ≡ true
        → has_config_of P c cfg.factor solr (created name spec w) n ≡ true
    config_of-created n there =
        config_alias P c cfg.factor solr cfg aliases name spec
          (can.named name spec (lookup_self name spec m)).0
          (can.named name spec (lookup_self name spec m)).2 _ n
          (config-create P c cfg.factor solr w name spec.configset_name
            (can.named name spec (lookup_self name spec m)).0
            (can.named name spec (lookup_self name spec m)).1 n there)

    alias_of-created :
        (n t : String)
        → alias_of P c cfg.factor solr (created name spec w) n ≡ some t
        → (alias_of P c cfg.factor solr w n ≡ some t)
          ⊎ ((cfg.is_blue_green ≡ true) × (n ≡ spec.alias) × (t ≡ name))
    alias_of-created n t e =
        elim (alias_alias P c cfg.factor solr cfg aliases name spec
          (can.named name spec (lookup_self name spec m)).0
          (can.named name spec (lookup_self name spec m)).2 _ n t e) [
            | inl old ↦ inl (
                sym (
                  alias-create P c cfg.factor solr w name spec.configset_name
                    (can.named name spec (lookup_self name spec m)).0
                    (can.named name spec (lookup_self name spec m)).1 n)
                ∙ old)
            | inr new ↦ inr new
          ]

    unaliased_rest :
        (n : String) (other : SolrCollection)
        → lookup n m ≡ some other
        → alias_of P c cfg.factor solr (created name spec w) n ≡ none
    unaliased_rest n other e =
        elim (Option-cases (alias_of P c cfg.factor solr (created name spec w) n)) [
          | inl unaliased ↦ unaliased
          | inr (t, found) ↦ elim (alias_of-created n t found) [
            | inl old ↦ absurd (cc (old, can.unaliased n other (lookup_rest n other e).0))
            | inr (bg, same, target) ↦ absurd (
                can.distinct bg n name other spec (lookup_rest n other e).0
                  (lookup_self name spec m) same)
          ]
        ]

    created-CanCreate : CanCreate m (created name spec w)
    created-CanCreate = record {
      named = λ n other e. can.named n other (lookup_rest n other e).0;
      configured = λ n other e.
          config_of-created other.configset_name (can.configured n other (lookup_rest n other e).0);
      absent = λ n other e. ground (
        arith,
        collection_of-created n,
        (lookup_rest n other e).1,
        can.absent n other (lookup_rest n other e).0,
      );
      unaliased = unaliased_rest;
      distinct =
          λ bg n k x y e f. can.distinct bg n k x y (lookup_rest n x e).0 (lookup_rest k y f).0;
    }

  -- The created collections are there, and the others are as before.
  pub after_creates :
      (m : GoMap SolrCollection)
      → NodupKeys m
      → (w : World P) → CanCreate m w
      → (n : String)
      → collection_of P c cfg.factor solr (after_all P (create_requests c cfg aliases m) w) n
        ≡ elim (lookup n m) [
          | none ↦ collection_of P c cfg.factor solr w n
          | some spec ↦ some (solr.fresh n spec.configset_name)
        ]
  unfolding after_all lookup
  after_creates [] u w can n = refl
  after_creates ((name, spec) ∷ m) (fresh, u) w can n =
      rw
        (
          after_all-append,
          after_creates m u (created name spec w) (created-CanCreate name spec m fresh w can) n,
        )
        (ground (arith, collection_of-created name spec m fresh w can n))

  -- An alias that is new points to a collection that was created.
  pub alias-creates :
      (m : GoMap SolrCollection)
      → NodupKeys m
      → (w : World P) → CanCreate m w
      → (n t : String)
      → alias_of P c cfg.factor solr (after_all P (create_requests c cfg aliases m) w) n ≡ some t
      → (alias_of P c cfg.factor solr w n ≡ some t) ⊎ (has_key t m ≡ true)
  unfolding after_all has_key
  alias-creates [] u w can n t e = inl e
  alias-creates ((name, spec) ∷ m) (fresh, u) w can n t e =
      elim (alias-creates m u (created name spec w) (created-CanCreate name spec m fresh w can) n t
        (rw after_all-append at e)) [
          | inl before ↦ elim (alias_of-created name spec m fresh w can n t before) [
            | inl old ↦ inl old
            | inr (bg, same, target) ↦ inr (ground (arith, lookup-cons t name spec m))
          ]
          | inr there ↦ inr (ground (arith, lookup-cons t name spec m))
        ]
