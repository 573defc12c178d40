-- ===== src/Solr/Client/WellFormed.antt =====
-- What holds of every status that `GetClusterStatus` returns, whatever Solr reports.
use mathlib.Core.Path.{subst}
use solr_collections_operato.Base.{◌≡◌, refl, String, [], ◌∷◌, arith}
use solr_collections_operato.Base.GoMap.{
  GoMap, insert, NodupKeys, lookup-insert, insert-NodupKeys, lookup-nil,
}
use solr_collections_operato.Base.Outcome.{Outcome, ok, err, panic, ◌>>=◌}
use solr_collections_operato.Base.Exec.{resume}
use solr_collections_operato.Solr.{SolrClient, Collection, ClusterStatus, AreNamed}
use solr_collections_operato.Solr.Json.{
  Json, null, bool, int64, float64, text, array, object, entries, as_object, as_text, member,
  interface_to_int32,
}
use solr_collections_operato.Platform.{Platform, World, status_aliases, status_collections}
use solr_collections_operato.Solr.Client.{query_json}
use solr_collections_operato.Solr.Client.Queries.{
  count_replicas, read_collection, read_collections, read_aliases, aliases_of, collections_of,
  cluster_status_of, get_cluster_status,
}
use solr_collections_operato.Solr.Client.ClusterReport.{status_request}

-- The value that is returned, if any, has the property.
abbrev Returns : {A : Type 0} → (A → Type 0) → Outcome A → Type 0
Returns Q (ok a) = Q a
Returns Q _ = Unit

Returns-bind :
    {A B : Type 0} (Q : A → Type 0) (R : B → Type 0) (o : Outcome A) (f : A → Outcome B)
    → Returns Q o
    → ((a : A) → Q a → Returns R (f a))
    → Returns R (o >>= f)
Returns-bind Q R (ok a) f q then_R = then_R a q
Returns-bind Q R (err message) f q then_R = tt
Returns-bind Q R panic f q then_R = tt

-- The same where nothing is known of the first value.
Returns-after :
    {A B : Type 0} (R : B → Type 0) (o : Outcome A) (f : A → Outcome B)
    → ((a : A) → Returns R (f a))
    → Returns R (o >>= f)
Returns-after R (ok a) f then_R = then_R a
Returns-after R (err message) f then_R = tt
Returns-after R panic f then_R = tt

Returns-resume :
    {S A B : Type 0} (R : B → Type 0) (f : A → S → Outcome B × S) (r : Outcome A × S)
    → ((a : A) (s : S) → Returns R (f a s).0)
    → Returns R (resume f r).0
Returns-resume R f (ok a, s) then_R = then_R a s
Returns-resume R f (err message, s) then_R = tt
Returns-resume R f (panic, s) then_R = tt

-- No collection is there twice, and each stands under its own name.
abbrev AreProper : GoMap Collection → Type 0
AreProper solr = NodupKeys solr × AreNamed solr

insert-AreProper :
    (k : String) (x : Collection) (acc : GoMap Collection)
    → x.name ≡ k
    → AreProper acc
    → AreProper (insert k x acc)
insert-AreProper k x acc named (u, all) =
    (insert-NodupKeys k x acc u, λ n y e. ground (arith, lookup-insert n k x acc, all n y))

nil-AreProper : AreProper []
nil-AreProper = (tt, λ n x e. ground (arith, lookup-nil {V = Collection} n))

read_aliases-NodupKeys :
    (m : GoMap Json) (acc : GoMap String) → NodupKeys acc → Returns NodupKeys (read_aliases m acc)
unfolding read_aliases
read_aliases-NodupKeys [] acc u = u
read_aliases-NodupKeys ((k, v) ∷ m) acc u =
    Returns-after NodupKeys (as_text v) _
      (λ name. read_aliases-NodupKeys m (insert k name acc) (insert-NodupKeys k name acc u))

module _ (P : Platform) where
  read_collection-name : (k : String) (v : Json) → Returns (λ x. x.name ≡ k) (read_collection P k v)
  unfolding read_collection
  read_collection-name k v =
      let Q = λ (x : Collection). x.name ≡ k in
      Returns-after Q (as_object v) _ (λ fields. Returns-after Q (count_replicas P v) _ (λ count.
        Returns-after Q (interface_to_int32 (member "replicationFactor" fields)) _
          (λ factor. Returns-after Q (as_text (member "configName" fields)) _ (λ config. refl))))

  read_collections-AreProper :
      (m : GoMap Json) (acc : GoMap Collection)
      → AreProper acc
      → Returns AreProper (read_collections P m acc)
  unfolding read_collections
  read_collections-AreProper [] acc good = good
  read_collections-AreProper ((k, v) ∷ m) acc good =
      Returns-bind (λ x. x.name ≡ k) AreProper (read_collection P k v) _ (read_collection-name k v)
        (λ x named.
          read_collections-AreProper m (insert k x acc) (insert-AreProper k x acc named good))

  collections_of-AreProper : (value : Json) → Returns AreProper (collections_of P value)
  unfolding collections_of
  collections_of-AreProper null = nil-AreProper
  collections_of-AreProper (object fs) =
      read_collections-AreProper (P.order.visit status_collections Json (entries fs)) []
        nil-AreProper
  collections_of-AreProper (bool b) = tt
  collections_of-AreProper (int64 z) = tt
  collections_of-AreProper (float64 s) = tt
  collections_of-AreProper (text s) = tt
  collections_of-AreProper (array vs) = tt

  aliases_of-NodupKeys : (value : Json) → Returns NodupKeys (aliases_of P value)
  unfolding aliases_of
  aliases_of-NodupKeys null = tt
  aliases_of-NodupKeys (object fs) =
      read_aliases-NodupKeys (P.order.visit status_aliases Json (entries fs)) [] tt
  aliases_of-NodupKeys (bool b) = tt
  aliases_of-NodupKeys (int64 z) = tt
  aliases_of-NodupKeys (float64 s) = tt
  aliases_of-NodupKeys (text s) = tt
  aliases_of-NodupKeys (array vs) = tt

  abbrev pub IsWellFormed : ClusterStatus → Type 0
  IsWellFormed status =
      NodupKeys status.collections × AreNamed status.collections × NodupKeys status.aliases

  cluster_status_of-IsWellFormed :
      (json : GoMap Json) → Returns IsWellFormed (cluster_status_of P json)
  unfolding cluster_status_of
  cluster_status_of-IsWellFormed json =
      Returns-after IsWellFormed (as_object (member "cluster" json)) _ (λ cluster.
        Returns-bind NodupKeys IsWellFormed (aliases_of P (member "aliases" cluster)) _
          (aliases_of-NodupKeys (member "aliases" cluster))
          (λ aliases v.
            Returns-bind AreProper IsWellFormed (collections_of P (member "collections" cluster)) _
              (collections_of-AreProper (member "collections" cluster))
              (λ collections (u, named). (u, named, v))))

  -- Whatever Solr reports, and in whatever order the loops go: a status that GetClusterStatus returns
  -- has no collection and no alias twice, and each collection under its own name.
  pub get_cluster_status-IsWellFormed :
      (c : SolrClient) (w : World P) (status : ClusterStatus)
      → (get_cluster_status P c w).0 ≡ ok status
      → IsWellFormed status
  unfolding get_cluster_status
  get_cluster_status-IsWellFormed c w status e = subst (Returns IsWellFormed) e (
      Returns-resume IsWellFormed _
        (query_json P (status_request c) "could not get cluster status" w)
        (λ json v. cluster_status_of-IsWellFormed json))
