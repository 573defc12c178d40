-- ===== src/Solr/Client/Entries.antt =====
-- The loops of `GetClusterStatus` that make a map out of a JSON object, one entry a round.
use mathlib.Core.Option.{map as map_option}
use solr_collections_operato.Base.{
  ◌≡◌, refl, String, Option, some, [], ◌∷◌, arith, if◌then◌else◌, ◌∙◌, Option-cases, inl, inr,
}
use solr_collections_operato.Base.GoMap.{
  GoMap, IsFair, lookup, insert, has_key, NodupKeys, lookup-insert, insert-NodupKeys,
}
use solr_collections_operato.Base.Outcome.{Outcome, ok, err, panic, ◌>>=◌}
use solr_collections_operato.Solr.Json.{Json, Fields, no_fields, field, entries, as_text}
use solr_collections_operato.Solr.{Collection}
use solr_collections_operato.Platform.{Platform, Site}
use solr_collections_operato.Solr.Client.Queries.{read_aliases, read_collection, read_collections}

-- A loop that reads the entries of a JSON object into a map.
unfoldable pub read_entries :
    {A : Type 0} → (String → Json → Outcome A) → GoMap Json → GoMap A → Outcome (GoMap A)
read_entries f [] acc = ok acc
read_entries f ((key, value) ∷ m) acc = do a ← f key value; read_entries f m (insert key a acc)

rest_ap :
    {A B : Type 0} (o : Outcome A) {f g : A → Outcome B}
    → ((a : A) → f a ≡ g a)
    → (o >>= f) ≡ (o >>= g)
rest_ap (ok a) e = e a
rest_ap (err message) e = refl
rest_ap panic e = refl

pub read_aliases_lem :
    (m : GoMap Json) (acc : GoMap String) → read_aliases m acc ≡ read_entries (λ k. as_text) m acc
unfolding read_aliases read_entries
read_aliases_lem [] acc = refl
read_aliases_lem ((k, v) ∷ m) acc = rest_ap (as_text v) (λ a. read_aliases_lem m (insert k a acc))

pub read_collections_lem :
    (P : Platform) (m : GoMap Json) (acc : GoMap Collection)
    → read_collections P m acc ≡ read_entries (read_collection P) m acc
unfolding read_collections read_entries
read_collections_lem P [] acc = refl
read_collections_lem P ((k, v) ∷ m) acc =
    rest_ap (read_collection P k v) (λ x. read_collections_lem P m (insert k x acc))

-- Where every entry can be read, the loop reads them all, and each under its own key.
pub read_entries_lem :
    {A : Type 0} (f : String → Json → Outcome A) (g : String → Option A) (m : GoMap Json)
    (acc : GoMap A)
    → NodupKeys m
    → NodupKeys acc
    → ((k : String) (v : Json) → lookup k m ≡ some v → (x : A) × (f k v ≡ ok x) × (g k ≡ some x))
    → (out : GoMap A) × (read_entries f m acc ≡ ok out)
      × NodupKeys out
      × ((k : String) → lookup k out ≡ (if has_key k m then g k else lookup k acc))
unfolding read_entries lookup has_key
read_entries_lem f g [] acc u u' reads = (acc, refl, u', λ k. refl)
read_entries_lem f g ((j, v) ∷ m) acc (fresh, u) u' reads =
    let (x, read, known) = reads j v (ground arith) in
    let (out, e, nodup, found) =
      read_entries_lem f g m (insert j x acc) u (insert-NodupKeys j x acc u')
        (λ k w h. reads k w (ground arith)) in
    (out, rw read e, nodup, λ k. ground (arith, found k, lookup-insert k j x acc))

-- The JSON object of a map.
unfoldable pub fields_of : {V : Type 0} → (V → Json) → GoMap V → Fields
fields_of f [] = no_fields
fields_of f ((k, v) ∷ m) = field k (f v) (fields_of f m)

pub lookup-fields_of :
    {V : Type 0} (f : V → Json) (m : GoMap V) (k : String)
    → lookup k (entries (fields_of f m)) ≡ map_option f (lookup k m)
unfolding fields_of lookup
lookup-fields_of f [] k = refl
lookup-fields_of f ((j, v) ∷ m) k = ground (arith, lookup-fields_of f m k)

pub fields_of-NodupKeys :
    {V : Type 0} (f : V → Json) (m : GoMap V) → NodupKeys m → NodupKeys (entries (fields_of f m))
unfolding fields_of
fields_of-NodupKeys f [] u = tt
fields_of-NodupKeys f ((j, v) ∷ m) (fresh, u) =
    (rw (lookup-fields_of f m j, fresh) refl, fields_of-NodupKeys f m u)

-- The JSON object of a map is read back, whatever the order of the loop, where each of its values is.
pub read_entries-fields_of :
    (P : Platform)
    → IsFair P.order
    → (site : Site) {V A : Type 0} (f : String → Json → Outcome A) (json : V → Json)
      (value : String → V → A) (m : GoMap V)
    → NodupKeys m
    → ((n : String) (v : V) → lookup n m ≡ some v → f n (json v) ≡ ok (value n v))
    → (out : GoMap A) × (read_entries f (P.order.visit site Json (entries (fields_of json m))) []
        ≡ ok out)
      × NodupKeys out
      × ((n : String) → lookup n out ≡ map_option (value n) (lookup n m))
unfolding has_key lookup
read_entries-fields_of P fair site f json value m u reads =
    let v = fields_of-NodupKeys json m u in
    let found = λ (n : String).
      fair.lookup-visit site Json (entries (fields_of json m)) v n ∙ lookup-fields_of json m n in
    let (out, e, nodup, known) =
      read_entries_lem f (λ n. map_option (value n) (lookup n m))
        (P.order.visit site Json (entries (fields_of json m))) []
        (fair.visit-NodupKeys site Json (entries (fields_of json m)) v) tt
        (λ n w there. elim (Option-cases (lookup n m)) [
          | inl e ↦ ground (arith, e, there, found n)
          | inr (r, e) ↦
              let same : json r ≡ w = ground (arith, e, there, found n) in
              (value n r, rw same at (reads n r e), rw e refl)
        ]) in
    (out, e, nodup, λ n. ground (arith, known n, found n))
