-- ===== src/Solr/Client/Reported.antt =====
-- What the client reads out of the JSON that Solr reports of a collection.
use solr_collections_operato.Base.{
  ℕ, suc, ◌+◌, ◌<◌, ◌≡◌, refl, ◌∙◌, ap, String, [], ◌∷◌, arith, length, String-discrete,
}
use solr_collections_operato.Base.Int.{ℤ, pos, IsInt32, to_int32, to_int32_of_IsInt32, add32}
use solr_collections_operato.Base.Decimal.{atoi, show_int}
use solr_collections_operato.Base.Decimal.RoundTrip.{atoi-show_int}
use solr_collections_operato.Base.GoMap.{GoMap, IsFair, lookup}
use solr_collections_operato.Base.Outcome.{ok}
use solr_collections_operato.Solr.Json.{
  Json, text, int64, object, Fields, no_fields, field, entries, interface_to_int32,
}
use solr_collections_operato.Platform.{Platform, count_replicas as count_site}
use solr_collections_operato.Solr.Client.Queries.{count_loop, read_collection}

to_int32-show_int : (z : ℤ) → IsInt32 z → to_int32 (atoi (show_int z)) ≡ z
to_int32-show_int z h =
    ap to_int32 (atoi-show_int z (omega arith) (omega arith)) ∙ to_int32_of_IsInt32 z h

-- A number of the range of `int32` is read back, whether Solr reports it as a number or as the text
-- that `%d` prints.
pub interface_to_int32-show_int :
    (z : ℤ)
    → IsInt32 z
    → (interface_to_int32 (text (show_int z)) ≡ ok z) × (interface_to_int32 (int64 z) ≡ ok z)
unfolding interface_to_int32
interface_to_int32-show_int z h = (ap ok (to_int32-show_int z h), ap ok (to_int32_of_IsInt32 z h))

add32_one : (n : ℕ) → suc n < 2147483648 → add32 (pos n) (pos 1) ≡ pos (suc n)
unfolding add32
add32_one n h = ground arith

count_loop-length :
    (m : GoMap Json) (n : ℕ) → n + length m < 2147483648 → count_loop m (pos n) ≡ pos (n + length m)
unfolding count_loop
count_loop-length [] n h = ground arith
count_loop-length (_ ∷ m) n h =
    rw (add32_one n (omega arith))
      (count_loop-length m (suc n) (omega arith) ∙ ap pos (omega arith))

count_loop-visit :
    (P : Platform)
    → IsFair P.order
    → (m : GoMap Json) → length m < 2147483648
    → count_loop (P.order.visit count_site Json m) (pos 0) ≡ pos (length m)
count_loop-visit P fair m h =
    let e = fair.length-visit count_site Json m in
    count_loop-length (P.order.visit count_site Json m) 0 (omega arith) ∙ ap pos (omega arith)

-- What Solr reports of a collection with one shard.
pub record Report : Type 0 where
  pub config_name : String
  pub factor : ℤ
  pub replicas : Fields

-- The JSON of a report.
abbrev pub report_json : Report → Json
report_json r = object (
    field "configName" (text r.config_name) (
      field "replicationFactor" (text (show_int r.factor)) (
        field "shards"
          (object
            (field "shard1" (object (field "replicas" (object r.replicas) no_fields)) no_fields))
          no_fields)))

-- On a platform whose loops are fair, the JSON of a collection, with a replication factor of the range
-- of `int32` and fewer than 2³¹ replicas, is read as the collection with that name, config set and
-- factor, and with as many replicas as the JSON lists.
pub read_collection-report_json :
    (P : Platform)
    → IsFair P.order
    → (name : String) (r : Report) → IsInt32 r.factor
    → length (entries r.replicas) < 2147483648
    → read_collection P name (report_json r)
      ≡ ok (record {
        name = name;
        replication_factor = r.factor;
        replica_count = pos (length (entries r.replicas));
        config_name = r.config_name;
      })
unfolding read_collection lookup String-discrete
read_collection-report_json P fair name r h k =
    rw (to_int32-show_int r.factor h, count_loop-visit P fair (entries r.replicas) k) refl
