-- ===== src/Tests/Stored.antt =====
-- The config sets and the replicas of the small Solr.
use solr_collections_operato.Base.{
  ℕ, ◌≤◌, ◌<◌, ◌≡◌, refl, String, true, false, ◌||◌, some, arith, ◌⊎◌, inl, inr, Bool-cases, ◌==◌,
  if◌then◌else◌, String-discrete, ==→≡,
}
use solr_collections_operato.Base.Int.{pos}
use solr_collections_operato.Base.Decimal.{decimal, show_int}
use solr_collections_operato.Solr.{Collection}
use solr_collections_operato.Solr.ConfigStore.{ConfigStore}
use solr_collections_operato.Solr.Replicas.{ReplicaStore}
use solr_collections_operato.Solr.Client.Commands.{
  upload_config_set_request, write_record_request, add_replicas_request,
}
use solr_collections_operato.Controller.ConfigSets.{checksum_record}
use solr_collections_operato.Tests.Data.{client}
use solr_collections_operato.Tests.Deployment.{
  Store, store, checksums, with_count, contents, sets, fill, add_set, add_sum, effect, platform,
}

pub upload_effect :
    (content : String) (s : Store)
    → effect (upload_config_set_request client "books" content) s ≡ add_set s
unfolding effect upload_config_set_request String-discrete
upload_effect content (store b f h k) = refl

pub write_effect :
    (s : Store)
    → effect (write_record_request client checksums (checksum_record "books" "b1")) s ≡ add_sum s
unfolding effect write_record_request checksum_record String-discrete
write_effect (store b f h k) = refl

unfoldable pub small_store : ConfigStore platform client checksums
small_store = record {
  is_name = λ n. n == "books";
  is_checksum = λ s. s == "b1";
  is_archive = λ content. true;
  sets = sets;
  upload = λ name content s h k.
      rw (==→≡ name "books" h, upload_effect content s)
        ((refl, (_, refl, refl)), uploaded s, same_sum s, λ n. unused (add_set s) s n);
  write = λ name checksum s h k.
      rw (==→≡ name "books" h, ==→≡ checksum "b1" k, write_effect s)
        ((refl, (_, refl, refl)), same_set s, written s, λ n. unused (add_sum s) s n);
  delete = λ name s h free. absurd (ground (arith, unused_none s name));
}
  where
    unused_none : (s : Store) (n : String) → (sets s).is_unused n ≡ false
    unused_none (store b f h k) n = refl

    unused : (s t : Store) (n : String) → (sets s).is_unused n ≡ (sets t).is_unused n
    unused (store b f h k) (store b' f' h' k') n = refl

    uploaded :
        (s : Store) (n : String)
        → (sets (add_set s)).has_set n ≡ (n == "books" || (sets s).has_set n)
    uploaded (store b f h k) n = ground arith

    same_sum : (s : Store) (n : String) → (sets (add_set s)).checksum n ≡ (sets s).checksum n
    same_sum (store b f h k) n = refl

    same_set : (s : Store) (n : String) → (sets (add_sum s)).has_set n ≡ (sets s).has_set n
    same_set (store b f h k) n = refl

    written :
        (s : Store) (n : String)
        → (sets (add_sum s)).checksum n ≡ (if n == "books" then some "b1" else (sets s).checksum n)
    written (store b f h k) n = ground arith

pub add_effect : (s : Store) → effect (add_replicas_request client checksums (pos 1)) s ≡ fill s
unfolding effect add_replicas_request String-discrete show_int decimal
add_effect (store b f h k) = refl

-- A collection that lacks a replica is the one for the checksums, and lacks one.
pub is_missing :
    (name : String) (x : Collection) (m : ℕ) (s : Store)
    → (contents s).collection name ≡ some x
    → x.replica_count ≡ pos m
    → m < 2
    → (name ≡ checksums) × (m ≡ 1) × (x ≡ with_count 1 checksums)
is_missing name x m (store true true h k) there counted few = absurd (ground arith)
is_missing name x m (store true false h k) there counted few =
    (ground arith, ground arith, ground arith)
is_missing name x m (store false true h k) there counted few = absurd (ground arith)
is_missing name x m (store false false h k) there counted few =
    (ground arith, ground arith, ground arith)

pub no_surplus :
    (name : String) (x : Collection) (m : ℕ) (s : Store)
    → (contents s).collection name ≡ some x
    → x.replica_count ≡ pos m
    → m ≤ 2
no_surplus name x m (store true true h k) there counted = ground arith
no_surplus name x m (store true false h k) there counted = ground arith
no_surplus name x m (store false true h k) there counted = ground arith
no_surplus name x m (store false false h k) there counted = ground arith

pub eq_cases :
    (n : String)
    → (n ≡ "books") ⊎ (n ≡ checksums) ⊎ (((n == "books") ≡ false) × ((n == checksums) ≡ false))
eq_cases n = elim (Bool-cases (n == "books")) [
  | inl e ↦ inl (==→≡ n _ e)
  | inr p ↦ elim (Bool-cases (n == checksums)) [
    | inl e ↦ inr (inl (==→≡ n _ e))
    | inr q ↦ inr (inr (p, q))
  ]
]

pub filled_contents :
    (s : Store) (n : String)
    → (contents s).collection checksums ≡ some (with_count 1 checksums)
    → (contents (fill s)).collection n
      ≡ (if n == checksums then some (with_count 2 checksums) else (contents s).collection n)
unfolding String-discrete
filled_contents (store true f h k) n there = elim (eq_cases n) [
  | inl e ↦ rw e refl
  | inr (inl e) ↦ rw e refl
  | inr (inr (p, q)) ↦ rw (p, q) refl
]
filled_contents (store false f h k) n there = elim (eq_cases n) [
  | inl e ↦ rw e refl
  | inr (inl e) ↦ rw e refl
  | inr (inr (p, q)) ↦ rw (p, q) refl
]

unfoldable pub small_replicas : ReplicaStore platform client 2
small_replicas = record {
  is_name = λ n. n == "books" || n == checksums;
  collection = λ s n. (contents s).collection n;
  nodes = λ s. 2;
  add = λ name x m s h there counted few enough.
      let (p, q, r) = is_missing name x m s there counted few in
      rw (p, q, r, add_effect s)
        ((refl, (_, refl, refl)), (λ n. filled_contents s n (rw (p, r) at there)), refl);
  wait = λ name x m s h there counted few nodes. absurd (omega arith);
  remove = λ name x m s h there counted many positive.
      absurd (omega (arith, no_surplus name x m s there counted));
}
