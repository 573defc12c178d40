-- ===== src/Tests/Answered.antt =====
-- What the small Solr and its Kubernetes answer to a run of `Reconcile`.
use solr_collections_operato.Base.{
  ℕ, ◌<◌, ◌≡◌, inl, inr, refl, sym, ◌∙◌, String, Bool, true, false, some, ◌||◌, [], ◌∷◌, arith,
  ◌==◌, if◌then◌else◌, String-discrete,
}
use solr_collections_operato.Base.Int.{pos}
use solr_collections_operato.Base.GoMap.{GoMap, lookup, insert, has_key}
use solr_collections_operato.Platform.{ConfigMap}
use solr_collections_operato.Solr.{Collection}
use solr_collections_operato.Controller.Names.{checksums_collection_name, contains}
use solr_collections_operato.Controller.ConfigSets.{map_config_maps}
use solr_collections_operato.Controller.Replicas.Converged.{AreCounted}
use solr_collections_operato.Controller.Reconcile.Deployment.{Reports, Kubernetes}
use solr_collections_operato.Tests.Data.{client, config_map, books}
use solr_collections_operato.Tests.Quiet.{set}
use solr_collections_operato.Tests.Deployment.{
  Store, store, checksums, contents, sets, platform, status, names, sums,
}
use solr_collections_operato.Tests.Converging.{
  small_cluster, records, answers_status, answers_sets, answers_query, checked,
}
use solr_collections_operato.Tests.Stored.{eq_cases, small_store, small_replicas}
use solr_collections_operato.Tests.Separated.{key, system}

pub reads_status :
    (s : Store) (n : String) → lookup n (status s).collections ≡ (contents s).collection n
unfolding lookup String-discrete
reads_status (store true f h k) n = elim (eq_cases n) [
  | inl e ↦ rw e refl
  | inr (inl e) ↦ rw e refl
  | inr (inr (p, q)) ↦ rw (p, q) refl
]
reads_status (store false f h k) n = elim (eq_cases n) [
  | inl e ↦ rw e refl
  | inr (inl e) ↦ rw e refl
  | inr (inr (p, q)) ↦ rw (p, q) refl
]

pub reads_sets : (s : Store) (n : String) → contains (names s) n ≡ (sets s).has_set n
unfolding contains
reads_sets (store b f true k) n = ground arith
reads_sets (store b f false k) n = ground arith

pub reads_checksums : (s : Store) (n : String) → lookup n (sums s) ≡ (sets s).checksum n
unfolding lookup
reads_checksums (store b f h true) n = ground arith
reads_checksums (store b f h false) n = ground arith

abbrev count : Store → String → ℕ
count (store b f h k) n = if n == "books" then 2 else if f then 2 else 1

-- What there is is a collection of books or the one for the checksums.
contents_cases :
    (s : Store) (n : String) (x : Collection)
    → (contents s).collection n ≡ some x
    → (n == "books" || n == checksums ≡ true) × (x.replica_count ≡ pos (count s n))
unfolding String-discrete
contents_cases (store b f h k) n x e = elim (eq_cases n) [
  | inl books ↦ rw books (refl, first b f h k x (rw books at e))
  | inr (inl sums) ↦ rw sums (refl, second b f h k x (rw sums at e))
  | inr (inr (p, q)) ↦ absurd (ground arith)
]
  where
    first :
        (b f h k : Bool) (x : Collection)
        → (contents (store b f h k)).collection "books" ≡ some x
        → x.replica_count ≡ pos 2
    first true f h k x e = ground arith
    first false f h k x e = absurd (ground arith)

    second :
        (b f h k : Bool) (x : Collection)
        → (contents (store b f h k)).collection checksums ≡ some x
        → x.replica_count ≡ pos (count (store b f h k) checksums)
    second b true h k x e = ground arith
    second b false h k x e = ground arith

count_bounded : (s : Store) (n : String) → count s n < 2147483648
count_bounded (store b f h k) n = ground arith

pub counts : (s : Store) → AreCounted small_replicas (status s).collections
unfolding small_replicas
counts s = record {
  count = count s;
  counted = λ n x e. ((contents_cases s n x (sym (reads_status s n) ∙ e)).1, count_bounded s n);
  named = λ n x e. (contents_cases s n x (sym (reads_status s n) ∙ e)).0;
}

pub initialized : (s : Store) → has_key checksums (status s).collections ≡ true
unfolding has_key lookup String-discrete
initialized (store true f h k) = refl
initialized (store false f h k) = refl

unfoldable pub reports : Reports platform client key set 2 system
unfolding system small_cluster small_store small_replicas checksums_collection_name
reports = record {
  status = status;
  answers_status = λ w. answers_status w.cluster w.sent;
  reads_status = reads_status;
  counts = counts;
  initialized = initialized;
  names = names;
  answers_sets = λ w. answers_sets w.cluster w.sent;
  reads_sets = reads_sets;
  records = records;
  answers_query = λ w. answers_query w.cluster w.sent;
  checksums = sums;
  checked = checked;
  reads_checksums = reads_checksums;
}

abbrev pub maps : GoMap ConfigMap
maps = ("books", config_map "books" "b1") ∷ []

pub kube : Kubernetes platform client key set 2 system maps
unfolding system small_cluster small_store map_config_maps lookup insert String-discrete
kube = record {
  status = λ s. set.status;
  fetched = λ s. refl;
  conditioned = λ s. refl;
  items = config_map "books" "b1" ∷ [];
  config_maps = λ s. refl;
  mapped = refl;
  patched = λ old new s. (new, refl);
  after_patch = λ old new s. (refl, refl);
  after_event = λ reported kind text s. (refl, refl);
}
