-- ===== src/Tests/ConfigStore.antt =====
-- A small Solr that keeps config sets and checksums, and a run on it.
use solr_collections_operato.Base.{
  ◌≡◌, refl, ◌⊎◌, inl, inr, String, Bool, true, not, ◌&&◌, ◌||◌, none, some, List, [], ◌∷◌, arith,
  ◌==◌, if◌then◌else◌, String-discrete,
}
use text.Mathlib.TextEquality.{eq_iff}
use solr_collections_operato.Base.GoMap.{GoMap, lookup, insert, NodupKeys}
use solr_collections_operato.Base.Outcome.{ok}
use solr_collections_operato.Platform.{Request, ConfigMap, Platform, World}
use solr_collections_operato.Solr.Client.Commands.{
  upload_config_set_request, write_record_request, delete_config_set_request,
}
use solr_collections_operato.Solr.ConfigStore.{ConfigStore, Sets}
use solr_collections_operato.Controller.Names.{contains}
use solr_collections_operato.Controller.ConfigSets.{
  config_set_data, checksum_record, plan_config_sets, process_config_sets,
}
use solr_collections_operato.Controller.ConfigSets.Queued.{AreCurrent}
use solr_collections_operato.Controller.ConfigSets.Stored.{IsUploadable}
use solr_collections_operato.Controller.ConfigSets.Converged.{
  IsReady, IsReading, process_config_sets-converges,
}
use solr_collections_operato.Tests.Data.{in_order-IsFair as fair, platform_on, client, config_map}

-- The names and the checksums at hand.
abbrev is_name : String → Bool
is_name n = n == "books" || n == "old"

abbrev is_checksum : String → Bool
is_checksum s = s == "b1"

name_cases : (n : String) → is_name n ≡ true → (n ≡ "books") ⊎ (n ≡ "old")
name_cases n h = ground arith

checksum_case : (s : String) → is_checksum s ≡ true → s ≡ "b1"
checksum_case s h = ground arith

data Command : Type 0 where
  upload : String → Command
  write : String → Command
  deletion : String → Command
  other : Command

abbrev record_request : String → Request
record_request name = write_record_request client "_libraryChecksums" (checksum_record name "b1")

unfoldable command_of : Request → Command
unfolding upload_config_set_request write_record_request delete_config_set_request checksum_record
command_of req =
    if req.url == (upload_config_set_request client "books" "").url
    then upload "books"
    else if req.url == (upload_config_set_request client "old" "").url
    then upload "old"
    else if req.url == (delete_config_set_request client "books").url
    then deletion "books"
    else if req.url == (delete_config_set_request client "old").url
    then deletion "old"
    else if req.body == (record_request "books").body
    then write "books"
    else if req.body == (record_request "old").body
    then write "old"
    else other

-- No collection uses a config set.
abbrev apply : Command → Sets → Sets
apply (upload name) s = record s { has_set = λ n. n == name || s.has_set n }
apply (write name) s = record s { checksum = λ n. if n == name then some "b1" else s.checksum n }
apply (deletion name) s = record s { has_set = λ n. not (n == name) && s.has_set n }
apply other s = s

abbrev small : Platform
small = platform_on Sets (λ req s. apply (command_of req) s)

upload_command :
    (name content : String)
    → is_name name ≡ true
    → command_of (upload_config_set_request client name content) ≡ upload name
unfolding command_of String-discrete
upload_command name content h = elim (name_cases name h) [ inl e ↦ rw e refl | inr e ↦ rw e refl ]

delete_command :
    (name : String)
    → is_name name ≡ true
    → command_of (delete_config_set_request client name) ≡ deletion name
unfolding command_of String-discrete
delete_command name h = elim (name_cases name h) [ inl e ↦ rw e refl | inr e ↦ rw e refl ]

write_command :
    (name : String) → is_name name ≡ true → command_of (record_request name) ≡ write name
unfolding command_of String-discrete
write_command name h = elim (name_cases name h) [ inl e ↦ rw e refl | inr e ↦ rw e refl ]

small_store : ConfigStore small client "_libraryChecksums"
small_store = record {
  is_name = is_name;
  is_checksum = is_checksum;
  is_archive = λ content. true;
  sets = λ s. s;
  upload = λ name content s h k.
      rw (upload_command name content h) ((refl, (_, refl, refl)), λ n. refl, λ n. refl, λ n. refl);
  write = λ name checksum s h k.
      rw (checksum_case checksum k, write_command name h)
        ((refl, (_, refl, refl)), λ n. refl, λ n. refl, λ n. refl);
  delete = λ name s h free.
      rw (delete_command name h) ((refl, (_, refl, refl)), λ n. refl, λ n. refl, λ n. refl);
}

-- There is a config map for one config set, and Solr has another.
abbrev maps : GoMap ConfigMap
maps = ("books", config_map "books" "b1") ∷ []

abbrev before : List String
before = "old" ∷ []

abbrev start : World small
start = record {
  cluster = record { has_set = contains before; checksum = λ n. none; is_unused = λ n. true };
  sent = [];
}

lookup-maps :
    (n : String) (cm : ConfigMap)
    → lookup n maps ≡ some cm
    → (n ≡ "books") × (cm ≡ config_map "books" "b1")
unfolding lookup
lookup-maps n cm e = ground arith

contains-before : (n : String) → contains before n ≡ true → n ≡ "old"
unfolding contains
contains-before n e = ground arith

maps-IsUploadable :
    (n : String) (cm : ConfigMap)
    → n ≡ "books"
    → cm ≡ config_map "books" "b1"
    → IsUploadable small client "_libraryChecksums" small_store n cm
unfolding small_store config_set_data lookup String-discrete
maps-IsUploadable n cm e f =
    rw (e, f)
      (record { content = "b1"; is_decoded = refl; named = refl; archived = refl; summed = refl })

maps-NodupKeys : NodupKeys maps
unfolding lookup
maps-NodupKeys = (refl, tt)

start-IsReady : IsReady small client "_libraryChecksums" small_store true maps before start
unfolding small_store String-discrete
start-IsReady = record {
  uploadable = λ n cm e. let (p, q) = lookup-maps n cm e in maps-IsUploadable n cm p q;
  removable = λ cleanup n there surplus. rw (contains-before n there) (refl, refl);
}

start-IsReading : IsReading small client "_libraryChecksums" small_store before [] start
unfolding small_store lookup
start-IsReading = record { sets = λ n. refl; sums = λ n. refl }

-- What the run leaves.
end_sets :
    (process_config_sets small client "_libraryChecksums"
      (plan_config_sets small true before maps [])
      start).1.cluster
    ≡ apply (deletion "old") (apply (write "books") (apply (upload "books") start.cluster))
unfolding process_config_sets plan_config_sets lookup insert command_of config_set_data contains
    String-discrete
end_sets = refl

end-IsReading :
    IsReading small client "_libraryChecksums" small_store
      ("books" ∷ [])
      (("books", "b1") ∷ [])
      (process_config_sets small client "_libraryChecksums"
        (plan_config_sets small true before maps [])
        start).1
unfolding small_store lookup contains
end-IsReading = record {
  sets = λ n. rw end_sets (ground (arith, eq_iff "books" "old"));
  sums = λ n. rw end_sets refl;
}

process_config_sets-converges_example :
    let r =
      process_config_sets small client "_libraryChecksums"
        (plan_config_sets small true before maps [])
        start in
    (r.0 ≡ ok tt)
    × AreCurrent small fair true ("books" ∷ []) maps (("books", "b1") ∷ [])
    × (process_config_sets small client "_libraryChecksums"
          (plan_config_sets small true ("books" ∷ []) maps (("books", "b1") ∷ []))
          r.1
        ≡ (ok tt, r.1))
process_config_sets-converges_example =
    process_config_sets-converges small fair client "_libraryChecksums" small_store true maps
      maps-NodupKeys before [] start start-IsReading start-IsReady ("books" ∷ [])
      (("books", "b1") ∷ []) end-IsReading
