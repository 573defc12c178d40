-- ===== src/Tests/Cluster.antt =====
-- A small Solr that keeps the promises of the collections API, and a run on it.
use text.Mathlib.TextEquality.{eq_iff}
use mathlib.Core.Option.{map as map_option, or_else}
use solr_collections_operato.Base.{
  ap, ==→≡, ◌≡◌, refl, ◌⊎◌, inl, inr, String, Bool, true, false, ◌||◌, Option, none, some, [], ◌∷◌,
  arith, ◌==◌, if◌then◌else◌, String-discrete,
}
use solr_collections_operato.Base.Int.{pos}
use solr_collections_operato.Base.Decimal.{decimal, show_int}
use solr_collections_operato.Base.Outcome.{ok}
use solr_collections_operato.Base.GoMap.{GoMap, lookup, insert}
use solr_collections_operato.Api.{SolrCollection, SolrCollectionSet, settings}
use solr_collections_operato.Controller.Names.Mapped.{is_instance, specified}
use solr_collections_operato.Controller.Collections.{now_deleted, manage_collections}
use solr_collections_operato.Controller.Collections.Aligned.{IsAligned}
use solr_collections_operato.Controller.Collections.Ready.{IsReady}
use solr_collections_operato.Controller.Collections.Converged.{manage_collections-converges}
use solr_collections_operato.Solr.{Collection}
use solr_collections_operato.Solr.Cluster.{SolrCluster}
use solr_collections_operato.Solr.Client.Commands.{
  create_collection_request, assign_alias_request, delete_alias_request, delete_collection_request,
  set_replication_factor_request,
}
use solr_collections_operato.Platform.{Platform, World}
use solr_collections_operato.Tests.Data.{
  in_order-IsFair as fair, platform_on, platform-IsCivil, client, books, set_asking, settings_of,
  collection,
}

-- The names at hand.
abbrev is_name : String → Bool
is_name n = n == "books" || n == "old"

name_cases : (n : String) → is_name n ≡ true → (n ≡ "books") ⊎ (n ≡ "old")
name_cases n h = ground arith

abbrev has_config : String → Bool
has_config n = n == "books"

data Command : Type 0 where
  creation : String → String → Command
  deletion : String → Command
  adjustment : String → Command
  other : Command

-- The commands of the client on the names at hand. The small Solr has the config set of books and no
-- other, and makes no collection of another; it has no aliases, and assigns none.
unfoldable command_of : String → Command
unfolding create_collection_request delete_collection_request set_replication_factor_request
command_of url =
    if url == (create_collection_request client "books" "books" (pos 2)).url
    then creation "books" "books"
    else if url == (create_collection_request client "old" "books" (pos 2)).url
    then creation "old" "books"
    else if url == (delete_collection_request client "books").url
    then deletion "books"
    else if url == (delete_collection_request client "old").url
    then deletion "old"
    else if url == (set_replication_factor_request client "books" (pos 2)).url
    then adjustment "books"
    else if url == (set_replication_factor_request client "old" (pos 2)).url
    then adjustment "old"
    else other

abbrev Store : Type 0
Store = String → Option Collection

abbrev fresh : String → String → Collection
fresh name config = record {
  name = name;
  replication_factor = pos 2;
  replica_count = pos 2;
  config_name = config;
}

abbrev apply : Command → Store → Store
apply (creation name config) s = λ n. if n == name then some (fresh name config) else s n
apply (deletion name) s = λ n. if n == name then none else s n
apply (adjustment name) s = λ n.
    if n == name
    then map_option (λ (x : Collection). record x { replication_factor = pos 2 }) (s n)
    else s n
apply other s = s

abbrev small : Platform
small = platform_on Store (λ req s. apply (command_of req.url) s)

create_command :
    (name config : String)
    → is_name name ≡ true
    → has_config config ≡ true
    → command_of (create_collection_request client name config (pos 2)).url ≡ creation name config
unfolding command_of String-discrete show_int decimal
create_command name config h k =
    let books : config ≡ "books" = ==→≡ config "books" k in
    elim (name_cases name h) [ inl e ↦ rw (e, books) refl | inr e ↦ rw (e, books) refl ]

assign_command :
    (name target : String)
    → is_name name ≡ true
    → is_name target ≡ true
    → command_of (assign_alias_request client name target).url ≡ other
unfolding command_of String-discrete show_int decimal assign_alias_request
assign_command name target h k = elim (name_cases name h) [
  | inl e ↦ elim (name_cases target k) [ inl f ↦ rw (e, f) refl | inr f ↦ rw (e, f) refl ]
  | inr e ↦ elim (name_cases target k) [ inl f ↦ rw (e, f) refl | inr f ↦ rw (e, f) refl ]
]

delete_alias_command :
    (name : String)
    → is_name name ≡ true
    → command_of (delete_alias_request client name).url ≡ other
unfolding command_of String-discrete show_int decimal delete_alias_request
delete_alias_command name h = elim (name_cases name h) [ inl e ↦ rw e refl | inr e ↦ rw e refl ]

delete_command :
    (name : String)
    → is_name name ≡ true
    → command_of (delete_collection_request client name).url ≡ deletion name
unfolding command_of String-discrete show_int decimal
delete_command name h = elim (name_cases name h) [ inl e ↦ rw e refl | inr e ↦ rw e refl ]

modify_command :
    (name : String)
    → is_name name ≡ true
    → command_of (set_replication_factor_request client name (pos 2)).url ≡ adjustment name
unfolding command_of String-discrete show_int decimal
modify_command name h = elim (name_cases name h) [ inl e ↦ rw e refl | inr e ↦ rw e refl ]

small_cluster : SolrCluster small client (pos 2)
small_cluster = record {
  is_name = is_name;
  contents = λ s. record { collection = s; alias = λ n. none };
  has_config = λ s. has_config;
  fresh = fresh;
  fresh-factor = λ name config. refl;
  accepts_create = λ name config h k. refl;
  accepts_assign = λ name target h k. refl;
  accepts_delete_alias = λ name h. refl;
  accepts_delete = λ name h. refl;
  accepts_modify = λ name h. refl;
  create-collection = λ name config s h k stored absent unaliased positive n.
      rw (create_command name config h stored) refl;
  create-config = λ name config s h k n there. there;
  assign-config = λ name target s h k n there. there;
  create-alias = λ name config s h k n. refl;
  assign-collection = λ name target s h k n. rw (assign_command name target h k) refl;
  assign-alias = λ name target s h k n t e. inl e;
  delete_alias-collection = λ name s h n. rw (delete_alias_command name h) refl;
  delete_alias-alias = λ name s h n t e. e;
  delete-collection = λ name s h untargeted n. rw (delete_command name h) refl;
  delete-alias = λ name s h n. refl;
  modify-collection = λ name s h positive n. rw (modify_command name h) refl;
}

-- A plain set that asks for one collection, and cleans up.
abbrev library : SolrCollectionSet
library = set_asking (some false) (some true) (books ∷ [])

-- Before the run Solr has a stray collection; after it, the collection that the set asks for.
abbrev before : GoMap Collection
before = ("old", collection "old" 2 2) ∷ []

abbrev after : GoMap Collection
after = ("books", fresh "books" "books") ∷ []

abbrev start : World small
start = record { cluster = λ n. lookup n before; sent = [] }

specified-books :
    (n : String) (spec : SolrCollection)
    → specified false (books ∷ []) n ≡ some spec
    → (n ≡ "books") × (spec ≡ books)
unfolding specified is_instance or_else
specified-books n spec e = ground arith

lookup-before : (n : String) (x : Collection) → lookup n before ≡ some x → n ≡ "old"
unfolding lookup
lookup-before n x e = ground arith

library-IsReady :
    IsReady small client
      (settings_of false true)
      small_cluster
      (books ∷ [])
      (small_cluster.has_config start.cluster)
      start
unfolding small_cluster String-discrete
library-IsReady = record {
  positive = refl;
  named = λ n spec e. let (p, q) = specified-books n spec e in rw (p, q) (refl, refl, refl);
  configured = λ n spec e absent.
      let (p, q) = specified-books n spec e in
      ap has_config (ap (λ (x : SolrCollection). x.configset_name) q);
  existing = λ n x stray e. rw (lookup-before n x e) refl;
  unaliased = λ n spec e. refl;
  distinct = λ h. ground arith;
  untargeted = λ n a h e. ground arith;
}

-- What the run leaves on the small Solr.
end_store :
    (manage_collections small client library before [] start).1.cluster
    ≡ apply (deletion "old") (apply (creation "books" "books") start.cluster)
unfolding manage_collections now_deleted lookup insert command_of String-discrete show_int decimal
end_store = refl

end_reads :
    (n : String)
    → lookup n after ≡ apply (deletion "old") (apply (creation "books" "books") start.cluster) n
unfolding lookup
end_reads n = ground (arith, eq_iff "books" "old")

manage_collections-converges_example :
    let w' = (manage_collections small client library before [] start).1 in
    IsAligned (settings_of false true) (books ∷ []) after
    × (manage_collections small client library after [] w' ≡ (ok false, w'))
unfolding lookup settings small_cluster String-discrete
manage_collections-converges_example =
    manage_collections-converges small fair
      (platform-IsCivil Store (λ req s. apply (command_of req.url) s)) client
      (settings_of false true) small_cluster library before [] start (refl, tt) refl (λ n. refl)
      library-IsReady after [] (refl, tt) (λ n. rw end_store (end_reads n))
