-- ===== src/Tests/Converging.antt =====
-- Two runs of `Reconcile` on a small Solr.
use mathlib.Core.Option.{map as map_option}
use solr_collections_operato.Base.{
  ap, sym, ◌∙◌, ◌≡◌, refl, String, true, false, none, some, List, [], ◌∷◌, arith, ◌==◌,
  if◌then◌else◌, String-discrete, ==→≡, ◌∙◌,
}
use solr_collections_operato.Base.Int.{pos, add32}
use solr_collections_operato.Base.Decimal.{decimal, show_int, atoi, parse_uint}
use solr_collections_operato.Base.GoMap.{GoMap, lookup, insert}
use solr_collections_operato.Base.Outcome.{ok}
use solr_collections_operato.Platform.{Request}
use solr_collections_operato.Solr.{Collection}
use solr_collections_operato.Solr.Json.{Json, text, member}
use solr_collections_operato.Solr.Cluster.{SolrCluster}
use solr_collections_operato.Solr.Client.Commands.{
  create_collection_request, assign_alias_request, delete_alias_request, delete_collection_request,
  set_replication_factor_request, add_replicas_request,
}
use solr_collections_operato.Solr.Client.Delivery.{IsCivil}
use solr_collections_operato.Solr.Client.Entries.{fields_of}
use solr_collections_operato.Solr.Client.Queries.{get_cluster_status, get_config_sets, query}
use solr_collections_operato.Controller.ConfigSets.{read_checksums}
use solr_collections_operato.Tests.Data.{client}
use solr_collections_operato.Tests.Deployment.{
  sets, Store, store, checksums, with_count, contents, add_books, remove_books, fill, effect,
  platform, status, names, sums,
}

pub civil : IsCivil platform
civil = record {
  error_text = λ req s resp e bad. let fine : resp.status_code ≡ 200 = ground arith in ground arith;
}

-- The answers to the queries are read as what there is.
pub answers_status :
    (s : Store) (sent : List Request)
    → (get_cluster_status platform client (record { cluster = s; sent = sent })).0 ≡ ok (status s)
unfolding get_cluster_status lookup insert String-discrete decimal show_int fields_of atoi add32
    parse_uint
answers_status (store true true h k) sent = refl
answers_status (store true false h k) sent = refl
answers_status (store false true h k) sent = refl
answers_status (store false false h k) sent = refl

pub answers_sets :
    (s : Store) (sent : List Request)
    → (get_config_sets platform client (record { cluster = s; sent = sent })).0 ≡ ok (names s)
unfolding get_config_sets lookup insert String-discrete
answers_sets (store b f true k) sent = refl
answers_sets (store b f false k) sent = refl

abbrev pub records : Store → List (GoMap Json)
records (store b f h k) =
    if k then (("collection", text "books") ∷ ("checksum", text "b1") ∷ []) ∷ [] else []

pub answers_query :
    (s : Store) (sent : List Request)
    → (query platform client checksums "*:*" (record { cluster = s; sent = sent })).0
      ≡ ok (records s)
unfolding query lookup insert String-discrete
answers_query (store b f h true) sent = refl
answers_query (store b f h false) sent = refl

pub checked : (s : Store) → read_checksums (records s) [] ≡ ok (sums s)
unfolding read_checksums lookup insert member String-discrete
checked (store b f h true) = refl
checked (store b f h false) = refl

-- What the commands on the names at hand do.
pub create_effect :
    (s : Store) → effect (create_collection_request client "books" "books" (pos 2)) s ≡ add_books s
unfolding effect create_collection_request String-discrete show_int decimal
create_effect (store b f h k) = refl

pub assign_effect : (s : Store) → effect (assign_alias_request client "books" "books") s ≡ s
unfolding effect assign_alias_request String-discrete show_int decimal
assign_effect (store b f h k) = refl

pub delete_alias_effect : (s : Store) → effect (delete_alias_request client "books") s ≡ s
unfolding effect delete_alias_request String-discrete show_int decimal
delete_alias_effect (store b f h k) = refl

pub delete_effect :
    (s : Store) → effect (delete_collection_request client "books") s ≡ remove_books s
unfolding effect delete_collection_request String-discrete show_int decimal
delete_effect (store b f h k) = refl

pub modify_effect :
    (s : Store) → effect (set_replication_factor_request client "books" (pos 2)) s ≡ s
unfolding effect set_replication_factor_request String-discrete show_int decimal
modify_effect (store b f h k) = refl

add_effect : (s : Store) → effect (add_replicas_request client checksums (pos 1)) s ≡ fill s
unfolding effect add_replicas_request String-discrete show_int decimal
add_effect (store b f h k) = refl

pub books_name : (n : String) → (n == "books") ≡ true → n ≡ "books"
books_name n h = ==→≡ n "books" h

unfoldable pub small_cluster : SolrCluster platform client (pos 2)
small_cluster = record {
  is_name = λ n. n == "books";
  contents = contents;
  has_config = λ s. (sets s).has_set;
  fresh = λ name config. record (with_count 2 name) { config_name = config };
  fresh-factor = λ name config. refl;
  accepts_create = λ name config h k. refl;
  accepts_assign = λ name target h k. refl;
  accepts_delete_alias = λ name h. refl;
  accepts_delete = λ name h. refl;
  accepts_modify = λ name h. refl;
  create-config = λ name config s h k n there.
      rw (books_name name h, books_name config k, create_effect s) (kept s n there);
  assign-config = λ name target s h k n there.
      rw (books_name name h, books_name target k, assign_effect s) there;
  create-collection = λ name config s h k stored absent unaliased positive n.
      rw (books_name name h, books_name config k, create_effect s)
        (created s n (ap (λ k. (sets s).has_set k) (sym (books_name config k)) ∙ stored));
  create-alias = λ name config s h k n. alias_none _ s n;
  assign-collection =
      λ name target s h k n. rw (books_name name h, books_name target k, assign_effect s) refl;
  assign-alias = λ name target s h k n t e.
      absurd (ground (arith, alias_none (effect (assign_alias_request client name target) s) s n));
  delete_alias-collection = λ name s h n. rw (books_name name h, delete_alias_effect s) refl;
  delete_alias-alias =
      λ name s h n t e. alias_none s (effect (delete_alias_request client name) s) n ∙ e;
  delete-collection =
      λ name s h untargeted n. rw (books_name name h, delete_effect s) (deleted s n);
  delete-alias = λ name s h n. alias_none _ s n;
  modify-collection = λ name s h positive n. rw (books_name name h, modify_effect s) (modified s n);
}
  where
    alias_none : (s t : Store) (n : String) → (contents s).alias n ≡ (contents t).alias n
    alias_none (store b f h k) (store b' f' h' k') n = refl

    kept :
        (s : Store) (n : String) → (sets s).has_set n ≡ true → (sets (add_books s)).has_set n ≡ true
    kept (store b f h k) n there = there

    created :
        (s : Store) (n : String)
        → (sets s).has_set "books" ≡ true
        → (contents (add_books s)).collection n
          ≡ (if n == "books" then some (with_count 2 "books") else (contents s).collection n)
    created (store true f true k) n there = ground arith
    created (store false f true k) n there = ground arith
    created (store b f false k) n there = absurd (ground arith)

    deleted :
        (s : Store) (n : String)
        → (contents (remove_books s)).collection n
          ≡ (if n == "books" then none else (contents s).collection n)
    deleted (store b f h k) n = ground arith

    modified :
        (s : Store) (n : String)
        → (contents s).collection n ≡ (
            if n == "books"
            then map_option
                (λ (x : Collection). record x { replication_factor = pos 2 })
                ((contents s).collection n)
            else (contents s).collection n)
    modified (store true f h k) n = ground arith
    modified (store false f h k) n = ground arith
