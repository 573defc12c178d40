-- ===== src/Tests/Scaling.antt =====
-- A small Solr that puts replicas on its nodes, and runs of `AdjustReplicas` on it.
use mathlib.Core.Option.{map as map_option}
use solr_collections_operato.Base.{
  ℕ, ◌-◌, ◌≤◌, ◌<◌, ◌≡◌, refl, String, Bool, true, false, ◌&&◌, Option, none, some, [], ◌∷◌, arith,
  ltb, ◌==◌, if◌then◌else◌, String-discrete,
}
use solr_collections_operato.Base.Int.{pos, ltb_ℤ}
use solr_collections_operato.Base.Text.{has_infix}
use solr_collections_operato.Base.GoMap.{GoMap, lookup, insert}
use solr_collections_operato.Base.Outcome.{ok}
use solr_collections_operato.Solr.{AreNamed, Collection}
use solr_collections_operato.Solr.Json.{text, object, field, no_fields, member}
use solr_collections_operato.Solr.Client.{parse_error, error_message}
use solr_collections_operato.Solr.Client.Commands.{
  add_replicas, add_replicas_request, remove_replicas_request,
}
use solr_collections_operato.Solr.Replicas.{ReplicaStore, IsWaiting}
use solr_collections_operato.Solr.ConfigStore.{IsFine}
use solr_collections_operato.Platform.{Request, answered, complete, decoded, Platform, World}
use solr_collections_operato.Api.{SolrCollectionSet, settings}
use solr_collections_operato.Controller.Names.{map_collections}
use solr_collections_operato.Controller.Replicas.{
  queue_all, queue_named, queue_adjustments, run_adjustments, adjust_replicas,
}
use solr_collections_operato.Controller.Replicas.Converged.{
  AreCounted, Scales, adjust_replicas-Scales,
}
use solr_collections_operato.Tests.Data.{
  in_order-IsFair as fair, platform_on, client, collection, books, set_asking, settings_of,
}

-- The collection of books, and the number of nodes.
record Store : Type 0 where
  pub books : Option Collection
  pub nodes : ℕ

abbrev scaled : Store → Store
scaled s = record s {
  books = map_option (λ (x : Collection). record x { replica_count = pos 2 }) s.books;
}

-- The collection lacks a replica, and there is no node for it.
abbrev is_short : Store → Bool
is_short s = elim s.books [ none ↦ false | some x ↦ ltb_ℤ x.replica_count (pos 2) && ltb s.nodes 2 ]

abbrev small : Platform
small = record (platform_on Store (λ req s. s)) {
  do_request = λ req s.
      if is_short s
      then (answered (record { status_code = 400; status = "400"; body = complete "" }), s)
      else (
        answered (record { status_code = 200; status = "200 OK"; body = complete "" }),
        scaled s,
      );
  unmarshal = λ body. decoded (
      (
        "error",
        object (field "msg" (text "Not enough eligible nodes to place 1 replica") no_fields),
      )
      ∷ []);
}

abbrev contents : Store → String → Option Collection
contents s n = if n == "books" then s.books else none

module _ (name : String) (x : Collection) (m : ℕ) (s : Store) (h : (name == "books") ≡ true)
    (there : contents s name ≡ some x) (counted : x.replica_count ≡ pos m) where
  books_there : s.books ≡ some x
  books_there = ground arith

  not_short_add : 2 ≤ s.nodes → is_short s ≡ false
  not_short_add enough = rw (books_there, counted) (ground arith)

  not_short_remove : 2 < m → is_short s ≡ false
  not_short_remove many = rw (books_there, counted) (ground arith)

  short : m < 2 → s.nodes < 2 → is_short s ≡ true
  short few nodes = rw (books_there, counted) (ground arith)

  scaled_contents :
      (n : String)
      → contents (scaled s) n
        ≡ (if n == name then some (record x { replica_count = pos 2 }) else contents s n)
  scaled_contents n = rw books_there (ground arith)

  -- A request that is not short of nodes.
  IsFine-answer : (req : Request) → is_short s ≡ false → IsFine small req s
  IsFine-answer req e =
      (refl, (record { status_code = 200; status = "200 OK"; body = complete "" }, rw e refl, refl))

  effect_of :
      (req : Request)
      → is_short s ≡ false
      → (n : String)
      → contents (small.do_request req s).1 n
        ≡ (if n == name then some (record x { replica_count = pos 2 }) else contents s n)
  effect_of req e n = rw e (scaled_contents n)

  nodes_of : (req : Request) → is_short s ≡ false → (small.do_request req s).1.nodes ≡ s.nodes
  nodes_of req e = rw e refl

  IsWaiting-answer : (req : Request) → is_short s ≡ true → IsWaiting small req s
  unfolding parse_error error_message member lookup String-discrete has_infix
  IsWaiting-answer req e = record {
    accepted = refl;
    response = record { status_code = 400; status = "400"; body = complete "" };
    there = rw e refl;
    failed = refl;
    message = "Not enough eligible nodes to place 1 replica";
    read = refl;
    is_about_nodes = refl;
  }

small_replicas : ReplicaStore small client 2
small_replicas = record {
  is_name = λ n. n == "books";
  collection = contents;
  nodes = λ s. s.nodes;
  add = λ name x m s h there counted few enough.
      let e = not_short_add name x m s h there counted enough in
      let req = add_replicas_request client name (pos (2 - m)) in
      (
        IsFine-answer name x m s h there counted req e,
        effect_of name x m s h there counted req e,
        nodes_of name x m s h there counted req e,
      );
  wait = λ name x m s h there counted few nodes.
      let e = short name x m s h there counted few nodes in
      (IsWaiting-answer name x m s h there counted _ e, λ n. rw e refl);
  remove = λ name x m s h there counted many positive.
      let e = not_short_remove name x m s h there counted many in
      let req = remove_replicas_request client name (pos (m - 2)) in
      (
        IsFine-answer name x m s h there counted req e,
        effect_of name x m s h there counted req e,
        nodes_of name x m s h there counted req e,
      );
}

abbrev library : SolrCollectionSet
library = set_asking (some false) (some true) (books ∷ [])

abbrev reported : GoMap Collection
reported = ("books", collection "books" 2 1) ∷ []

abbrev start : ℕ → World small
start nodes = record {
  cluster = record { books = some (collection "books" 2 1); nodes = nodes };
  sent = [];
}

-- With one node the run asks for a later one.
waits : (adjust_replicas small client library reported "_libraryChecksums" (start 1)).0 ≡ ok true
unfolding adjust_replicas queue_adjustments queue_all queue_named map_collections run_adjustments
    add_replicas String-discrete lookup insert parse_error error_message member has_infix
waits = refl

reads : (n : String) → lookup n reported ≡ contents (start 3).cluster n
unfolding lookup
reads n = ground arith

named : AreNamed reported
unfolding lookup
named n x e = ground arith

counts : AreCounted small_replicas reported
unfolding lookup small_replicas
counts = record {
  count = λ n. 1;
  counted = λ n x e. (ground arith, omega arith);
  named = λ n x e. ground arith;
}

adjust_replicas-Scales_example :
    Scales small client 2
      (settings_of false true)
      small_replicas
      library
      "_libraryChecksums"
      (start 3)
      (adjust_replicas small client library reported "_libraryChecksums" (start 3))
unfolding settings small_replicas
adjust_replicas-Scales_example =
    adjust_replicas-Scales small fair client 2 (settings_of false true) small_replicas library
      reported "_libraryChecksums" (start 3) (omega arith) (omega arith) refl reads named counts
      refl
