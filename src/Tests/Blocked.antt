-- ===== src/Tests/Blocked.antt =====
-- A Solr on which a config set that is to be removed is in use.
use solr_collections_operato.Base.{
  ◌≡◌, refl, true, false, List, [], ◌∷◌, ◌++◌, arith, ◌==◌, if◌then◌else◌, String-discrete,
}
use solr_collections_operato.Base.Decimal.{decimal, show_int, atoi, parse_uint}
use solr_collections_operato.Base.Int.{add32}
use solr_collections_operato.Base.GoMap.{lookup, insert, has_key}
use solr_collections_operato.Api.{settings}
use solr_collections_operato.Platform.{
  Request, NamespacedName, complete, answered, listed, Platform, World,
}
use solr_collections_operato.Solr.Client.Commands.{delete_config_set_request}
use solr_collections_operato.Solr.Client.Delivery.{accepted}
use solr_collections_operato.Solr.Client.Queries.{get_config_sets, query}
use solr_collections_operato.Controller.Names.{contains}
use solr_collections_operato.Controller.ConfigSets.{map_config_maps, read_checksums}
use solr_collections_operato.Controller.ConfigSets.Refused.{KeepsUsed}
use solr_collections_operato.Controller.Reconcile.Loop.{manage}
use solr_collections_operato.Controller.ConfigSets.Queried.{ConfigQueries, config_requests}
use solr_collections_operato.Controller.Reconcile.Blocked.{manage_blocked}
use solr_collections_operato.Tests.Data.{in_order-IsFair as fair, client, settings_of}
use solr_collections_operato.Tests.Quiet.{quiet, cluster, set}

-- The config maps are gone, and Solr does not delete the config set.
abbrev stuck : Platform
stuck = record quiet {
  do_request = λ req s.
      if req.url == (delete_config_set_request client "books").url
      then (answered (record { status_code = 400; status = "400"; body = complete req.url }), s)
      else (answered (record { status_code = 200; status = "200 OK"; body = complete req.url }), s);
  list_config_maps = λ namespace name s. listed [];
}

abbrev start : World stuck
start = record { cluster = 0; sent = [] }

books_used : KeepsUsed stuck client "books"
unfolding delete_config_set_request String-discrete
books_used = record {
  is_used = λ s. true;
  refused = λ s used (made, (resp, there, fine)). ground arith;
  after_upload = λ n content s used. refl;
  after_write = λ n content s used. refl;
  after_delete = λ n s used. refl;
}

queries : ConfigQueries stuck client set "_libraryChecksums" start
unfolding get_config_sets query map_config_maps read_checksums lookup insert String-discrete decimal
    show_int atoi add32 parse_uint delete_config_set_request
queries = record {
  names = "books" ∷ [];
  config_sets = refl;
  items = [];
  config_maps = refl;
  maps = [];
  mapped = refl;
  records = _;
  answered = refl;
  checksums = ("books", "b1") ∷ [];
  checked = refl;
}

abbrev key : NamespacedName
key = record { name = "library"; namespace = "default" }

manage_blocked_example :
    (done left : List Request) × (done ++ left
      ≡ config_requests stuck client set "_libraryChecksums" start (settings_of false true) queries)
    × ((manage stuck key set cluster "_libraryChecksums"
          (record { world = start; solr_client = client })).1.world.sent
        ≡ [] ++ accepted stuck done)
unfolding settings books_used queries contains has_key lookup String-discrete
manage_blocked_example =
    manage_blocked stuck key set fair client "books" books_used cluster "_libraryChecksums" start
      (settings_of false true) queries refl refl refl refl refl
