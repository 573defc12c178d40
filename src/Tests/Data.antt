-- ===== src/Tests/Data.antt =====
-- A platform whose Solr accepts every request, and a collection set with two collections.
use solr_collections_operato.Base.{
  ◌≡◌, refl, arith, ℕ, String, Bool, true, false, Option, none, some, List, [], ◌∷◌, ◌++◌, ◌<>◌,
  ◌==◌, if◌then◌else◌, String-discrete,
}
use solr_collections_operato.Base.Int.{pos}
use solr_collections_operato.Base.GoMap.{GoMap, lookup, NodupKeys, Order, IsFair}
use solr_collections_operato.Base.Outcome.{ok}
use solr_collections_operato.Api.{
  Condition, SolrCollection, SolrCollectionSet, SolrCollectionSetStatus, Settings,
}
use solr_collections_operato.Controller.Status.Stable.{condition_status}
use solr_collections_operato.Solr.{SolrClient, Collection}
use solr_collections_operato.Solr.Client.{parse_error}
use solr_collections_operato.Solr.Client.Delivery.{IsCivil}
use solr_collections_operato.Platform.{
  ConfigMap, listed, found, written, Request, Body, complete, broken, answered, malformed, Site,
  Platform, World,
}

abbrev pub in_order : Order Site
in_order = record { visit = λ s V m. m }

pub in_order-IsFair : IsFair in_order
in_order-IsFair = record {
  lookup-visit = λ s V m u k. refl;
  visit-NodupKeys = λ s V m u. u;
  length-visit = λ s V m. refl;
}

-- A condition takes the place of the one of its kind.
abbrev pub set_condition : List Condition → Condition → List Condition
set_condition [] new = new ∷ []
set_condition (c ∷ conditions) new =
    if c.kind == new.kind then new ∷ conditions else c ∷ set_condition conditions new

abbrev pub config_map : String → String → ConfigMap
config_map name text = record {
  name = name;
  labels = ("collection", name) ∷ [];
  contents = ("configset", text) ∷ [];
}

abbrev config_map_items : List ConfigMap
config_map_items = config_map "books" "b1" ∷ config_map "films" "f1" ∷ []

-- A collection set that is not active, with a condition and its defaults.
abbrev pub stored : SolrCollectionSet
stored = record {
  name = "library";
  namespace = "default";
  spec = record {
    solr_cluster_name = "cloud";
    solr_cluster_url = "http://solr/solr";
    secret_ref = "secret";
    active = some false;
    replication_factor = some (pos 2);
    blue_green_enabled = some false;
    cleanup_enabled = some false;
    collections = record { name = "books"; alias = "books"; configset_name = "books" } ∷ [];
  };
  status = record {
    conditions = record { kind = "Stable"; status = "True"; reason = "stable"; message = "" } ∷ [];
    replication_factor = pos 2;
    ready_ratio = "1/1";
    scale_status = "Stable";
    solr_collections = [];
  };
}

-- An archive is the list of its entries, and its bytes are their names and contents.
abbrev pub fill_last : String → List (String × String) → List (String × String)
fill_last text [] = []
fill_last text ((name, content) ∷ []) = (name, content <> text) ∷ []
fill_last text (a ∷ b ∷ archive) = a ∷ fill_last text (b ∷ archive)

abbrev pub archive_text : List (String × String) → String
archive_text [] = ""
archive_text ((name, content) ∷ archive) =
    name <> ("=" <> (content <> (";" <> archive_text archive)))

-- A platform on a given state of Solr, which answers every request with 200.
abbrev pub platform_on : (S : Type 0) → (Request → S → S) → Platform
platform_on S change = record {
  State = S;
  new_request = λ method url. none;
  do_request = λ req s. (
    answered (record { status_code = 200; status = "200 OK"; body = complete "" }),
    change req s,
  );
  unmarshal = λ body. malformed "no JSON";
  order = in_order;
  fetch = λ key s. found stored;
  update = λ set s. (written set, s);
  update_status = λ set s. (written set, s);
  patch_status = λ old set s. (written set, s);
  secret = λ key s. none;
  record_event = λ set kind text s. s;
  deep_equal = λ s1 s2. false;
  sort_by_instance = λ statuses. statuses;
  read_dir = λ dir. "schema.xml" ∷ "solrconfig.xml" ∷ [];
  read_file = λ path. path;
  Archive = List (String × String);
  zip_new = [];
  zip_create = λ name archive. ok (archive ++ ((name, "") ∷ []));
  zip_write = λ text archive. ok (fill_last text archive);
  zip_close = λ archive. ok (archive_text archive);
  list_config_maps = λ namespace set s. listed config_map_items;
  md5_hex = λ text. text;
  base64_decode = λ text. some text;
  set_status_condition = set_condition;
}

-- The state counts the requests that were answered; the HTTP library refuses no request.
abbrev pub platform : Platform
platform = platform_on ℕ (λ req s. ℕ.suc s)

pub platform-IsCivil : (S : Type 0) (change : Request → S → S) → IsCivil (platform_on S change)
unfolding parse_error
platform-IsCivil S change = record { error_text = λ req s resp e bad. error_text_of resp.body }
  where
    error_text_of :
        (body : Body) → (message : String) × (parse_error (platform_on S change) body ≡ ok message)
    error_text_of (complete body) = (_, refl)
    error_text_of (broken e) = (_, refl)

pub civil : IsCivil platform
civil = platform-IsCivil ℕ (λ req s. ℕ.suc s)

abbrev pub start : World platform
start = record { cluster = 0; sent = [] }

abbrev pub client : SolrClient
client = record { username = "solr"; password = "secret"; url = "http://solr/solr" }

abbrev pub books : SolrCollection
books = record { name = "books"; alias = "books"; configset_name = "books" }

abbrev pub films : SolrCollection
films = record { name = "films"; alias = "cinema"; configset_name = "" }

abbrev pub collection : String → ℕ → ℕ → Collection
collection name factor count = record {
  name = name;
  replication_factor = pos factor;
  replica_count = pos count;
  config_name = "conf";
}

abbrev pub specs : List SolrCollection
specs = books ∷ films ∷ []

abbrev pub no_status : SolrCollectionSetStatus
no_status = record {
  conditions = [];
  replication_factor = pos 0;
  ready_ratio = "";
  scale_status = "";
  solr_collections = [];
}

abbrev pub set_asking : Option Bool → Option Bool → List SolrCollection → SolrCollectionSet
set_asking is_blue_green is_cleanup collections = record {
  name = "library";
  namespace = "default";
  spec = record {
    solr_cluster_name = "cloud";
    solr_cluster_url = "http://solr/solr";
    secret_ref = "secret";
    active = some true;
    replication_factor = some (pos 2);
    blue_green_enabled = is_blue_green;
    cleanup_enabled = is_cleanup;
    collections = collections;
  };
  status = no_status;
}

abbrev pub set_of : Option Bool → Option Bool → SolrCollectionSet
set_of is_blue_green is_cleanup = set_asking is_blue_green is_cleanup specs

abbrev pub settings_of : Bool → Bool → Settings
settings_of is_blue_green is_cleanup = record {
  is_active = true;
  factor = pos 2;
  is_blue_green = is_blue_green;
  is_cleanup = is_cleanup;
}

-- One collection of the plain set is missing, one has another factor, and one is stray.
abbrev pub solr : GoMap Collection
solr =
    ("books", collection "books" 1 1)
    ∷ ("old", collection "old" 2 2)
    ∷ ("_libraryChecksums", collection "_libraryChecksums" 2 1)
    ∷ []

pub solr-NodupKeys : NodupKeys solr
unfolding lookup String-discrete
solr-NodupKeys = (refl, (refl, (refl, tt)))

abbrev pub aliases : GoMap String
aliases = ("shelf", "old") ∷ []

-- The plain set, as it should be.
abbrev pub settled : GoMap Collection
settled =
    ("films", collection "films" 2 2)
    ∷ ("books", collection "books" 2 1)
    ∷ ("_libraryChecksums", collection "_libraryChecksums" 1 1)
    ∷ []

pub set_condition-status :
    (conditions : List Condition) (c : Condition)
    → condition_status c.kind (set_condition conditions c) ≡ some c.status
set_condition-status [] c = ground arith
set_condition-status (old ∷ conditions) c = ground (arith, set_condition-status conditions c)
