-- ===== src/Tests/Defaults.antt =====
-- The defaults at concrete data.
use text.Mathlib.TextEquality.{eq_iff}
use solr_collections_operato.Base.{
  ◌≡◌, ◌≢◌, refl, String, true, false, none, some, [], ◌∷◌, arith, String-discrete,
}
use solr_collections_operato.Base.Outcome.{ok}
use solr_collections_operato.Api.{SolrCollectionSet, settings, with_defaults}
use solr_collections_operato.Api.Defaults.{
  with_defaults_idem, with_defaults_unchanged, settings-with_defaults,
}
use solr_collections_operato.Tests.Data.{set_of, settings_of, books}

-- The config set of the second collection and the clean-up are filled in.
abbrev draft : SolrCollectionSet
draft = set_of (some false) none

draft_changed : (with_defaults draft).1 ≡ true
unfolding with_defaults String-discrete
draft_changed = refl

not_empty : ◌≢◌ {A = String} "books" ""
not_empty = ground (arith, eq_iff "books" "")

films_not_empty : ◌≢◌ {A = String} "films" ""
films_not_empty = ground (arith, eq_iff "films" "")

with_defaults_idem_example :
    with_defaults (with_defaults draft).0 ≡ ((with_defaults draft).0, false)
with_defaults_idem_example = with_defaults_idem draft (not_empty, (films_not_empty, tt))

abbrev complete : SolrCollectionSet
complete = record draft {
  spec = record draft.spec { cleanup_enabled = some true; collections = books ∷ [] };
}

with_defaults_unchanged_example : (with_defaults complete).0 ≡ complete
with_defaults_unchanged_example =
    with_defaults_unchanged complete (unfold with_defaults String-discrete in refl)

settings-with_defaults_example :
    settings (with_defaults draft).0.spec ≡ ok (settings_of false false)
settings-with_defaults_example = settings-with_defaults draft
