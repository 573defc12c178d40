-- ===== src/Tests/Zip.antt =====
-- The archive of the config set for checksums, on a platform whose archives are lists.
use text.Mathlib.TextLemmas.{nil-append as nil_text}
use solr_collections_operato.Base.{◌≡◌, refl, ◌∙◌, ap, String, List, [], ◌∷◌, ◌++◌}
use solr_collections_operato.Base.Outcome.{ok}
use solr_collections_operato.Controller.Zip.{IsArchiver, zip, zip-IsZipOf}
use solr_collections_operato.Tests.Data.{platform, fill_last, archive_text}

fill_last-append :
    (text name : String) (before : List (String × String))
    → fill_last text (before ++ ((name, "") ∷ [])) ≡ before ++ ((name, text) ∷ [])
fill_last-append text name [] = ap (λ (t : String). (name, t) ∷ []) (nil_text text)
fill_last-append text name (a ∷ []) = ap (λ (t : String). a ∷ (name, t) ∷ []) (nil_text text)
fill_last-append text name (a ∷ b ∷ before) =
    ap (λ m. a ∷ m) (fill_last-append text name (b ∷ before))

archiver : IsArchiver platform
archiver = record {
  members = λ a. a;
  IsZipOf = λ ms bytes. archive_text ms ≡ bytes;
  members-new = refl;
  create = λ name a. (_, refl, refl);
  write =
      λ text a before name e. (_, refl, ap (fill_last text) e ∙ fill_last-append text name before);
  close = λ a. (_, refl, refl);
}

zip-IsZipOf_example :
    (bytes : String) × (zip platform "checksum_collection_configset" ≡ ok bytes)
    × (archive_text (
          ("schema.xml", "checksum_collection_configset/schema.xml")
          ∷ ("solrconfig.xml", "checksum_collection_configset/solrconfig.xml")
          ∷ [])
        ≡ bytes)
unfolding archiver
zip-IsZipOf_example = zip-IsZipOf platform archiver "checksum_collection_configset"
