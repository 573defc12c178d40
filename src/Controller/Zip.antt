-- ===== src/Controller/Zip.antt =====
-- internal/controller/utils/zip_util.go: the archive of an embedded directory.
use mathlib.Core.Path.{subst}
use mathlib.Core.List.{append_assoc, append-nil}
use solr_collections_operato.Base.{◌≡◌, refl, ◌∙◌, ap, String, ◌<>◌, List, [], ◌∷◌, ◌++◌, map}
use solr_collections_operato.Base.Outcome.{Outcome, ok, ◌>>=◌}
use solr_collections_operato.Platform.{Platform}

module _ (P : Platform) where
  -- The loop over the entries.
  unfoldable pub zip_files : String → List String → P.Archive → Outcome P.Archive
  zip_files dir [] archive = ok archive
  zip_files dir (name ∷ names) archive = do
    created ← P.zip_create name archive
    filled ← P.zip_write (P.read_file (dir <> ("/" <> name))) created
    zip_files dir names filled

  unfoldable pub zip : String → Outcome String
  unfolding zip_files
  zip dir = do archive ← zip_files dir (P.read_dir dir) P.zip_new; P.zip_close archive

-- What the package archive/zip does, where its writer writes to memory: `members` are the entries that
-- an archive has, and `IsZipOf` is the format of its bytes.
pub record IsArchiver (P : Platform) : Type 1 where
  pub members : P.Archive → List (String × String)
  pub IsZipOf : List (String × String) → String → Type 0
  pub members-new : members P.zip_new ≡ []
  pub create :
      (name : String) (a : P.Archive)
      → (a' : P.Archive) × (P.zip_create name a ≡ ok a')
        × (members a' ≡ members a ++ ((name, "") ∷ []))
  pub write :
      (text : String) (a : P.Archive) (before : List (String × String)) (name : String)
      → members a ≡ before ++ ((name, "") ∷ [])
      → (a' : P.Archive) × (P.zip_write text a ≡ ok a')
        × (members a' ≡ before ++ ((name, text) ∷ []))
  pub close :
      (a : P.Archive) → (bytes : String) × (P.zip_close a ≡ ok bytes) × IsZipOf (members a) bytes

module _ (P : Platform) (archiver : IsArchiver P) (dir : String) where
  abbrev pub member_of : String → String × String
  member_of name = (name, P.read_file (dir <> ("/" <> name)))

  zip_files-members :
      (names : List String) (a : P.Archive)
      → (a' : P.Archive) × (zip_files P dir names a ≡ ok a')
        × (archiver.members a' ≡ archiver.members a ++ map member_of names)
  unfolding zip_files
  zip_files-members [] a = (a, refl, rw append-nil)
  zip_files-members (name ∷ names) a =
      let (created, e, has) = archiver.create name a in
      let (filled, f, full) =
        archiver.write (P.read_file (dir <> ("/" <> name))) created (archiver.members a) name has in
      let (a', g, rest) = zip_files-members names filled in
      (
        a',
        rw (e, f) g,
        rest
            ∙ ap (λ m. m ++ map member_of names) full
            ∙ append_assoc (archiver.members a) (member_of name ∷ []) (map member_of names),
      )

  -- Where the package archive/zip makes archives as it should: Zip returns bytes, and these are an
  -- archive with the files of the directory and nothing else, in the order of the directory and each
  -- with its contents.
  pub zip-IsZipOf :
      (bytes : String) × (zip P dir ≡ ok bytes)
      × archiver.IsZipOf (map member_of (P.read_dir dir)) bytes
  unfolding zip
  zip-IsZipOf =
      let (a, e, has) = zip_files-members (P.read_dir dir) P.zip_new in
      let (bytes, f, same) = archiver.close a in
      (
        bytes,
        rw e f,
        subst (λ m. archiver.IsZipOf m bytes)
            (has ∙ ap (λ m. m ++ map member_of (P.read_dir dir)) archiver.members-new) same,
      )
