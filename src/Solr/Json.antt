-- ===== src/Solr/Json.antt =====
-- The dynamic values that `json.Unmarshal` builds, and the type assertions that the client makes on
-- them.
use solr_collections_operato.Base.{String, Bool, none, some, List, [], ◌∷◌}
use solr_collections_operato.Base.Int.{ℤ, pos, to_int32}
use solr_collections_operato.Base.Decimal.{atoi}
use solr_collections_operato.Base.GoMap.{GoMap, lookup}
use solr_collections_operato.Base.Outcome.{Outcome, ok, panic}

-- An `interface{}` as the Kubernetes JSON package fills it: a whole number is an `int64`, any other
-- number a `float64`, kept as its text.
mutual
  pub data Json : Type 0 where
    null : Json
    bool : Bool → Json
    int64 : ℤ → Json
    float64 : String → Json
    text : String → Json
    array : Items → Json
    object : Fields → Json

  pub data Items : Type 0 where
    end : Items
    item : Json → Items → Items

  pub data Fields : Type 0 where
    no_fields : Fields
    field : String → Json → Fields → Fields

abbrev pub entries : Fields → GoMap Json
entries no_fields = []
entries (field k v fs) = (k, v) ∷ entries fs

abbrev pub elements : Items → List Json
elements end = []
elements (item v vs) = v ∷ elements vs

-- v.(map[string]interface{})
abbrev pub as_object : Json → Outcome (GoMap Json)
as_object (object fs) = ok (entries fs)
as_object _ = panic

-- v.([]interface{})
abbrev pub as_array : Json → Outcome (List Json)
as_array (array vs) = ok (elements vs)
as_array _ = panic

-- v.(string)
abbrev pub as_text : Json → Outcome String
as_text (text s) = ok s
as_text _ = panic

-- m[k]: nil where the key is missing.
unfoldable pub member : String → GoMap Json → Json
unfolding lookup
member k m = elim (lookup k m) [ none ↦ null | some v ↦ v ]

-- The switch on the kind of the value; nil has no kind, and asking for it panics. The case "int32" is
-- missing: `json.Unmarshal` builds no such value.
unfoldable pub interface_to_int32 : Json → Outcome ℤ
unfolding to_int32
interface_to_int32 null = panic
interface_to_int32 (int64 z) = ok (to_int32 z)
interface_to_int32 (text s) = ok (to_int32 (atoi s))
interface_to_int32 _ = ok (pos 0)
