-- ===== src/Controller/Names/Colored.antt =====
-- The names of instances, and the names that aliases point to.
use solr_collections_operato.Base.{
  ◌≡◌, refl, ap, ◌∙◌, String, ◌<>◌, Bool, ◌||◌, [], ◌∷◌, arith, ltb, ◌==◌,
}
use solr_collections_operato.Base.Text.{trim_suffix, trim_suffix-append, trim_suffix_other}
use solr_collections_operato.Base.GoMap.{
  GoMap, Order, IsFair, has_key, insert, NodupKeys, lookup-insert,
}
use solr_collections_operato.Base.GoMap.Counted.{count_values, count_values-visit}
use solr_collections_operato.Controller.Names.{blue, green, trim_color, reverse_aliases}

-- The name of a collection of the spec that does not end in _green is what is left of the names of its
-- two instances.
pub trim_color-instance :
    (name : String)
    → trim_suffix name green ≡ name
    → (trim_color (name <> blue) ≡ name) × (trim_color (name <> green) ≡ name)
unfolding trim_color
trim_color-instance name h = (
  ap (λ s. trim_suffix s green) (trim_suffix-append name blue) ∙ h,
  ap (λ s. trim_suffix s green) (trim_suffix_other name _ _ _ _ (λ e. omega (arith, e)))
      ∙ trim_suffix-append name green,
)

-- Some alias points to the collection.
unfoldable pub is_target : GoMap String → String → Bool
unfolding count_values
is_target aliases name = ltb 0 (count_values (λ target. name == target) aliases)

has_key-reverse_aliases_onto :
    (aliases m : GoMap String) (name : String)
    → has_key name (reverse_aliases aliases m) ≡ (is_target aliases name || has_key name m)
unfolding reverse_aliases is_target count_values has_key
has_key-reverse_aliases_onto [] m name = refl
has_key-reverse_aliases_onto ((alias, target) ∷ aliases) m name = ground (
  arith,
  has_key-reverse_aliases_onto aliases (insert target alias m) name,
  lookup-insert name target alias m,
)

-- Whatever the order of the loop, the reversed map has the names that aliases point to.
pub has_key-reverse_aliases :
    {Site : Type 0} (o : Order Site)
    → IsFair o
    → (s : Site) (aliases : GoMap String) → NodupKeys aliases
    → (name : String)
    → has_key name (reverse_aliases (o.visit s String aliases) []) ≡ is_target aliases name
unfolding is_target has_key
has_key-reverse_aliases o fair s aliases u name = ground (
  arith,
  has_key-reverse_aliases_onto (o.visit s String aliases) [] name,
  count_values-visit o fair (λ target. name == target) s aliases u,
)
