-- ===== src/Base/Text.antt =====
-- The functions of Go's package `strings` that the sources call. Go's strings are bytes; those of
-- the sources are valid UTF-8, so a text is a list of characters here, which these functions treat
-- alike.
use Prim.Native.Nat.{ℕ}
use Prim.Native.Char.{Char, code}
use Prim.Native.String.{String, [], ◌∷◌, ◌++◌ as ◌<>◌, count}
use mathlib.Core.Path.{◌≡◌, refl, ap, sym, ◌∙◌}
use mathlib.Core.Logic.{◌≢◌, inl, inr}
use mathlib.Core.Bool.{Bool, false, ◌||◌}
use native.Mathlib.Omega.{arith}
use text.Mathlib.Text.{starts_with}
use text.Mathlib.TextLemmas.{length-append, length-cons, cons-append, nil-append}
use solr_collections_operato.Base.Logic.{◌==◌, if◌then◌else◌, ==_refl, ==→≡, Bool-cases}

-- strings.HasPrefix(s, prefix)
abbrev pub has_prefix : String → String → Bool
has_prefix s prefix = starts_with s prefix

-- strings.Contains(s, t): `t` starts at some position of `s`.
unfoldable pub has_infix : String → String → Bool
has_infix [] t = t == []
has_infix (c ∷ s) t = starts_with (c ∷ s) t || has_infix s t

-- strings.TrimSuffix(s, suffix): the text in front of `suffix`, or `s` if it does not end in it.
unfoldable pub trim_suffix : String → String → String
trim_suffix [] suffix = []
trim_suffix (c ∷ s) suffix = if (c ∷ s) == suffix then [] else c ∷ trim_suffix s suffix

trim_suffix_self : (c : Char) (s : String) → trim_suffix (c ∷ s) (c ∷ s) ≡ []
unfolding trim_suffix
trim_suffix_self c s = rw ==_refl

longer-ne : (c : Char) (s t : String) → ((c ∷ (s <> t)) == t) ≡ false
longer-ne c s t = elim (Bool-cases ((c ∷ (s <> t)) == t)) [
  | inl e ↦ absurd (omega (arith, ap count (==→≡ _ _ e), length-append s t, length-cons c (s <> t)))
  | inr e ↦ e
]

-- A suffix that was appended is cut off again.
pub trim_suffix-append : (s suffix : String) → trim_suffix (s <> suffix) suffix ≡ s
unfolding trim_suffix
trim_suffix-append [] [] = refl
trim_suffix-append [] (c ∷ t) = rw nil-append (trim_suffix_self c t)
trim_suffix-append (c ∷ s) suffix =
    rw (cons-append, trim_suffix, longer-ne c s suffix)
      (ap (λ r. c ∷ r) (trim_suffix-append s suffix))

-- The code of the last character, or `d` where there is none.
abbrev last : ℕ → String → ℕ
last d [] = d
last d (c ∷ s) = last (code c) s

last-append : (d : ℕ) (s : String) (c : Char) (t : String) → last d (s <> (c ∷ t)) ≡ last (code c) t
last-append d [] c t = rw nil-append
last-append d (b ∷ s) c t = rw cons-append (last-append (code b) s c t)

trim_suffix-last :
    (d : ℕ) (s : String) (c : Char) (t : String)
    → last d s ≢ last (code c) t
    → trim_suffix s (c ∷ t) ≡ s
unfolding trim_suffix
trim_suffix-last d [] c t h = refl
trim_suffix-last d (b ∷ s) c t h = elim (Bool-cases ((b ∷ s) == (c ∷ t))) [
  | inl e ↦ absurd (h (ap (last d) (==→≡ _ _ e)))
  | inr e ↦ rw e (ap (λ r. b ∷ r) (trim_suffix-last (code b) s c t h))
]

-- A text that ends in another character than the suffix stays as it is.
pub trim_suffix_other :
    (s : String) (a : Char) (r : String) (c : Char) (t : String)
    → last (code a) r ≢ last (code c) t
    → trim_suffix (s <> (a ∷ r)) (c ∷ t) ≡ s <> (a ∷ r)
trim_suffix_other s a r c t h =
    trim_suffix-last 0 (s <> (a ∷ r)) c t (λ e. h (sym (last-append 0 s a r) ∙ e))
