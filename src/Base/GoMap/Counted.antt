-- ===== src/Base/GoMap/Counted.antt =====
-- A loop that counts the entries of a map, whatever the order it visits them in.
use mathlib.Core.Path.{◌≡◌, refl, sym, ◌∙◌}
use mathlib.Core.Bool.{Bool, false, ◌||◌}
use mathlib.Core.Option.{none, some}
use mathlib.Core.List.{[], ◌∷◌}
use native.Mathlib.Omega.{arith}
use Prim.Native.Nat.{ℕ, suc, ◌+◌}
use Prim.Native.String.{String}
use solr_collections_operato.Base.Logic.{◌==◌, if◌then◌else◌}
use solr_collections_operato.Base.GoMap.{
  GoMap, lookup, has_key, NodupKeys, Order, IsFair, lookup-nil, lookup-cons,
}

module _ {V : Type 0} where
  unfoldable pub count_values : (V → Bool) → GoMap V → ℕ
  count_values p [] = 0
  count_values p ((_, v) ∷ m) = let count = count_values p m in if p v then suc count else count

  -- delete(m, k)
  unfoldable erase : String → GoMap V → GoMap V
  erase k [] = []
  erase k ((j, v) ∷ m) = if k == j then m else (j, v) ∷ erase k m

  lookup-erase :
      (k : String) (m : GoMap V) (n : String)
      → NodupKeys m
      → lookup n (erase k m) ≡ (if n == k then none else lookup n m)
  unfolding erase lookup
  lookup-erase k [] n u = ground arith
  lookup-erase k ((j, v) ∷ m) n (fresh, u) = ground (arith, lookup-erase k m n u)

  erase-NodupKeys : (k : String) (m : GoMap V) → NodupKeys m → NodupKeys (erase k m)
  unfolding erase
  erase-NodupKeys k [] u = u
  erase-NodupKeys k ((j, v) ∷ m) (fresh, u) =
      ground (arith, erase-NodupKeys k m u, lookup-erase k m j u)

  count_values-erase :
      (p : V → Bool) (k : String) (m : GoMap V) (v : V)
      → lookup k m ≡ some v
      → count_values p m ≡ (if p v then 1 else 0) + count_values p (erase k m)
  unfolding erase count_values lookup
  count_values-erase p k [] v e = ground arith
  count_values-erase p k ((j, w) ∷ m) v e = ground (arith, count_values-erase p k m v)

  count_values-cons :
      (p : V → Bool) (k : String) (v : V) (m : GoMap V)
      → count_values p ((k, v) ∷ m) ≡ (if p v then 1 else 0) + count_values p m
  unfolding count_values
  count_values-cons p k v m = ground arith

  count_values-nil :
      (p : V → Bool) (m : GoMap V) → ((n : String) → lookup n m ≡ none) → count_values p m ≡ 0
  unfolding count_values
  count_values-nil p [] h = refl
  count_values-nil p ((k, v) ∷ m) h = ground (arith, h k, lookup-cons k k v m)

  pub lookup_self : (k : String) (v : V) (m : GoMap V) → lookup k ((k, v) ∷ m) ≡ some v
  lookup_self k v m = ground (arith, lookup-cons k k v m)

  -- Two maps with the same values under the same keys have the same count.
  count_values-lookup :
      (p : V → Bool) (m m' : GoMap V)
      → NodupKeys m
      → NodupKeys m'
      → ((n : String) → lookup n m ≡ lookup n m')
      → count_values p m ≡ count_values p m'
  unfolding count_values
  count_values-lookup p [] m' u u' h = sym (count_values-nil p m' (λ n. sym (h n) ∙ lookup-nil n))
  count_values-lookup p ((k, v) ∷ m) m' (fresh, u) u' h =
      let e : count_values p m ≡ count_values p (erase k m') =
        count_values-lookup p m (erase k m') u (erase-NodupKeys k m' u')
          (λ n. ground (arith, h n, lookup-cons n k v m, lookup-erase k m' n u')) in
      let there : lookup k m' ≡ some v = sym (h k) ∙ lookup_self k v m in
      omega (arith, e, count_values-cons p k v m, count_values-erase p k m' v there)

-- A count that has one key more than another.
pub count_values-more :
    {V : Type 0} (p q : V → Bool) (k : String) (m : GoMap V)
    → NodupKeys m
    → ((n : String) (v : V) → lookup n m ≡ some v → p v ≡ (n == k || q v))
    → ((v : V) → lookup k m ≡ some v → q v ≡ false)
    → count_values p m ≡ (if has_key k m then 1 else 0) + count_values q m
unfolding count_values has_key lookup
count_values-more p q k [] u agree apart = refl
count_values-more p q k ((j, v) ∷ m) (fresh, u) agree apart =
    let rest =
      count_values-more p q k m u (λ n w e. agree n w (ground (arith, lookup-cons n j v m)))
        (λ w e. apart w (ground (arith, lookup-cons k j v m))) in
    ground (arith, rest, agree j v (lookup_self j v m), apart v)

module _ {Site : Type 0} (o : Order Site) (fair : IsFair o) where
  pub count_values-visit :
      {V : Type 0} (p : V → Bool) (s : Site) (m : GoMap V)
      → NodupKeys m
      → count_values p (o.visit s V m) ≡ count_values p m
  count_values-visit {V} p s m u =
      count_values-lookup p (o.visit s V m) m (fair.visit-NodupKeys s V m u) u
        (fair.lookup-visit s V m u)
