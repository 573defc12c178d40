-- ===== src/Base/Exec.antt =====
-- Go code with effects: a function of the state whose outcome is returned with the state it leaves.
use Prim.Native.String.{String}
use mathlib.Core.Path.{◌≡◌, refl}
use solr_collections_operato.Base.Outcome.{Outcome, ok, err, panic}

abbrev pub Exec : Type 0 → Type 0 → Type 0
Exec S A = S → Outcome A × S

module _ {S A B : Type 0} where
  abbrev pub resume : (A → Exec S B) → Outcome A × S → Outcome B × S
  resume f (ok a, s) = f a s
  resume f (err e, s) = (err e, s)
  resume f (panic, s) = (panic, s)

  -- if err != nil { return err }
  infixl 5 ◌>>=◌
  abbrev pub ◌>>=◌ : Exec S A → (A → Exec S B) → Exec S B
  ◌>>=◌ m f s = resume f (m s)

module _ {S B : Type 0} where
  infixl 5 ◌>>◌
  abbrev pub ◌>>◌ : Exec S (Unit {0}) → Exec S B → Exec S B
  ◌>>◌ m k s = resume (λ _. k) (m s)

module _ {S A : Type 0} where
  abbrev pub lift : Outcome A → Exec S A
  lift r s = (r, s)

  abbrev pub pure : A → Exec S A
  pure a s = (ok a, s)

  abbrev pub raise : String → Exec S A
  raise e s = (err e, s)

  -- if err != nil { return fmt.Errorf(…) }: another error takes the place of the error.
  abbrev replaced : String → Outcome A × S → Outcome A × S
  replaced e (ok a, s) = (ok a, s)
  replaced e (err _, s) = (err e, s)
  replaced e (panic, s) = (panic, s)

  abbrev pub or_error : String → Exec S A → Exec S A
  or_error e m s = replaced e (m s)

-- if err != nil { logger.Error(err, …) }: the error is logged, and the code goes on.
module _ {S : Type 0} where
  abbrev tolerated : Outcome (Unit {0}) × S → Outcome (Unit {0}) × S
  tolerated (ok _, s) = (ok tt, s)
  tolerated (err _, s) = (ok tt, s)
  tolerated (panic, s) = (panic, s)

  abbrev pub log_error : Exec S (Unit {0}) → Exec S (Unit {0})
  log_error m s = tolerated (m s)

-- A run is known by its outcome and the state it leaves.
pub is-pair : {A B : Type 0} (p : A × B) {a : A} {b : B} → p.0 ≡ a → p.1 ≡ b → p ≡ (a, b)
is-pair (x, y) e f = rw (e, f) refl

-- What leaves the state alone adds nothing to a run.
pub resume_world :
    {S A B : Type 0} (f : A → Exec S B) (r : Outcome A × S)
    → ((a : A) (s : S) → (f a s).1 ≡ s)
    → (resume f r).1 ≡ r.1
resume_world f (ok a, s) keeps = keeps a s
resume_world f (err e, s) keeps = refl
resume_world f (panic, s) keeps = refl
