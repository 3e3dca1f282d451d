-- ===== src/Base/Monad.antt =====
-- Go functions that change a state and return a value or an error. What was done before an error
-- stays done, so the state comes back beside the error too.
use mathlib.Core.Path.{◌≡◌, refl}
use mathlib.Core.Logic.{◌⊎◌, inl, inr}
use mathlib.Core.Bool.{Bool, true, false}
use mathlib.Core.Option.{Option, none, some}
use Prim.Native.String.{String}
use agent_inference_ethden.Base.Errors.{Error, wrap, Result, ok, err}

abbrev pub Exec {ℓ} : Type ℓ → Type ℓ → Type ℓ
Exec S A = S → Result A × S

module _ {ℓ} {A : Type ℓ} where
  abbrev pub annotated : String → Result A → Result A
  annotated msg (ok a) = ok a
  annotated msg (err e) = err (wrap msg e)

  abbrev replaced : Error → Result A → Result A
  replaced e (ok a) = ok a
  replaced e (err _) = err e

module _ {ℓ} {S A : Type ℓ} where
  abbrev pub pure : A → Exec S A
  pure a s = (ok a, s)

  abbrev pub raise : Error → Exec S A
  raise e s = (err e, s)

  abbrev pub lift : Result A → Exec S A
  lift r s = (r, s)

  abbrev pub gets : (S → A) → Exec S A
  gets f s = (ok (f s), s)

  -- `if err != nil { return fmt.Errorf(msg + "%w", err) }`
  abbrev pub annotate : String → Exec S A → Exec S A
  annotate msg m s = let (r, s') = m s in (annotated msg r, s')

  -- `if err != nil { return e }`, where the code drops the cause.
  abbrev pub or_fail : Error → Exec S A → Exec S A
  or_fail e m s = let (r, s') = m s in (replaced e r, s')

module _ {S A : Type 0} where
  -- A call whose error is looked at, and does not end the caller.
  abbrev pub try : Exec S A → Exec S (Result A)
  try m s = let (r, s') = m s in (ok r, s')

module _ {ℓ} {S A B : Type ℓ} where
  abbrev continue : Result A → (A → Exec S B) → Exec S B
  continue (ok a) f s = f a s
  continue (err e) f s = (err e, s)

  infixl 10 ◌>>=◌
  abbrev pub ◌>>=◌ : Exec S A → (A → Exec S B) → Exec S B
  ◌>>=◌ m f s = let (r, s') = m s in continue r f s'

module _ {S B : Type 0} where
  infixl 10 ◌>>◌
  abbrev pub ◌>>◌ : Exec S (Unit {0}) → Exec S B → Exec S B
  m >> n = m >>= λ _. n

module _ {S : Type 0} where
  abbrev pub modify : (S → S) → Exec S (Unit {0})
  modify f s = (ok tt, f s)

  abbrev pub raise_if : Bool → Error → Exec S (Unit {0})
  raise_if true e s = (err e, s)
  raise_if false e s = (ok tt, s)

  -- `if err := ...; err != nil { return fmt.Errorf(msg + "%w", err) }`
  abbrev pub raise_some : Option Error → String → Exec S (Unit {0})
  raise_some none msg s = (ok tt, s)
  raise_some (some e) msg s = (err (wrap msg e), s)

module _ {A : Type 0} where
  abbrev pub ok_or : Option A → Error → Result A
  ok_or none e = err e
  ok_or (some a) e = ok a

  pub Result-cases : (r : Result A) → ((a : A) × (r ≡ ok a)) ⊎ ((e : Error) × (r ≡ err e))
  Result-cases (ok a) = inl (a, refl)
  Result-cases (err e) = inr (e, refl)

module _ {A : Type 0} where
  pub ok-injective : (a b : A) → ok a ≡ ok b → a ≡ b
  ok-injective a b e = cc
