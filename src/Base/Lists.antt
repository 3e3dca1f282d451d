-- ===== src/Base/Lists.antt =====
-- Lists measured and cut by native numbers, under the library's names, and byte strings.
use Prim.Native.Nat.{ℕ, zero, suc, ◌+◌, ◌≤◌, ◌<◌}
use mathlib.Core.Path.{◌≡◌, refl, ap, ◌∙◌}
use mathlib.Core.Bool.{Bool, true, false}
use mathlib.Core.List.{List, [], ◌∷◌, ◌++◌, append_assoc}
use mathlib.Core.Option.{Option, none, some}
use native.Mathlib.Omega.{arith}

-- A byte string: a list of numbers below 256.
abbrev pub Bytes : Type 0
Bytes = List ℕ

module _ {ℓ} {A : Type ℓ} where
  abbrev pub length : List A → ℕ
  length [] = 0
  length (x ∷ xs) = suc (length xs)

  abbrev pub get_elem? : List A → ℕ → Option A
  get_elem? [] i = none
  get_elem? (x ∷ xs) zero = some x
  get_elem? (x ∷ xs) (suc i) = get_elem? xs i

  abbrev pub get_or : List A → ℕ → A → A
  get_or [] i d = d
  get_or (x ∷ xs) zero d = x
  get_or (x ∷ xs) (suc i) d = get_or xs i d

  abbrev pub set : List A → ℕ → A → List A
  set [] i v = []
  set (x ∷ xs) zero v = v ∷ xs
  set (x ∷ xs) (suc i) v = x ∷ set xs i v

  abbrev pub take : ℕ → List A → List A
  take zero xs = []
  take (suc n) [] = []
  take (suc n) (x ∷ xs) = x ∷ take n xs

  abbrev pub replicate : ℕ → A → List A
  replicate zero a = []
  replicate (suc n) a = a ∷ replicate n a

module _ {ℓ κ} {A : Type ℓ} where
  abbrev pub All : (A → Type κ) → List A → Type κ
  All P [] = Unit
  All P (x ∷ xs) = P x × All P xs

module _ {ℓ} {A : Type ℓ} where
  pub length-append : (xs ys : List A) → length (xs ++ ys) ≡ length xs + length ys
  length-append [] ys = omega arith
  length-append (x ∷ xs) ys = omega (arith, length-append xs ys)

  pub length-take_le : (n : ℕ) (xs : List A) → length (take n xs) ≤ n
  length-take_le zero xs = omega arith
  length-take_le (suc n) [] = omega arith
  length-take_le (suc n) (x ∷ xs) = omega (arith, length-take_le n xs)

  -- A list whose last part grows by one element.
  pub append_snoc :
      {q : List A} (t ts : List A) (a : A) → q ≡ t ++ ts → q ++ a ∷ [] ≡ t ++ (ts ++ a ∷ [])
  append_snoc t ts a e = ap (λ l. l ++ a ∷ []) e ∙ append_assoc t ts (a ∷ [])

  pub length-snoc : {n : ℕ} (xs : List A) (a : A) → length xs < n → length (xs ++ a ∷ []) ≤ n
  length-snoc xs a h = omega (arith, length-append xs (a ∷ []))

-- `a` is the first element of the list that passes the test.
pub record IsFirst {ℓ} {A : Type ℓ} (test : A → Bool) (a : A) (xs : List A) : Type ℓ where
  pub before : List A
  pub after : List A
  pub split : xs ≡ before ++ a ∷ after
  pub skipped : All (λ x. test x ≡ false) before
  pub passes : test a ≡ true

module _ {ℓ} {A : Type ℓ} {test : A → Bool} where
  pub IsFirst-here : (a : A) (xs : List A) → test a ≡ true → IsFirst test a (a ∷ xs)
  IsFirst-here a xs h = record { before = []; after = xs; split = refl; skipped = tt; passes = h }

  pub IsFirst-there :
      (x : A) {a : A} {xs : List A} → test x ≡ false → IsFirst test a xs → IsFirst test a (x ∷ xs)
  IsFirst-there x h f = record {
    before = x ∷ f.before;
    after = f.after;
    split = ap (λ l. x ∷ l) f.split;
    skipped = (h, f.skipped);
    passes = f.passes;
  }

module _ {ℓ} {A : Type ℓ} where
  pub get_elem?_lem :
      (xs : List A) (i : ℕ) (d : A) → i < length xs → get_elem? xs i ≡ some (get_or xs i d)
  get_elem?_lem [] i d h = ground arith
  get_elem?_lem (x ∷ xs) zero d h = refl
  get_elem?_lem (x ∷ xs) (suc i) d h = get_elem?_lem xs i d (omega arith)
