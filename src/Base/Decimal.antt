-- ===== src/Base/Decimal.antt =====
-- `%d`, and the numbers of package math/big in decimal: `String` and `SetString(s, 10)`.
use Prim.Native.Nat.{ℕ, zero, suc, ◌+◌, ◌-◌, ◌*◌, ◌/◌, ◌%◌, ◌≤◌, ◌<◌}
use Prim.Native.String.{String, ◌++◌ as ◌<>◌}
use mathlib.Core.Path.{◌≡◌, ◌∙◌, ap}
use mathlib.Core.Logic.{inl, inr}
use mathlib.Core.Bool.{Bool, ◌&&◌}
use mathlib.Core.Option
use mathlib.Core.Option.{Option, none, some}
use mathlib.Core.List.{[], ◌∷◌, ◌++◌, append_assoc, append-nil}
use native.Mathlib.Omega.{arith}
use agent_inference_ethden.Base.Tests.{Bool-cases, ◌==◌, leb, ltb, if◌then◌else◌}
use agent_inference_ethden.Base.Lists.{Bytes, All}
use agent_inference_ethden.Base.Text.{to_text, to_bytes, to_bytes-to_text}
use agent_inference_ethden.Base.Int.{ℤ, pos, negsuc, negate}

-- Fuel bounds the number of digits; a number has at most as many digits as its value and one more.
digits : ℕ → ℕ → Bytes
digits zero n = []
digits (suc fuel) n =
    let more = digits fuel (n / 10) ++ (48 + n % 10) ∷ [] in
    if ltb n 10 then (48 + n) ∷ [] else more

unfoldable pub decimal : ℕ → String
unfolding digits to_text
decimal n = to_text (digits (suc n) n)

unfoldable pub decimal_ℤ : ℤ → String
unfolding decimal
decimal_ℤ (pos n) = decimal n
decimal_ℤ (negsuc n) = "-" <> decimal (suc n)

is_digit : ℕ → Bool
is_digit c = leb 48 c && leb c 57

parse_digits : ℕ → Bytes → Option ℕ
unfolding is_digit
parse_digits acc [] = some acc
parse_digits acc (c ∷ cs) = if is_digit c then parse_digits (acc * 10 + (c - 48)) cs else none

parse_magnitude : Bytes → Option ℕ
parse_magnitude [] = none
parse_magnitude (c ∷ cs) = parse_digits 0 (c ∷ cs)

parse_signed : Bytes → Option ℤ
unfolding parse_digits parse_magnitude
parse_signed [] = none
parse_signed (c ∷ cs) =
    if c == b'-'
    then Option.map (λ n. negate n) (parse_magnitude cs)
    else if c == b'+'
    then Option.map pos (parse_magnitude cs)
    else Option.map pos (parse_magnitude (c ∷ cs))

-- `new(big.Int).SetString(s, 10)`
unfoldable pub set_string : String → Option ℤ
unfolding parse_signed to_bytes
set_string s = parse_signed (to_bytes s)

parse_digits-digits :
    (fuel n : ℕ) (rest : Bytes)
    → n < fuel
    → parse_digits 0 (digits fuel n ++ rest) ≡ parse_digits n rest
unfolding digits parse_digits
parse_digits-digits zero n rest h = absurd (omega arith)
parse_digits-digits (suc fuel) n rest h = ground (
  arith,
  append_assoc (digits fuel (n / 10)) ((48 + n % 10) ∷ []) rest,
  parse_digits-digits fuel (n / 10) ((48 + n % 10) ∷ rest),
)

All-snoc :
    (bs : Bytes) (b : ℕ) → All (λ b. b < 256) bs → b < 256 → All (λ b. b < 256) (bs ++ b ∷ [])
All-snoc [] b h k = (k, tt)
All-snoc (x ∷ bs) b h k = (h.0, All-snoc bs b h.1 k)

digits-All : (fuel n : ℕ) → All (λ b. b < 256) (digits fuel n)
unfolding digits
digits-All zero n = tt
digits-All (suc fuel) n =
    ground (arith, All-snoc (digits fuel (n / 10)) (48 + n % 10) (digits-All fuel (n / 10)))

digits-cons : (fuel n : ℕ) → n < fuel → (c : ℕ) × (cs : Bytes) × (digits fuel n ≡ c ∷ cs) × (48 ≤ c)
unfolding digits
digits-cons zero n h = absurd (omega arith)
digits-cons (suc fuel) n h = elim (Bool-cases (ltb n 10)) [
  | inl small ↦ (48 + n, [], ground arith, omega arith)
  | inr big ↦
      let (c, cs, e, k) = digits-cons fuel (n / 10) (ground arith) in
      (c, cs ++ (48 + n % 10) ∷ [], ground arith, k)
]

parse_signed-cons :
    (ds : Bytes) {c : ℕ} {cs : Bytes}
    → ds ≡ c ∷ cs
    → 48 ≤ c
    → parse_signed ds ≡ Option.map pos (parse_digits 0 ds)
unfolding parse_signed
parse_signed-cons ds e h = ground arith

parse_signed-digits : (n : ℕ) → parse_signed (digits (suc n) n) ≡ some (pos n)
unfolding parse_digits
parse_signed-digits n =
    let (c, cs, e, k) = digits-cons (suc n) n (omega arith) in
    let whole = append-nil (digits (suc n) n) in
    let parsed = rw whole at (parse_digits-digits (suc n) n [] (omega arith)) in
    parse_signed-cons (digits (suc n) n) e k ∙ ap (λ o. Option.map pos o) parsed

-- A number that is printed in decimal parses to itself.
pub set_string-decimal : (n : ℕ) → set_string (decimal n) ≡ some (pos n)
unfolding set_string decimal
set_string-decimal n =
    ap parse_signed (to_bytes-to_text (digits (suc n) n) (digits-All (suc n) n))
    ∙ parse_signed-digits n
