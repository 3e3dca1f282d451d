-- ===== src/Agent/Signal/Laws.antt =====
-- The bounds of the metrics.
use mathlib.Core.Path.{subst}
use native.Mathlib.Nat.{one-mul, mul-div-le, mul-le-mul_left}
use agent_inference_ethden.Base.{
  ℕ, zero, suc, ◌+◌, ◌-◌, ◌*◌, ◌/◌, ◌%◌, ◌^◌, ◌≤◌, ◌≡◌, refl, inl, inr, ltb, Bool, true, false,
  if◌then◌else◌, Bool-cases, arith,
}
use agent_inference_ethden.Base.Int.{ℤ, pos, negsuc}
use agent_inference_ethden.Agent.Signal.{
  nearest, round_quotient, one, confidence_of, risk_of, derive_signal_metrics,
}

ltb-false : (a b : ℕ) → ltb a b ≡ false → b ≤ a
ltb-false a b h = ground arith

nearest-le : (n d : ℕ) → nearest n d ≤ n / d + 1
unfolding nearest
nearest-le n d = elim (Bool-cases (ltb (2 * (n % d)) d)) [
  | inl below ↦ rw below (omega arith)
  | inr not_below ↦ elim (Bool-cases (ltb d (2 * (n % d)))) [
    | inl above ↦ rw (not_below, above) (omega arith)
    | inr tie ↦ rw (not_below, tie) (omega arith)
  ]
]

scaled : (n unit : ℕ) → unit * nearest n (1 * unit) ≤ n + unit
scaled n unit =
    rw one-mul (omega (arith, mul-le-mul_left unit (nearest-le n unit), mul-div-le n unit))

-- Rounding adds at most the unit of the last digit, which is less than 2^-52 of the number.
round_quotient-le :
    (fuel n unit : ℕ)
    → unit * 2 ^ 52 ≤ n + 2 ^ 52
    → round_quotient fuel n 1 unit * 2 ^ 52 ≤ n * (2 ^ 52 + 1) + 2 ^ 52
unfolding round_quotient
round_quotient-le zero n unit h = omega (arith, scaled n unit)
round_quotient-le (suc fuel) n unit h = elim (Bool-cases (ltb n (2 ^ 53 * (1 * unit)))) [
  | inl fits ↦ rw fits (omega (arith, scaled n unit))
  | inr wide ↦
      rw wide (
        round_quotient-le fuel n (2 * unit) (omega (arith, ltb-false n (2 ^ 53 * (1 * unit)) wide)))
]

-- The float64 nearest to 0.3.
abbrev pub three_tenths : ℕ
three_tenths = 5_404_319_552_844_595 * 256

least : round_quotient 128 (3 * one) 10 1 ≡ three_tenths
unfolding round_quotient nearest
least = refl

clamped :
    (b : Bool) (c l o d : ℕ)
    → l ≤ o
    → l ≤ d
    → d ≤ o
    → let capped = if ltb o c then o else c in
      let v = if b then (if ltb capped l then l else capped) else d in (l ≤ v) × (v ≤ o)
clamped true c l o d h low high = (ground arith, ground arith)
clamped false c l o d h low high = (low, high)

confidence_of-bounds :
    (tokens : ℤ) → (three_tenths ≤ confidence_of tokens) × (confidence_of tokens ≤ one)
unfolding confidence_of
confidence_of-bounds (negsuc n) = (omega arith, omega arith)
confidence_of-bounds (pos tokens) =
    let tokens_used = round_quotient 128 tokens 1 1 in
    subst (λ l. (l ≤ confidence_of (pos tokens)) × (confidence_of (pos tokens) ≤ one)) least
      (clamped (ltb 0 tokens) (round_quotient 128 (tokens_used * one) 1_000 1)
        (round_quotient 128 (3 * one) 10 1) one (one / 2) (rw least (omega arith))
        (rw least (omega arith)) (omega arith))

risk_of-le :
    (confidence : ℕ) → three_tenths ≤ confidence → confidence ≤ one → risk_of confidence ≤ 70
unfolding risk_of
risk_of-le confidence low high =
    let inverse = round_quotient 128 (one - confidence) 1 1 in
    let first = round_quotient-le 128 (one - confidence) 1 (omega arith) in
    let second = round_quotient-le 128 (inverse * 100) 1 (omega arith) in
    omega (arith, first, second)

-- Whatever the token count, the confidence is at least the float64 nearest to 0.3 and at most 1, and
-- the risk score is at most 70.
pub derive_signal_metrics-bounds :
    (tokens_used : ℤ)
    → let (confidence, risk) = derive_signal_metrics tokens_used in
      (three_tenths ≤ confidence) × (confidence ≤ one) × (risk ≤ 70)
unfolding derive_signal_metrics
derive_signal_metrics-bounds tokens_used =
    let (low, high) = confidence_of-bounds tokens_used in
    (low, high, risk_of-le (confidence_of tokens_used) low high)
