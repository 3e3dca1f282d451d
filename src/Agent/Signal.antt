-- ===== src/Agent/Signal.antt =====
-- `deriveSignalMetrics` of internal/agent/agent.go. A float64 is counted in units of 2^-62: the
-- quotients that the function forms are at least 1/1000, and there a float64 is a whole number of
-- such units. Each operation rounds to 53 binary digits, ties to even, as IEEE 754 has it.
pub mod Laws
mod Tests
use agent_inference_ethden.Base.{ℕ, zero, suc, ◌+◌, ◌-◌, ◌*◌, ◌/◌, ◌%◌, ◌^◌, ltb, if◌then◌else◌}
use agent_inference_ethden.Base.Int.{ℤ, pos, negsuc}

-- n / d, rounded to a whole number, ties to even
pub nearest : ℕ → ℕ → ℕ
nearest n d =
    let q = n / d in
    if ltb (2 * (n % d)) d then q else if ltb d (2 * (n % d)) then q + 1 else q + q % 2

-- n / d, rounded to a multiple of the least power of 2 that leaves 53 binary digits. The fuel bounds
-- the doublings of the unit.
pub round_quotient : ℕ → ℕ → ℕ → ℕ → ℕ
unfolding nearest
round_quotient zero n d unit = unit * nearest n (d * unit)
round_quotient (suc fuel) n d unit =
    let wider = round_quotient fuel n d (2 * unit) in
    if ltb n (2 ^ 53 * (d * unit)) then unit * nearest n (d * unit) else wider

abbrev pub one : ℕ
one = 2 ^ 62

-- An int has at most 64 binary digits, so a quotient in units of 2^-62 has at most 126.
pub confidence_of : ℤ → ℕ
unfolding round_quotient
confidence_of (negsuc n) = one / 2
confidence_of (pos tokens) =
    let tokens_used = round_quotient 128 tokens 1 1 in
    let confidence = round_quotient 128 (tokens_used * one) 1_000 1 in
    let least = round_quotient 128 (3 * one) 10 1 in
    let capped = if ltb one confidence then one else confidence in
    if ltb 0 tokens then (if ltb capped least then least else capped) else one / 2

-- `int((1.0 - confidence) * 100)`, whose sign is never negative since the confidence is at most 1.
pub risk_of : ℕ → ℕ
unfolding round_quotient
risk_of confidence =
    let inverse = round_quotient 128 (one - confidence) 1 1 in
    round_quotient 128 (inverse * 100) 1 1 / one

unfoldable pub derive_signal_metrics : ℤ → ℕ × ℕ
unfolding confidence_of risk_of
derive_signal_metrics tokens_used =
    let confidence = confidence_of tokens_used in (confidence, risk_of confidence)
