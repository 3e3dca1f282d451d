-- ===== src/Agent/Signal/Tests.antt =====
-- The metrics of some token counts.
use agent_inference_ethden.Base.{◌≡◌, ◌≤◌, refl, ◌/◌}
use agent_inference_ethden.Base.Int.{pos}
use agent_inference_ethden.Agent.Signal.{derive_signal_metrics, risk_of, confidence_of, one}
use agent_inference_ethden.Agent.Signal.Laws
use agent_inference_ethden.Agent.Signal.Laws.{three_tenths}

no_count : derive_signal_metrics (pos 0) ≡ (one / 2, 50)
unfolding derive_signal_metrics risk_of confidence_of
no_count = refl

few : (derive_signal_metrics (pos 100)).1 ≡ 70
unfolding derive_signal_metrics risk_of confidence_of
few = refl

-- Rounding takes the risk below the exact 10.
rounded : (derive_signal_metrics (pos 900)).1 ≡ 9
unfolding derive_signal_metrics risk_of confidence_of
rounded = refl

many : derive_signal_metrics (pos 2_000) ≡ (one, 0)
unfolding derive_signal_metrics risk_of confidence_of
many = refl

derive_signal_metrics-bounds_example :
    let (confidence, risk) = derive_signal_metrics (pos 900) in
    (three_tenths ≤ confidence) × (confidence ≤ one) × (risk ≤ 70)
derive_signal_metrics-bounds_example = Laws.derive_signal_metrics-bounds (pos 900)
