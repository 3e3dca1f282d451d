-- ===== src/World/Past.antt =====
-- A history and what it was before.
use agent_inference_ethden.Base.{◌∷◌}
use agent_inference_ethden.World.Types.{Effect, History}

-- `g` is `h` at an earlier time, or now.
pub data Past (g : History) : History → Type 0 where
  at_once : Past g g
  later : {h : History} (e : Effect) → Past g h → Past g (e ∷ h)
