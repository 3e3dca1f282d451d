-- ===== src/World/Keeps.antt =====
-- A property of histories that some effects keep.
use agent_inference_ethden.Base.{ℕ, String, ◌∷◌}
use agent_inference_ethden.World.Types.{
  Effect, History, ctx_check, clock_read, polled, waited, random, mined,
}

-- `Holds` outlives every effect that is allowed, and allowed are the effects that ask nothing of a
-- contract, an HTTP server or the transport of Hedera.
pub record Keeps (Holds : History → Type 0) (Allowed : Effect → Type 0) : Type 0 where
  pub grow : (e : Effect) (h : History) → Allowed e → Holds h → Holds (e ∷ h)
  pub checks : Allowed ctx_check
  pub reads : Allowed clock_read
  pub polls : Allowed polled
  pub waits : (d : ℕ) → Allowed (waited d)
  pub draws : (n : ℕ) → Allowed (random n)
  pub mines : (hash : String) → Allowed (mined hash)
