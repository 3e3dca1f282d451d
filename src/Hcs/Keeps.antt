-- ===== src/Hcs/Keeps.antt =====
-- Frame lemmas of internal/hcs/handler.go: what a publication keeps of a history.
use agent_inference_ethden.Base.{String, Bytes, arith}
use agent_inference_ethden.World.{World, History, Effect, published}
use agent_inference_ethden.World.Keeps.{Keeps}
use agent_inference_ethden.Hcs.{
  TaskResult, HealthStatus, HandlerConfig, Codec, Sender, publish_result, publish_health,
}

module _ (w : World) (codec : Codec) (cfg : HandlerConfig) (Holds : History → Type 0)
    (Allowed : Effect → Type 0) (k : Keeps Holds Allowed)
    (publishes : (topic : String) (message : Bytes) → Allowed (published topic message)) where
  pub publish_result-keeps :
      (result : TaskResult) (s : Sender)
      → Holds s.history
      → Holds (publish_result w codec cfg result s).1.history
  unfolding publish_result
  publish_result-keeps result s t = grind (arith, k.grow, k.checks, k.reads, publishes)

  pub publish_health-keeps :
      (status : HealthStatus) (s : Sender)
      → Holds s.history
      → Holds (publish_health w codec cfg status s).1.history
  unfolding publish_health
  publish_health-keeps status s t = grind (arith, k.grow, k.checks, k.reads, publishes)
