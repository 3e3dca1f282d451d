-- ===== src/Compute/Jobs/Calls.antt =====
-- The broker of internal/zerog/compute/broker.go over any sequence of its calls.
pub mod Sound
pub mod Laws
mod Tests
use agent_inference_ethden.Base.{ℕ, String, List, [], ◌∷◌, Option, Result}
use agent_inference_ethden.World.{World}
use agent_inference_ethden.Compute.Types.{JobRequest, State, Broker, BrokerConfig, Codec}
use agent_inference_ethden.Compute.Catalog.{list_models}
use agent_inference_ethden.Compute.Jobs.{submit_job, get_result}

-- A method of `ComputeBroker` with its arguments, and with the ticks before the deadline of a poll.
pub data Call : Type 0 where
  submits : JobRequest → Call
  gets_result : ℕ → String → Call
  lists : Call

module _ (w : World) (codec : Codec) (b : Broker) where
  pub call : Call → State → State
  call (submits req) s = (submit_job w codec b req s).1
  call (gets_result rounds id) s = (get_result w codec b rounds id s).1
  call lists s = (list_models w codec b s).1

  -- The calls, one after another.
  pub run_calls : List Call → State → State
  run_calls [] s = s
  run_calls (c ∷ cs) s = run_calls cs (call c s)
