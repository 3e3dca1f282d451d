-- ===== src/Agent/Clients.antt =====
-- The interfaces of the clients that internal/agent/agent.go is given, over the state `S` that they
-- share, and what the agent sends to them. The daemon's client is another repository's.
use agent_inference_ethden.Base.{ℕ, String, List, Bytes, Exec}
use agent_inference_ethden.Da.{AuditEvent}
use agent_inference_ethden.Storage.{Metadata}
use agent_inference_ethden.Inft.{MintRequest}
use agent_inference_ethden.Compute.{JobRequest, JobResult}
use agent_inference_ethden.Hcs.{TaskResult, HealthStatus}

pub record Registration : Type 0 where
  pub agent_id : String
  pub session_id : String

pub record RegisterRequest : Type 0 where
  pub agent_name : String
  pub agent_type : String
  pub capabilities : List String

pub record HeartbeatRequest : Type 0 where
  pub timestamp : ℕ
  pub agent_id : String
  pub session_id : String

-- `daemon.Noop()`, or the client that the agent was built with.
pub data Daemon : Type 0 where
  client noop : Daemon

pub record Services (S : Type 0) : Type 1 where
  pub now : S → ℕ × S
  pub register : RegisterRequest → Exec S Registration
  pub heartbeat : Daemon → HeartbeatRequest → Exec S Unit
  pub submit_job : JobRequest → Exec S String
  pub get_result : String → Exec S JobResult
  pub upload : Bytes → Metadata → Exec S String
  pub mint : MintRequest → Exec S String
  pub publish_audit : AuditEvent → Exec S String
  pub publish_result : TaskResult → Exec S Unit
  pub publish_health : HealthStatus → Exec S Unit
