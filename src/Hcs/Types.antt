-- ===== src/Hcs/Types.antt =====
-- internal/hcs/messages.go, and the configuration of the handler. A `json.RawMessage` is bytes; a
-- float64 is a number of units of 2^-62, which every float that the program puts there is.
use agent_inference_ethden.Base.{ℕ, String, Bytes, Result}
use agent_inference_ethden.Base.Int.{ℤ}

abbrev pub task_assignment : String
task_assignment = "task_assignment"

abbrev pub task_result : String
task_result = "task_result"

abbrev pub heartbeat : String
heartbeat = "heartbeat"

pub record Envelope : Type 0 where
  pub type : String
  pub sender : String
  pub recipient : String
  pub task_id : String
  pub sequence_num : ℕ
  pub timestamp : ℕ
  pub payload : Bytes

pub record TaskAssignment : Type 0 where
  pub task_id : String
  pub model_id : String
  pub input : String
  pub priority : ℤ
  pub max_tokens : ℤ
  pub callback_url : String
  pub deadline : ℕ

pub record TaskResult : Type 0 where
  pub task_id : String
  pub status : String
  pub output : String
  pub duration_ms : ℕ
  pub tokens_used : ℤ
  pub storage_content_id : String
  pub inft_token_id : String
  pub audit_submission_id : String
  pub error : String
  pub signal_confidence : ℕ
  pub risk_score : ℕ

pub record HealthStatus : Type 0 where
  pub agent_id : String
  pub status : String
  pub active_task_id : String
  pub uptime_seconds : ℕ
  pub completed_tasks : ℤ
  pub failed_tasks : ℤ

pub record HandlerConfig : Type 0 where
  pub task_topic_id : String
  pub result_topic_id : String
  pub agent_id : String

-- Package encoding/json on these types.
pub record Codec : Type 0 where
  pub marshal_envelope : Envelope → Result Bytes
  pub unmarshal_envelope : Bytes → Result Envelope
  pub marshal_result : TaskResult → Result Bytes
  pub marshal_health : HealthStatus → Result Bytes
  pub unmarshal_task : Bytes → Result TaskAssignment
