-- ===== src/Da/Types.antt =====
-- internal/zerog/da/models.go
use agent_inference_ethden.Base.{ℕ, String, List}
use agent_inference_ethden.Base.Int.{ℤ}

pub data EventType : Type 0 where
  task_received job_submitted job_completed job_failed result_stored inft_minted result_report :
      EventType

abbrev pub event_type_text : EventType → String
event_type_text task_received = "task_received"
event_type_text job_submitted = "job_submitted"
event_type_text job_completed = "job_completed"
event_type_text job_failed = "job_failed"
event_type_text result_stored = "result_stored"
event_type_text inft_minted = "inft_minted"
event_type_text result_report = "result_reported"

pub record AuditEvent : Type 0 where
  pub type : EventType
  pub agent_id : String
  pub task_id : String
  pub job_id : String
  pub input_hash : String
  pub output_hash : String
  pub storage_ref : String
  pub inft_ref : String
  pub details : List (String × String)
  pub timestamp : ℕ

pub record PublisherConfig : Type 0 where
  pub chain_rpc : String
  pub chain_id : ℤ
  pub da_contract_address : String
  pub private_key : String
  pub namespace : String
  pub max_retries : ℤ
  pub endpoint : String
