-- ===== src/Compute/Types.antt =====
-- internal/zerog/compute/models.go, the token of session.go, and the state of the broker.
use agent_inference_ethden.Base.{ℕ, String, List, Bytes, Option, Result}
use agent_inference_ethden.Base.Int.{ℤ}
use agent_inference_ethden.World.{History}

pub data JobStatus : Type 0 where
  pending running completed failed : JobStatus

-- A float64 is carried by its 64 bits.
pub record JobRequest : Type 0 where
  pub model_id : String
  pub input : String
  pub max_tokens : ℤ
  pub temperature : ℕ
  pub metadata : List (String × String)

pub record JobResult : Type 0 where
  pub job_id : String
  pub status : JobStatus
  pub output : String
  pub model_id : String
  pub tokens_used : ℤ
  pub duration : ℤ
  pub error : String

pub record Model : Type 0 where
  pub id : String
  pub name : String
  pub provider : String
  pub service_type : String
  pub url : String

pub record BrokerConfig : Type 0 where
  pub chain_rpc : String
  pub chain_id : ℤ
  pub serving_contract_address : String
  pub private_key : String
  pub endpoint : String
  pub provider_address : String
  pub poll_interval : ℕ
  pub poll_timeout : ℕ

pub record ChatMessage : Type 0 where
  pub role : String
  pub content : String

pub record ChatRequest : Type 0 where
  pub model : String
  pub messages : List ChatMessage
  pub max_tokens : ℤ
  pub temperature : ℕ

pub record ChatChoice : Type 0 where
  pub message : ChatMessage
  pub index : ℤ

pub record ChatUsage : Type 0 where
  pub prompt_tokens : ℤ
  pub completion_tokens : ℤ
  pub total_tokens : ℤ

pub record ChatError : Type 0 where
  pub message : String
  pub type : String

pub record ChatResponse : Type 0 where
  pub id : String
  pub choices : List ChatChoice
  pub usage : ChatUsage
  pub model : String
  pub error : Option ChatError

-- The entry of the list that the fallback endpoint serves.
pub record ServiceEntry : Type 0 where
  pub provider : String
  pub name : String
  pub service_type : String
  pub url : String
  pub model : String

pub record SessionToken : Type 0 where
  pub address : String
  pub provider : String
  pub timestamp : ℕ
  pub expires_at : ℕ
  pub nonce : String
  pub generation : ℕ
  pub token_id : ℕ

-- The fields of `sessionManager` that change. The zero time is 0.
pub record Session : Type 0 where
  pub cached_token : String
  pub cached_provider : String
  pub token_expiry : ℕ
  pub setup_done : List String

-- The fields of `broker` that change, and what it has done outside. Without a key there is no
-- session.
pub record State : Type 0 where
  pub history : History
  pub models : Option (List Model)
  pub models_ttl : ℕ
  pub results : List (String × JobResult)
  pub session : Option Session

-- The fields of `broker` that do not change.
pub record Broker : Type 0 where
  pub cfg : BrokerConfig
  pub contract : ℕ
  pub key : ℕ

-- JSON at these types, Keccak-256, the signature of a hash under a key, and
-- the text of a duration.
pub record Codec : Type 0 where
  pub marshal_chat : ChatRequest → Result Bytes
  pub unmarshal_chat : Bytes → Result ChatResponse
  pub unmarshal_services : Bytes → Result (List ServiceEntry)
  pub marshal_token : SessionToken → Result Bytes
  pub keccak256 : Bytes → Bytes
  pub sign : Bytes → ℕ → Result Bytes
  pub duration_text : ℕ → String
