-- ===== src/Storage/Types.antt =====
-- internal/zerog/storage/models.go, and the two JSON forms that client.go uses.
use agent_inference_ethden.Base.{ℕ, String, List, Bytes, Result, str_eq, if◌then◌else◌}
use agent_inference_ethden.Base.Int.{ℤ}

pub record Metadata : Type 0 where
  pub content_id : String
  pub name : String
  pub size : ℤ
  pub content_type : String
  pub created_at : ℕ
  pub tags : List (String × String)

pub record ClientConfig : Type 0 where
  pub chain_rpc : String
  pub chain_id : ℤ
  pub flow_contract_address : String
  pub private_key : String
  pub storage_node_endpoint : String
  pub default_chunk_size : ℤ
  pub max_retries : ℤ
  pub endpoint : String

unfoldable pub storage_endpoint : ClientConfig → String
storage_endpoint c =
    if str_eq c.storage_node_endpoint "" then c.endpoint else c.storage_node_endpoint

-- The anonymous struct of `uploadToNode`.
pub record UploadPayload : Type 0 where
  pub content : String
  pub name : String
  pub content_type : String
  pub tags : List (String × String)
  pub content_id : String

-- `json.Marshal` and `json.Unmarshal` at these types, and `sha256.Sum256`.
pub record Codec : Type 0 where
  pub marshal_payload : UploadPayload → Result Bytes
  pub unmarshal_items : Bytes → Result (List Metadata)
  pub sha256 : Bytes → Bytes
