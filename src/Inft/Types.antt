-- ===== src/Inft/Types.antt =====
-- internal/zerog/inft/models.go, and what encrypt.go and minter.go take from the cipher and JSON
-- packages.
use agent_inference_ethden.Base.{ℕ, String, List, Bytes, Error, Option, Result}
use agent_inference_ethden.Base.Int.{ℤ}

pub record MintRequest : Type 0 where
  pub name : String
  pub description : String
  pub inference_job_id : String
  pub result_hash : String
  pub plaintext_meta : List (String × String)
  pub storage_content_id : String

pub record EncryptedMeta : Type 0 where
  pub ciphertext : Bytes
  pub nonce : Bytes
  pub key_id : String
  pub algorithm : String

pub record InftStatus : Type 0 where
  pub token_id : String
  pub owner : String
  pub minted_at : ℕ
  pub metadata_hash : String
  pub chain_id : ℤ
  pub contract_address : String
  pub tx_hash : String

pub record MinterConfig : Type 0 where
  pub chain_rpc : String
  pub chain_id : ℤ
  pub contract_address : String
  pub private_key : String
  pub encryption_key : Bytes
  pub encryption_key_id : String

-- `aes.NewCipher`, `cipher.NewGCM`, `NonceSize`, `Seal` and `Open` by key, nonce and text; and
-- `json.Marshal` and `json.Unmarshal` of a string map and of encrypted metadata.
pub record Codec : Type 0 where
  pub cipher_err : Bytes → Option Error
  pub gcm_err : Bytes → Option Error
  pub nonce_size : ℕ
  pub seal : Bytes → Bytes → Bytes → Bytes
  pub unseal : Bytes → Bytes → Bytes → Result Bytes
  pub marshal_map : List (String × String) → Result Bytes
  pub unmarshal_map : Bytes → Result (List (String × String))
  pub marshal_encrypted : EncryptedMeta → Result Bytes
