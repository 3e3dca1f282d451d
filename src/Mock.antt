-- ===== src/Mock.antt =====
-- internal/zerog/zgmock/mock.go: the clients of the mock mode. `rand.Intn` is a parameter, a function
-- of how many numbers were drawn before and of the bound. A Go int wraps at 2 ^ 64.
pub mod Laws
mod Tests
use agent_inference_ethden.Base.{
  ℕ, ◌+◌, ◌*◌, ◌%◌, ◌^◌, String, ◌<>◌, Bool, true, List, [], ◌∷◌, Bytes, to_bytes, Exec, pure, ok,
}
use agent_inference_ethden.Base.Int.{ℤ, pos, sub_ℕ, signed}
use agent_inference_ethden.Base.Decimal.{decimal_ℤ}
use agent_inference_ethden.Da.{AuditEvent}
use agent_inference_ethden.Storage.{Metadata}
use agent_inference_ethden.Inft.{MintRequest, EncryptedMeta}
use agent_inference_ethden.Compute.{JobRequest, JobResult, JobStatus, Model}

-- `n++`
abbrev pub increment : ℕ → ℕ
increment n = (n + 1) % 2 ^ 64

-- The counter of `ComputeBroker`, and the numbers drawn from package math/rand.
pub record ComputeBroker : Type 0 where
  pub job_counter : ℕ
  pub drawn : ℕ

pub record StorageClient : Type 0 where
  pub upload_counter : ℕ

pub record AuditPublisher : Type 0 where
  pub pub_counter : ℕ

-- `INFTStatus` as the minter makes it up: the time of the mint may lie before the zero time.
pub record MockStatus : Type 0 where
  pub token_id : String
  pub owner : String
  pub minted_at : ℤ
  pub metadata_hash : String
  pub chain_id : ℤ

unfoldable pub new_compute_broker : ℕ → ComputeBroker
new_compute_broker drawn = record { job_counter = 0; drawn = drawn }

unfoldable pub new_storage_client : StorageClient
new_storage_client = record { upload_counter = 0 }

unfoldable pub new_audit_publisher : AuditPublisher
new_audit_publisher = record { pub_counter = 0 }

unfoldable pub submit_job : JobRequest → Exec ComputeBroker String
submit_job _ m =
    let n = increment m.job_counter in
    (ok ("mock-job-" <> decimal_ℤ (signed n)), record m { job_counter = n })

pub list_models : Exec ComputeBroker (List Model)
list_models = pure (
    record {
      id = "model-1";
      name = "llama-3-8b";
      provider = "0g-compute";
      service_type = "";
      url = "";
    }
    ∷ record {
      id = "model-2";
      name = "mistral-7b";
      provider = "0g-compute";
      service_type = "";
      url = "";
    }
    ∷ [])

module _ (intn : ℕ → ℕ → ℕ) where
  unfoldable pub get_result : String → Exec ComputeBroker JobResult
  get_result job_id m = (
    ok (record {
      job_id = job_id;
      status = JobStatus.completed;
      output = "{\"result\": \"mock inference output\"}";
      model_id = "llama-3-8b";
      tokens_used = pos (80 + intn m.drawn 400);
      duration = pos ((40 + intn (m.drawn + 1) 180) * 1_000_000);
      error = "";
    }),
    record m { drawn = m.drawn + 2 },
  )

unfoldable pub upload : Bytes → Metadata → Exec StorageClient String
upload _ _ m =
    let n = increment m.upload_counter in
    (ok ("mock-content-" <> decimal_ℤ (signed n)), record m { upload_counter = n })

pub download : String → Exec StorageClient Bytes
download _ = pure (to_bytes "{\"mock\": true}")

pub list : String → Exec StorageClient (List Metadata)
list _ = pure []

-- The minter has no state: it is a method of any.
module _ {S : Type 0} where
  unfoldable pub mint : MintRequest → Exec S String
  mint _ = pure "mock-inft-001"

  pub update_metadata : String → EncryptedMeta → Exec S Unit
  update_metadata _ _ = pure tt

  pub get_status : ℕ → String → Exec S MockStatus
  get_status now token_id = pure (record {
    token_id = token_id;
    owner = "0x0000000000000000000000000000000000000000";
    minted_at = sub_ℕ now 86_400_000_000_000;
    metadata_hash = "0xmockhash";
    chain_id = pos 16_602;
  })

unfoldable pub publish : AuditEvent → Exec AuditPublisher String
publish _ m =
    let n = increment m.pub_counter in
    (ok ("mock-audit-" <> decimal_ℤ (signed n)), record m { pub_counter = n })

pub verify : String → Exec AuditPublisher Bool
verify _ = pure true
