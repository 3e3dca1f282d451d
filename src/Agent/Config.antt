-- ===== src/Agent/Config.antt =====
-- internal/agent/config.go. The environment is a function; a variable that is not set is empty.
-- `time.ParseDuration` is a parameter.
pub mod Laws
pub mod Tests
use agent_inference_ethden.Base.{
  ℕ, String, Bytes, [], Error, new, wrap, Result, ok, err, str_eq, if◌then◌else◌,
}
use agent_inference_ethden.Base.Int.{ℤ, pos}
use agent_inference_ethden.Base.Encoding.{hex_decode}
use agent_inference_ethden.Compute.{BrokerConfig}
use agent_inference_ethden.Storage.{ClientConfig}
use agent_inference_ethden.Inft.{MinterConfig}
use agent_inference_ethden.Da.{PublisherConfig}
use agent_inference_ethden.Hcs.{HandlerConfig}

pub record Config : Type 0 where
  pub agent_id : String
  pub daemon_addr : String
  pub health_interval : ℤ
  pub compute : BrokerConfig
  pub storage : ClientConfig
  pub inft : MinterConfig
  pub da : PublisherConfig
  pub hcs_task_topic : String
  pub hcs_result_topic : String

-- `HCSHandler`; the transport is an argument of what uses the handler.
pub hcs_handler : Config → HandlerConfig
hcs_handler c = record {
  task_topic_id = c.hcs_task_topic;
  result_topic_id = c.hcs_result_topic;
  agent_id = c.agent_id;
}

module _ (parse_duration : String → Result ℤ) (getenv : String → String) where
  pub env_or : String → String → String
  env_or key default_val = if str_eq (getenv key) "" then default_val else getenv key

  abbrev parsed : Result ℤ → Result ℤ
  parsed (ok duration) = ok duration
  parsed (err e) = err (wrap "config: invalid INFERENCE_HEALTH_INTERVAL: " e)

  unfoldable pub health_interval : Result ℤ
  health_interval =
      let text = getenv "INFERENCE_HEALTH_INTERVAL" in
      if str_eq text "" then ok (pos 30_000_000_000) else parsed (parse_duration text)

  abbrev decoded : Result Bytes → Result Bytes
  decoded (ok key) = ok key
  decoded (err e) = err (wrap "config: invalid ZG_ENCRYPTION_KEY hex: " e)

  pub encryption_key : Result Bytes
  encryption_key =
      let text = getenv "ZG_ENCRYPTION_KEY" in
      if str_eq text "" then ok [] else decoded (hex_decode text)

  abbrev chain_rpc : String
  chain_rpc = env_or "ZG_CHAIN_RPC" "https://evmrpc-testnet.0g.ai"

  abbrev pub config : ℤ → Bytes → Config
  config interval key = record {
    agent_id = getenv "INFERENCE_AGENT_ID";
    daemon_addr = env_or "INFERENCE_DAEMON_ADDR" "localhost:50051";
    health_interval = interval;
    compute = record {
      chain_rpc = chain_rpc;
      chain_id = pos 16_602;
      serving_contract_address = getenv "ZG_SERVING_CONTRACT";
      private_key = getenv "ZG_CHAIN_PRIVATE_KEY";
      endpoint = getenv "ZG_COMPUTE_ENDPOINT";
      provider_address = "";
      poll_interval = 2_000_000_000;
      poll_timeout = 300_000_000_000;
    };
    storage = record {
      chain_rpc = chain_rpc;
      chain_id = pos 16_602;
      flow_contract_address =
          env_or "ZG_FLOW_CONTRACT" "0x22E03a6A89B950F1c82ec5e74F8eCa321a105296";
      private_key = getenv "ZG_CHAIN_PRIVATE_KEY";
      storage_node_endpoint = getenv "ZG_STORAGE_NODE_ENDPOINT";
      default_chunk_size = pos 0;
      max_retries = pos 0;
      endpoint = getenv "ZG_STORAGE_ENDPOINT";
    };
    inft = record {
      chain_rpc = chain_rpc;
      chain_id = pos 16_602;
      contract_address = getenv "ZG_INFT_CONTRACT";
      private_key = getenv "ZG_CHAIN_PRIVATE_KEY";
      encryption_key = key;
      encryption_key_id = env_or "ZG_ENCRYPTION_KEY_ID" "default";
    };
    da = record {
      chain_rpc = chain_rpc;
      chain_id = pos 16_602;
      da_contract_address = env_or "ZG_DA_CONTRACT" "0xE75A073dA5bb7b0eC622170Fd268f35E675a957B";
      private_key = getenv "ZG_CHAIN_PRIVATE_KEY";
      namespace = env_or "ZG_DA_NAMESPACE" "inference-audit";
      max_retries = pos 0;
      endpoint = getenv "ZG_DA_ENDPOINT";
    };
    hcs_task_topic = getenv "HCS_TASK_TOPIC";
    hcs_result_topic = getenv "HCS_RESULT_TOPIC";
  }

  abbrev with_key : ℤ → Result Bytes → Result Config
  with_key interval (ok key) = ok (config interval key)
  with_key interval (err e) = err e

  abbrev with_interval : Result ℤ → Result Config
  with_interval (ok interval) = with_key interval encryption_key
  with_interval (err e) = err e

  pub load_config : Result Config
  load_config =
      if str_eq (getenv "INFERENCE_AGENT_ID") ""
      then err (new "config: INFERENCE_AGENT_ID is required")
      else with_interval health_interval
