-- ===== src/Agent/Wiring/Typed.antt =====
-- Every transaction and contract call of the agent that cmd/agent-inference/main.go builds, against
-- the ABIs that the packages of internal/zerog declare.
use agent_inference_ethden.Base.{ℕ, ◌≡◌, refl, true, List, ◌∷◌, [], String}
use agent_inference_ethden.World.{World, History, Effect}
use agent_inference_ethden.Abi.{Binding, is_bound, is_typed}
use agent_inference_ethden.Abi.Contracts.{
  serving_abi, ledger_abi, serving_session_abi, flow_abi, contract_abi, da_abi,
}
use agent_inference_ethden.Abi.Laws.{is_typed-Keeps, here, there}
use agent_inference_ethden.Compute.Jobs.{new_broker, manager}
use agent_inference_ethden.Compute.Session.{new_manager}
use agent_inference_ethden.Storage.{new_client}
use agent_inference_ethden.Inft.{new_minter}
use agent_inference_ethden.Da.{new_publisher}
use agent_inference_ethden.Da.Typed.{publish-is_typed}
use agent_inference_ethden.Storage.Typed.{IsSum256, upload-is_typed}
use agent_inference_ethden.Inft.Typed.{mint-is_typed}
use agent_inference_ethden.Hcs.Keeps.{publish_result-keeps, publish_health-keeps}
use agent_inference_ethden.Compute.Jobs.Keeps.{submit_job-keeps, get_result-keeps}
use agent_inference_ethden.Compute.Session.Keeps.{Admits}
use agent_inference_ethden.Compute.Session.Typed.{admits}
use agent_inference_ethden.Compute.Catalog.Typed.{first_page-is_bound}
use agent_inference_ethden.Agent.{Daemon, Event, new_agent, start, run_loop}
use agent_inference_ethden.Agent.Config.{Config}
use agent_inference_ethden.Agent.Preserved.{Preserves, start-Preserves, run_loop-Preserves}
use agent_inference_ethden.Agent.Wiring.{Outside, Parts, Kept, build, wired}

-- The contracts that the configuration and session.go name, each with its ABI, the agent's key and
-- the chain of its client.
pub bindings : World → Config → ℕ → List Binding
bindings w cfg key =
    record {
      contract = w.hex_to_address cfg.compute.serving_contract_address;
      abi = serving_abi;
      key = key;
      chain_id = cfg.compute.chain_id;
    }
    ∷ record {
      contract = w.hex_to_address "0xE70830508dAc0A97e6c087c75f402f9Be669E406";
      abi = ledger_abi;
      key = key;
      chain_id = cfg.compute.chain_id;
    }
    ∷ record {
      contract = w.hex_to_address "0xa79F4c8311FF93C06b8CfB403690cc987c93F91E";
      abi = serving_session_abi;
      key = key;
      chain_id = cfg.compute.chain_id;
    }
    ∷ record {
      contract = w.hex_to_address cfg.storage.flow_contract_address;
      abi = flow_abi;
      key = key;
      chain_id = cfg.storage.chain_id;
    }
    ∷ record {
      contract = w.hex_to_address cfg.inft.contract_address;
      abi = contract_abi;
      key = key;
      chain_id = cfg.inft.chain_id;
    }
    ∷ record {
      contract = w.hex_to_address cfg.da.da_contract_address;
      abi = da_abi;
      key = key;
      chain_id = cfg.da.chain_id;
    }
    ∷ []

module _ (o : Outside) (sum : IsSum256 o.storage_codec) (cfg : Config) (key : ℕ) where
  abbrev parts : Parts
  parts = (build o cfg key).0

  abbrev IsTyped : Kept → Type 0
  IsTyped s = is_typed (bindings o.world cfg key) s.broker_state.history ≡ true

  abbrev AreTyped : History → Type 0
  AreTyped h = is_typed (bindings o.world cfg key) h ≡ true

  abbrev IsBound : Effect → Type 0
  IsBound e = is_bound (bindings o.world cfg key) e ≡ true

  session_calls : Admits (manager o.world o.compute_codec parts.broker) IsBound
  unfolding build bindings new_broker manager new_manager
  session_calls =
      admits (manager o.world o.compute_codec parts.broker) (there here) (there (there here))

  wired-Preserves : Preserves (wired o parts) IsTyped
  unfolding build bindings is_typed is_bound new_broker manager new_manager new_client new_minter
      new_publisher
  wired-Preserves = record {
    now = λ s t. t;
    register = λ r s t. t;
    heartbeat = λ d r s t. t;
    submit_job = λ r s t.
        submit_job-keeps o.world o.compute_codec parts.broker AreTyped IsBound
          (is_typed-Keeps (bindings o.world cfg key)) (λ q. refl)
          (first_page-is_bound o.world o.compute_codec parts.broker here) session_calls r
          s.broker_state t;
    get_result = λ id s t.
        get_result-keeps o.world o.compute_codec parts.broker AreTyped IsBound
          (is_typed-Keeps (bindings o.world cfg key)) (λ q. refl)
          (first_page-is_bound o.world o.compute_codec parts.broker here) session_calls o.rounds id
          s.broker_state t;
    upload = λ content meta s t.
        upload-is_typed o.world o.storage_codec sum parts.client (there (there (there here)))
          content meta s.broker_state.history t;
    mint = λ r s t.
        mint-is_typed o.world o.inft_codec parts.minter (there (there (there (there here)))) r
          s.broker_state.history t;
    publish_audit = λ e s t.
        publish-is_typed o.world parts.publisher (there (there (there (there (there here)))))
          o.marshal_event e s.broker_state.history t;
    publish_result = λ r s t.
        publish_result-keeps o.world o.hcs_codec parts.handler AreTyped IsBound
          (is_typed-Keeps (bindings o.world cfg key)) (λ topic m. refl) r
          (record { history = s.broker_state.history; seq_num = s.seq_num }) t;
    publish_health = λ h s t.
        publish_health-keeps o.world o.hcs_codec parts.handler AreTyped IsBound
          (is_typed-Keeps (bindings o.world cfg key)) (λ topic m. refl) h
          (record { history = s.broker_state.history; seq_num = s.seq_num }) t;
  }

  -- Whatever tasks and ticks the agent is given from its start on, and whatever the outside answers:
  -- each transaction that it sends goes to a contract that the configuration or session.go names,
  -- with the agent's key and that client's chain, to a method of the contract's declared ABI, with
  -- arguments of the declared number and types, and with an amount only if the method is payable;
  -- each contract call goes to a declared view. It is assumed that SHA-256 gives 32 bytes.
  pub run_loop-is_typed :
      (daemon : Daemon) (agent_id : String) (events : List Event)
      → let agent = new_agent daemon (build o cfg key).1 in
        let started = start (wired o (build o cfg key).0) agent_id agent in
        let ended = run_loop (wired o (build o cfg key).0) agent_id events started in
        is_typed (bindings o.world cfg key) ended.services.broker_state.history ≡ true
  unfolding build is_typed new_agent new_broker
  run_loop-is_typed daemon agent_id events =
      run_loop-Preserves (wired o parts) IsTyped wired-Preserves agent_id events _ (
        start-Preserves (wired o parts) IsTyped wired-Preserves agent_id
          (new_agent daemon (build o cfg key).1) refl)
