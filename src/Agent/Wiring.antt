-- ===== src/Agent/Wiring.antt =====
-- cmd/agent-inference/main.go without its mock mode: the clients of the other modules as the
-- interface of the agent. The broker, the storage client, the minter and the publisher act on one
-- history.
pub mod Laws
pub mod Typed
pub mod Settled
pub mod Failed
pub mod Spending
pub mod Sound
pub mod Tests
use agent_inference_ethden.Base.{
  ℕ, String, Bytes, Option, none, some, Error, Result, ok, err, Exec, ◌∷◌,
}
use agent_inference_ethden.World.{World, History, Io, clock_read}
use agent_inference_ethden.Da.{Publisher, AuditEvent, publish, new_publisher}
use agent_inference_ethden.Storage.{Client, upload, new_client}
use agent_inference_ethden.Storage
use agent_inference_ethden.Inft.{Minter, mint, new_minter}
use agent_inference_ethden.Inft
use agent_inference_ethden.Compute.{Broker, State}
use agent_inference_ethden.Compute
use agent_inference_ethden.Compute.Jobs.{submit_job, get_result, new_broker}
use agent_inference_ethden.Hcs.{HandlerConfig, Sender, publish_result, publish_health}
use agent_inference_ethden.Hcs
use agent_inference_ethden.Agent.Clients.{
  Services, RegisterRequest, Registration, HeartbeatRequest, Daemon,
}
use agent_inference_ethden.Agent.Config.{Config, hcs_handler}

-- What is not under the program's control, and the number of ticks before a poll's deadline.
pub record Outside : Type 0 where
  pub world : World
  pub compute_codec : Compute.Codec
  pub storage_codec : Storage.Codec
  pub inft_codec : Inft.Codec
  pub hcs_codec : Hcs.Codec
  pub marshal_event : AuditEvent → Result Bytes
  pub rounds : ℕ
  pub register : History → RegisterRequest → Result Registration
  pub heartbeat : History → Daemon → HeartbeatRequest → Result {0} Unit

-- The clients that `main` builds.
pub record Parts : Type 0 where
  pub broker : Broker
  pub client : Client
  pub minter : Minter
  pub publisher : Publisher
  pub handler : HandlerConfig

-- What they keep.
pub record Kept : Type 0 where
  pub broker_state : State
  pub seq_num : ℕ

module _ (o : Outside) where
  pub build : Config → ℕ → Parts × Kept
  build cfg key =
      let (broker, state) = new_broker o.world o.compute_codec cfg.compute (some key) in
      (
        record {
          broker = broker;
          client = new_client o.world o.storage_codec cfg.storage key;
          minter = new_minter o.world o.inft_codec cfg.inft key;
          publisher = new_publisher o.world cfg.da key;
          handler = hcs_handler cfg;
        },
        record { broker_state = state; seq_num = 0 },
      )

  module _ (p : Parts) where
    abbrev on_history : {A : Type 0} → Io A → Exec Kept A
    on_history call s =
        let (r, h) = call s.broker_state.history in
        (r, record s { broker_state = record s.broker_state { history = h } })

    abbrev on_broker : {A : Type 0} → Exec State A → Exec Kept A
    on_broker call s = let (r, t) = call s.broker_state in (r, record s { broker_state = t })

    abbrev on_sender : {A : Type 0} → Exec Sender A → Exec Kept A
    on_sender call s =
        let (r, t) = call (record { history = s.broker_state.history; seq_num = s.seq_num }) in
        (
          r,
          record s {
            broker_state = record s.broker_state { history = t.history };
            seq_num = t.seq_num;
          },
        )

    abbrev pub wired : Services Kept
    wired = record {
      now = λ s. (
        o.world.now s.broker_state.history,
        record s {
          broker_state = record s.broker_state { history = clock_read ∷ s.broker_state.history };
        },
      );
      register = λ r s. (o.register s.broker_state.history r, s);
      heartbeat = λ d r s. (o.heartbeat s.broker_state.history d r, s);
      submit_job = λ r. on_broker (submit_job o.world o.compute_codec p.broker r);
      get_result = λ id. on_broker (get_result o.world o.compute_codec p.broker o.rounds id);
      upload = λ content meta. on_history (upload o.world o.storage_codec p.client content meta);
      mint = λ r. on_history (mint o.world o.inft_codec p.minter r);
      publish_audit = λ e. on_history (publish o.world o.marshal_event p.publisher e);
      publish_result = λ r. on_sender (publish_result o.world o.hcs_codec p.handler r);
      publish_health = λ h. on_sender (publish_health o.world o.hcs_codec p.handler h);
    }
