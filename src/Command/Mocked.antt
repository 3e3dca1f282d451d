-- ===== src/Command/Mocked.antt =====
-- The mock mode of cmd/agent-inference/main.go: the mocks of internal/zerog/zgmock beside the real
-- handler, as the interface of the agent.
use agent_inference_ethden.Base.{ℕ, Result, Exec, ◌∷◌}
use agent_inference_ethden.World.{World, History, clock_read}
use agent_inference_ethden.Hcs.{HandlerConfig, Sender, Codec, publish_result, publish_health}
use agent_inference_ethden.Agent.Clients.{
  Services, RegisterRequest, Registration, HeartbeatRequest, Daemon,
}
use agent_inference_ethden.Mock.{
  ComputeBroker, StorageClient, AuditPublisher, submit_job, get_result, upload, mint, publish,
  new_compute_broker, new_storage_client, new_audit_publisher,
}

-- What is not under the program's control in the mock mode.
pub record MockOutside : Type 0 where
  pub world : World
  pub codec : Codec
  pub intn : ℕ → ℕ → ℕ
  pub register : History → RegisterRequest → Result Registration
  pub heartbeat : History → Daemon → HeartbeatRequest → Result {0} Unit

-- What the mocks and the handler keep.
pub record Mocks : Type 0 where
  pub compute : ComputeBroker
  pub storage : StorageClient
  pub audit : AuditPublisher
  pub sender : Sender

unfoldable pub build_mocks : ℕ → History → Mocks
unfolding new_compute_broker new_storage_client new_audit_publisher
build_mocks drawn history = record {
  compute = new_compute_broker drawn;
  storage = new_storage_client;
  audit = new_audit_publisher;
  sender = record { history = history; seq_num = 0 };
}

abbrev on_compute : {A : Type 0} → Exec ComputeBroker A → Exec Mocks A
on_compute call s = let (r, m) = call s.compute in (r, record s { compute = m })

abbrev on_storage : {A : Type 0} → Exec StorageClient A → Exec Mocks A
on_storage call s = let (r, m) = call s.storage in (r, record s { storage = m })

abbrev on_audit : {A : Type 0} → Exec AuditPublisher A → Exec Mocks A
on_audit call s = let (r, m) = call s.audit in (r, record s { audit = m })

abbrev pub on_sender : {A : Type 0} → Exec Sender A → Exec Mocks A
on_sender call s = let (r, m) = call s.sender in (r, record s { sender = m })

abbrev pub mocked : MockOutside → HandlerConfig → Services Mocks
mocked o handler = record {
  now = λ s. (
    o.world.now s.sender.history,
    record s { sender = record s.sender { history = clock_read ∷ s.sender.history } },
  );
  register = λ r s. (o.register s.sender.history r, s);
  heartbeat = λ d r s. (o.heartbeat s.sender.history d r, s);
  submit_job = λ r. on_compute (submit_job r);
  get_result = λ id. on_compute (get_result o.intn id);
  upload = λ content meta. on_storage (upload content meta);
  mint = λ r. mint r;
  publish_audit = λ e. on_audit (publish e);
  publish_result = λ r. on_sender (publish_result o.world o.codec handler r);
  publish_health = λ h. on_sender (publish_health o.world o.codec handler h);
}
