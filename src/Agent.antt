-- ===== src/Agent.antt =====
-- `Run`, `processTask`, `reportFailure` and `healthLoop` of internal/agent/agent.go. What is only
-- logged is left out.
pub mod Signal
pub mod Clients
pub mod Config
pub mod Wiring
pub mod Laws
pub mod Counts
pub mod Health
pub mod Preserved
pub mod Run
mod Tests
pub use Clients.*
use agent_inference_ethden.Base.{
  ℕ, zero, suc, if◌then◌else◌, ◌+◌, ◌-◌, ◌/◌, ◌%◌, ◌^◌, String, ◌<>◌, Option, none, some, List, [],
  ◌∷◌, Bytes, to_bytes, Error, error_text, Result, ok, err, Exec, pure, lift, annotate, modify, try,
  ◌>>=◌, ◌>>◌,
}
use agent_inference_ethden.Base.Int.{signed, ℤ, is_nonpos}
use agent_inference_ethden.Da.{AuditEvent, EventType, task_received, job_completed}
use agent_inference_ethden.Storage.{Metadata}
use agent_inference_ethden.Inft.{MintRequest}
use agent_inference_ethden.Compute.{JobRequest, JobResult}
use agent_inference_ethden.Hcs.{TaskAssignment, TaskResult, HealthStatus}
use agent_inference_ethden.Agent.Signal.{derive_signal_metrics}

-- The counters are atomic int64; a negative one is counted from 2^64 down.
pub record Agent (S : Type 0) : Type 0 where
  pub services : S
  pub daemon : Daemon
  pub daemon_reg : Option Registration
  pub start_time : ℕ
  pub completed_tasks : ℕ
  pub failed_tasks : ℕ

-- `New`
unfoldable pub new_agent : {S : Type 0} → Daemon → S → Agent S
new_agent daemon services = record {
  services = services;
  daemon = daemon;
  daemon_reg = none;
  start_time = 0;
  completed_tasks = 0;
  failed_tasks = 0;
}

abbrev add_one : ℕ → ℕ
add_one n = (n + 1) % 2 ^ 64

abbrev pub audit_event : String → EventType → TaskAssignment → ℕ → AuditEvent
audit_event agent_id type task at = record {
  type = type;
  agent_id = agent_id;
  task_id = task.task_id;
  job_id = "";
  input_hash = "";
  output_hash = "";
  storage_ref = "";
  inft_ref = "";
  details = [];
  timestamp = at;
}

abbrev pub job_request : TaskAssignment → JobRequest
job_request task = record {
  model_id = task.model_id;
  input = task.input;
  max_tokens = task.max_tokens;
  temperature = 0;
  metadata = [];
}

abbrev pub result_metadata : TaskAssignment → Metadata
result_metadata task = record {
  content_id = "";
  name = "inference-" <> task.task_id;
  size = ℤ.pos 0;
  content_type = "application/json";
  created_at = 0;
  tags = ("task_id", task.task_id) ∷ ("model", task.model_id) ∷ [];
}

abbrev pub mint_request : String → TaskAssignment → String → String → MintRequest
mint_request agent_id task job_id content_id = record {
  name = "Inference Result: " <> task.task_id;
  description = "";
  inference_job_id = job_id;
  result_hash = "";
  plaintext_meta =
      ("task_id", task.task_id) ∷ ("model_id", task.model_id) ∷ ("agent_id", agent_id) ∷ [];
  storage_content_id = content_id;
}

-- The result of a task that failed.
abbrev pub failure : TaskAssignment → Error → TaskResult
failure task e = record {
  task_id = task.task_id;
  status = "failed";
  output = "";
  duration_ms = 0;
  tokens_used = ℤ.pos 0;
  storage_content_id = "";
  inft_token_id = "";
  audit_submission_id = "";
  error = error_text e;
  signal_confidence = 0;
  risk_score = 0;
}

abbrev id_or_empty : Result String → String
id_or_empty (ok id) = id
id_or_empty (err _) = ""

-- What the select of the main loop, or the ticker of the health loop beside it, brings.
pub data Event : Type 0 where
  assigned : TaskAssignment → Event
  ticked : Event

module _ {S : Type 0} (services : Services S) (agent_id : String) where
  abbrev on_services : {A : Type 0} → Exec S A → Exec (Agent S) A
  on_services call a = let (r, s) = call a.services in (r, record a { services = s })

  -- `time.Now()`; the clock of `time.Since` never goes back.
  abbrev read_clock : Exec (Agent S) ℕ
  read_clock a = let (t, s) = services.now a.services in (ok t, record a { services = s })

  pub process_task : TaskAssignment → Exec (Agent S) Unit
  process_task task = do
    start ← read_clock
    at ← read_clock
    _ ← try (on_services (services.publish_audit (audit_event agent_id task_received task at)))
    job_id ←
        annotate ("agent: compute submit failed for task " <> task.task_id <> ": ")
          (on_services (services.submit_job (job_request task)))
    result ←
        annotate ("agent: compute result failed for job " <> job_id <> ": ")
          (on_services (services.get_result job_id))
    content_id ←
        annotate ("agent: storage upload failed for task " <> task.task_id <> ": ")
          (on_services (services.upload (to_bytes result.output) (result_metadata task)))
    token_id ←
        annotate ("agent: iNFT mint failed for task " <> task.task_id <> ": ")
          (on_services (services.mint (mint_request agent_id task job_id content_id)))
    done ← read_clock
    audit ← try (
        on_services (
          services.publish_audit (record (audit_event agent_id job_completed task done) {
            job_id = job_id;
            storage_ref = content_id;
            inft_ref = token_id;
          })))
    end ← read_clock
    annotate ("agent: result publish failed for task " <> task.task_id <> ": ") (
        on_services (
          services.publish_result (record {
            task_id = task.task_id;
            status = "completed";
            output = result.output;
            duration_ms = (end - start) / 1_000_000;
            tokens_used = result.tokens_used;
            storage_content_id = content_id;
            inft_token_id = token_id;
            audit_submission_id = id_or_empty audit;
            error = "";
            signal_confidence = (derive_signal_metrics result.tokens_used).0;
            risk_score = (derive_signal_metrics result.tokens_used).1;
          })))
    modify λ (a : Agent S). record a { completed_tasks = add_one a.completed_tasks }

  pub report_failure : TaskAssignment → Error → Exec (Agent S) (Result Unit)
  report_failure task e = try (on_services (services.publish_result (failure task e)))

  abbrev conclude : TaskAssignment → Result {0} Unit → Agent S → Agent S
  conclude task (ok _) a = a
  conclude task (err e) a =
      let reported = (report_failure task e a).1 in
      record reported { failed_tasks = add_one reported.failed_tasks }

  -- The case of a task in the select of `Run`.
  pub handle_task : TaskAssignment → Agent S → Agent S
  handle_task task a = let (r, b) = process_task task a in conclude task r b

  abbrev registered_as : Option Registration → ℕ → HeartbeatRequest
  registered_as none at = record { timestamp = at; agent_id = ""; session_id = "" }
  registered_as (some reg) at = record {
    timestamp = at;
    agent_id = reg.agent_id;
    session_id = reg.session_id;
  }

  -- The case of a tick in `healthLoop`.
  pub health_tick : Exec (Agent S) (Result Unit)
  health_tick a =
      (do
        at ← read_clock
        _ ← try (
            on_services (
              services.publish_health (record {
                agent_id = agent_id;
                status = "idle";
                active_task_id = "";
                uptime_seconds = (at - a.start_time) / 1_000_000_000;
                completed_tasks = signed a.completed_tasks;
                failed_tasks = signed a.failed_tasks;
              })))
        now ← read_clock
        try (on_services (services.heartbeat a.daemon (registered_as a.daemon_reg now))))
        a

  health_ticks : ℕ → Agent S → Agent S
  health_ticks zero a = a
  health_ticks (suc n) a = health_ticks n (health_tick a).1

  -- `healthLoop`, with the ticks before the context ends. `time.NewTicker` panics at an interval that
  -- is not positive; nothing recovers it, so the process ends: `none`.
  pub health_loop : ℤ → ℕ → Agent S → Option (Agent S)
  health_loop interval ticks a = if is_nonpos interval then none else some (health_ticks ticks a)

  abbrev registered : Result Registration → Agent S → Agent S
  registered (ok reg) a = record a { daemon_reg = some reg }
  registered (err _) a = record a { daemon = noop }

  -- `Run` up to its loop.
  pub start : Agent S → Agent S
  start a =
      let (at, s) = services.now a.services in
      let (r, s') =
        services.register
          (record {
            agent_name = agent_id;
            agent_type = "inference";
            capabilities = "0g-compute" ∷ "0g-storage" ∷ "0g-inft" ∷ "0g-da" ∷ [];
          })
          s in
      registered r (record a { services = s'; start_time = at })

  -- The loop of `Run` beside the health loop, until the context ends.
  pub run_loop : List Event → Agent S → Agent S
  run_loop [] a = a
  run_loop (assigned task ∷ events) a = run_loop events (handle_task task a)
  run_loop (ticked ∷ events) a = run_loop events (health_tick a).1
