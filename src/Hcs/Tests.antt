-- ===== src/Hcs/Tests.antt =====
-- The handler at concrete inputs.
use agent_inference_ethden.Base.{
  ℕ, ◌≡◌, ◌↔◌, ◌⊎◌, refl, ok, err, new, Result, Bytes, [], ◌∷◌, some, arith,
}
use agent_inference_ethden.Base.Int.{pos}
use agent_inference_ethden.World.{publications}
use agent_inference_ethden.World.Sample.{sample_world}
use agent_inference_ethden.Hcs.{
  Envelope, TaskAssignment, TaskResult, HealthStatus, HandlerConfig, Codec, Sender, publish_result,
  accepted, task_assignment,
}
use agent_inference_ethden.Hcs.Laws
use agent_inference_ethden.Hcs.Laws.{Outcome, result_envelope, health_envelope}
use agent_inference_ethden.Hcs.Numbers
use agent_inference_ethden.Hcs.Numbers.{KeepsNumber, IsStamped, publish_all, health, result}

abbrev pub cfg : HandlerConfig
cfg = record { task_topic_id = "0.0.1"; result_topic_id = "0.0.2"; agent_id = "agent" }

abbrev pub task : TaskAssignment
task = record {
  task_id = "t1";
  model_id = "m";
  input = "6 * 7";
  priority = pos 1;
  max_tokens = pos 100;
  callback_url = "";
  deadline = 0;
}

abbrev beat : ℕ → ℕ → Bytes → Envelope
beat n at payload = record {
  type = "heartbeat";
  sender = "agent";
  recipient = "";
  task_id = "";
  sequence_num = n;
  timestamp = at;
  payload = payload;
}

-- A code that keeps the number of an envelope, and reads any message as a heartbeat.
abbrev marshal_beat : Envelope → Result Bytes
marshal_beat env = ok (env.sequence_num ∷ env.timestamp ∷ env.payload)

abbrev unmarshal_beat : Bytes → Result Envelope
unmarshal_beat (n ∷ at ∷ payload) = ok (beat n at payload)
unmarshal_beat _ = err (new "")

abbrev codec : Codec
codec = record {
  marshal_envelope = marshal_beat;
  unmarshal_envelope = unmarshal_beat;
  marshal_result = λ r. ok [];
  marshal_health = λ h. ok [];
  unmarshal_task = λ b. ok task;
}

codec-KeepsNumber : KeepsNumber codec
codec-KeepsNumber env message e =
    (beat env.sequence_num env.timestamp env.payload, ground arith, refl)

abbrev status : HealthStatus
status = record {
  agent_id = "agent";
  status = "idle";
  active_task_id = "";
  uptime_seconds = 30;
  completed_tasks = pos 1;
  failed_tasks = pos 0;
}

abbrev answer : TaskResult
answer = record {
  task_id = "t1";
  status = "completed";
  output = "42";
  duration_ms = 5;
  tokens_used = pos 7;
  storage_content_id = "ab05";
  inft_token_id = "42";
  audit_submission_id = "0x4d";
  error = "";
  signal_confidence = 0;
  risk_score = 70;
}

abbrev sender : Sender
sender = record { history = []; seq_num = 0 }

publish_all-IsStamped_example :
    let t =
      publish_all sample_world codec cfg
        (health status ∷ result answer ∷ health status ∷ [])
        sender in
    IsStamped codec t.seq_num (publications t.history)
publish_all-IsStamped_example =
    Numbers.publish_all-IsStamped sample_world codec cfg
      (health status ∷ result answer ∷ health status ∷ []) sender codec-KeepsNumber (omega arith) tt

-- A code in which every message is a broadcast of the task.
abbrev broadcast : Envelope
broadcast = record {
  type = "task_assignment";
  sender = "coordinator";
  recipient = "";
  task_id = "t1";
  sequence_num = 1;
  timestamp = 0;
  payload = [];
}

abbrev pub task_codec : Codec
task_codec = record codec { unmarshal_envelope = λ b. ok broadcast }

accepted_lem_example : (accepted task_codec cfg [] ≡ some task) ↔ (
    (env : Envelope) × (task_codec.unmarshal_envelope [] ≡ ok env)
    × (env.type ≡ task_assignment)
    × ((env.recipient ≡ "") ⊎ (env.recipient ≡ cfg.agent_id))
    × (task_codec.unmarshal_task env.payload ≡ ok task))
accepted_lem_example = Laws.accepted_lem task_codec cfg [] task

pub accepts : accepted task_codec cfg [] ≡ some task
unfolding accepted
accepts = refl

-- A code that does not look at the envelope.
abbrev pub blind_codec : Codec
blind_codec = record codec { marshal_envelope = λ env. ok [] }

pub published :
    (r : TaskResult) (s : Sender) → (publish_result sample_world blind_codec cfg r s).0 ≡ ok tt
unfolding publish_result
published r s = refl
