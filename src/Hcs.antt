-- ===== src/Hcs.antt =====
-- internal/hcs/handler.go: what the handler publishes, and which messages it takes. The goroutine
-- of the subscription is in Hcs/Subscription.
mod Types
pub mod Subscription
pub mod Transport
pub mod Laws
pub mod Numbers
pub mod Sent
pub mod Race
pub mod Keeps
pub mod Tests
pub use Types.*
use agent_inference_ethden.Base.{
  ℕ, ◌+◌, ◌%◌, ◌^◌, String, ◌<>◌, Option, none, some, Bool, not, ◌&&◌, Bytes, Error, sentinel, wrap,
  Result, ok, err, publish_failed, Exec, lift, annotate, gets, modify, ◌>>=◌, ◌>>◌, raise, pure,
  raise_some, str_eq, if◌then◌else◌,
}
use agent_inference_ethden.World.{World, History, ctx_err, now, hcs_publish, Io}

-- `Handler.seqNum`, an atomic uint64, and what the agent has done so far.
pub record Sender : Type 0 where
  pub history : History
  pub seq_num : ℕ

abbrev pub outside : {A : Type 0} → Io A → Exec Sender A
outside call s = let (r, h) = call s.history in (r, record s { history = h })

-- `seqNum.Add(1)`
abbrev pub next : Exec Sender ℕ
next s = let n = (s.seq_num + 1) % 2 ^ 64 in (ok n, record s { seq_num = n })

-- `if err := Publish(...); err != nil`, where the message names no cause.
abbrev unsent : Option Error → String → Exec Sender Unit
unsent none msg = pure tt
unsent (some _) msg = raise (wrap msg (sentinel publish_failed))

module _ (w : World) (codec : Codec) (cfg : HandlerConfig) where
  pub publish_result : TaskResult → Exec Sender Unit
  publish_result result = do
    ended ← outside (ctx_err w)
    raise_some ended "hcs: context cancelled before publish result: "
    payload ← annotate "hcs: failed to marshal result: " (lift (codec.marshal_result result))
    n ← next
    at ← outside (now w)
    message ← annotate "hcs: failed to marshal envelope: " (
        lift (
          codec.marshal_envelope (record {
            type = task_result;
            sender = cfg.agent_id;
            recipient = "";
            task_id = result.task_id;
            sequence_num = n;
            timestamp = at;
            payload = payload;
          })))
    failed ← outside (hcs_publish w cfg.result_topic_id message)
    unsent failed ("hcs: failed to publish result for task " <> result.task_id <> ": ")

  pub publish_health : HealthStatus → Exec Sender Unit
  publish_health status = do
    ended ← outside (ctx_err w)
    raise_some ended "hcs: context cancelled before publish health: "
    payload ← annotate "hcs: failed to marshal health status: " (lift (codec.marshal_health status))
    n ← next
    at ← outside (now w)
    message ← annotate "hcs: failed to marshal envelope: " (
        lift (
          codec.marshal_envelope (record {
            type = heartbeat;
            sender = cfg.agent_id;
            recipient = "";
            task_id = "";
            sequence_num = n;
            timestamp = at;
            payload = payload;
          })))
    failed ← outside (hcs_publish w cfg.result_topic_id message)
    unsent failed "hcs: failed to publish health: "

module _ (codec : Codec) (cfg : HandlerConfig) where
  abbrev with_payload : Result TaskAssignment → Option TaskAssignment
  with_payload (ok task) = some task
  with_payload (err _) = none

  abbrev with_envelope : Result Envelope → Option TaskAssignment
  with_envelope (err _) = none
  with_envelope (ok env) =
      if not (str_eq env.type task_assignment)
      then none
      else if not (str_eq env.recipient "") && not (str_eq env.recipient cfg.agent_id)
      then none
      else with_payload (codec.unmarshal_task env.payload)

  -- The task that `processMessage` puts into the channel, if it skips none of its checks.
  pub accepted : Bytes → Option TaskAssignment
  accepted message = with_envelope (codec.unmarshal_envelope message)
