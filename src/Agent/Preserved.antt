-- ===== src/Agent/Preserved.antt =====
-- An invariant of the clients' state that every call keeps is kept by every task, every tick and
-- every run of the main loop of internal/agent/agent.go.
use agent_inference_ethden.Base.{String, List, [], ◌∷◌, Bytes, arith, Result-cases, inl, inr, sym}
use mathlib.Core.Path.{subst}
use agent_inference_ethden.Da.{AuditEvent}
use agent_inference_ethden.Storage.{Metadata}
use agent_inference_ethden.Inft.{MintRequest}
use agent_inference_ethden.Compute.{JobRequest, JobResult}
use agent_inference_ethden.Hcs.{TaskAssignment, TaskResult, HealthStatus}
use agent_inference_ethden.Agent.{
  Services, RegisterRequest, HeartbeatRequest, Daemon, Agent, Event, assigned, ticked, process_task,
  handle_task, health_tick, report_failure, failure, start, run_loop,
}
use agent_inference_ethden.Agent.Laws.{
  submitted, answered, stored, minted, reported, submit_failed, result_failed, upload_failed,
  mint_failed, report_failed, went_well, process_task-Pipeline,
}

pub record Preserves {S : Type 0} (v : Services S) (Holds : S → Type 0) : Type 0 where
  pub now : (s : S) → Holds s → Holds (v.now s).1
  pub register : (r : RegisterRequest) (s : S) → Holds s → Holds (v.register r s).1
  pub heartbeat :
      (d : Daemon) (r : HeartbeatRequest) (s : S) → Holds s → Holds (v.heartbeat d r s).1
  pub submit_job : (r : JobRequest) (s : S) → Holds s → Holds (v.submit_job r s).1
  pub get_result : (id : String) (s : S) → Holds s → Holds (v.get_result id s).1
  pub upload :
      (content : Bytes) (meta : Metadata) (s : S) → Holds s → Holds (v.upload content meta s).1
  pub mint : (r : MintRequest) (s : S) → Holds s → Holds (v.mint r s).1
  pub publish_audit : (e : AuditEvent) (s : S) → Holds s → Holds (v.publish_audit e s).1
  pub publish_result : (r : TaskResult) (s : S) → Holds s → Holds (v.publish_result r s).1
  pub publish_health : (h : HealthStatus) (s : S) → Holds s → Holds (v.publish_health h s).1

abbrev request : String → RegisterRequest
request agent_id = record {
  agent_name = agent_id;
  agent_type = "inference";
  capabilities = "0g-compute" ∷ "0g-storage" ∷ "0g-inft" ∷ "0g-da" ∷ [];
}

module _ {S : Type 0} (v : Services S) (Holds : S → Type 0) (kept : Preserves v Holds)
    (agent_id : String) where
  module _ (task : TaskAssignment) (s : S) (i : Holds s) where
    submitted-kept : Holds (submitted v agent_id task s)
    submitted-kept = kept.submit_job _ _ (kept.publish_audit _ _ (kept.now _ (kept.now _ i)))

    answered-kept : (job : String) → Holds (answered v agent_id task s job)
    answered-kept job = kept.get_result _ _ submitted-kept

    stored-kept : (job : String) (result : JobResult) → Holds (stored v agent_id task s job result)
    stored-kept job result = kept.upload _ _ _ (answered-kept job)

    minted-kept :
        (job : String) (result : JobResult) (content : String)
        → Holds (minted v agent_id task s job result content)
    minted-kept job result content = kept.mint _ _ (stored-kept job result)

    reported-kept :
        (job : String) (result : JobResult) (content token : String)
        → Holds (reported v agent_id task s job result content token).1
    reported-kept job result content token =
        kept.publish_result _ _
          (kept.now _ (kept.publish_audit _ _ (kept.now _ (minted-kept job result content))))

  abbrev After : Agent S → Type 0
  After a = Holds a.services

  process_task-Preserves :
      (task : TaskAssignment) (a : Agent S) → After a → After (process_task v agent_id task a).1
  process_task-Preserves task a i = elim (process_task-Pipeline v agent_id task a) [
    | submit_failed e q r b ↦ subst After (sym b) (submitted-kept task a.services i)
    | result_failed j e q q2 r b ↦ subst After (sym b) (answered-kept task a.services i j)
    | upload_failed j x e q q2 q3 r b ↦ subst After (sym b) (stored-kept task a.services i j x)
    | mint_failed j x c e q q2 q3 q4 r b ↦ subst After (sym b) (minted-kept task a.services i j x c)
    | report_failed j x c t e q q2 q3 q4 q5 r b ↦
        subst After (sym b) (reported-kept task a.services i j x c t)
    | went_well j x c t q q2 q3 q4 q5 r b ↦
        subst After (sym b) (reported-kept task a.services i j x c t)
  ]

  handle_task-Preserves :
      (task : TaskAssignment) (a : Agent S) → After a → After (handle_task v agent_id task a)
  unfolding handle_task report_failure
  handle_task-Preserves task a i =
      let done = process_task-Preserves task a i in
      elim (Result-cases (process_task v agent_id task a).0) [
        | inl (u, q) ↦ ground (arith, done)
        | inr (e, q) ↦ ground (arith, kept.publish_result (failure task e) _ done)
      ]

  health_tick-Preserves :
      (a : Agent S) → Holds a.services → Holds (health_tick v agent_id a).1.services
  unfolding health_tick
  health_tick-Preserves a i =
      kept.heartbeat _ _ _ (kept.now _ (kept.publish_health _ _ (kept.now _ i)))

  pub start-Preserves : (a : Agent S) → Holds a.services → Holds (start v agent_id a).services
  unfolding start
  start-Preserves a i = elim (Result-cases (v.register (request agent_id) (v.now a.services).1).0) [
    | inl (reg, q) ↦ ground (arith, kept.register (request agent_id) _ (kept.now _ i))
    | inr (e, q) ↦ ground (arith, kept.register (request agent_id) _ (kept.now _ i))
  ]

  pub run_loop-Preserves :
      (events : List Event) (a : Agent S)
      → Holds a.services
      → Holds (run_loop v agent_id events a).services
  unfolding run_loop
  run_loop-Preserves [] a i = i
  run_loop-Preserves (assigned task ∷ events) a i =
      run_loop-Preserves events _ (handle_task-Preserves task a i)
  run_loop-Preserves (ticked ∷ events) a i = run_loop-Preserves events _ (health_tick-Preserves a i)
