-- ===== src/Agent/Laws.antt =====
-- The stages of `processTask`.
use agent_inference_ethden.Base.{
  ◌+◌, ◌-◌, ◌/◌, ◌%◌, ◌^◌, ◌≡◌, inl, inr, String, ◌<>◌, Error, wrap, Result, ok, err, Result-cases,
  to_bytes, arith,
}
use agent_inference_ethden.Compute.{JobResult}
use agent_inference_ethden.Da.{task_received, job_completed}
use agent_inference_ethden.Hcs.{TaskAssignment, TaskResult}
use agent_inference_ethden.Agent.{
  Services, Agent, audit_event, job_request, result_metadata, mint_request, process_task,
  id_or_empty,
}
use agent_inference_ethden.Agent.Signal.{derive_signal_metrics}

module _ {S : Type 0} (v : Services S) (agent_id : String) (task : TaskAssignment) where
  -- The state before the job is submitted: the clock was read twice, and the task's arrival audited.
  abbrev pub audited : S → S
  audited s =
      let (at, s') = v.now (v.now s).1 in
      (v.publish_audit (audit_event agent_id task_received task at) s').1

  abbrev pub submitted : S → S
  submitted s = (v.submit_job (job_request task) (audited s)).1

  abbrev pub answered : S → String → S
  answered s job = (v.get_result job (submitted s)).1

  abbrev pub stored : S → String → JobResult → S
  stored s job result =
      (v.upload (to_bytes result.output) (result_metadata task) (answered s job)).1

  abbrev pub minted : S → String → JobResult → String → S
  minted s job result content =
      (v.mint (mint_request agent_id task job content) (stored s job result)).1

  -- The second audit, with the state that it leaves.
  abbrev pub completion : S → String → JobResult → String → String → Result String × S
  completion s job result content token =
      let (at, s') = v.now (minted s job result content) in
      v.publish_audit
        (record (audit_event agent_id job_completed task at) {
          job_id = job;
          storage_ref = content;
          inft_ref = token;
        })
        s'

  -- What is reported of a task that went well, and the state before the report.
  abbrev pub report : S → String → JobResult → String → String → TaskResult × S
  report s job result content token =
      let (audit, s') = completion s job result content token in
      let (end, s'') = v.now s' in
      (
        record {
          task_id = task.task_id;
          status = "completed";
          output = result.output;
          duration_ms = (end - (v.now s).0) / 1_000_000;
          tokens_used = result.tokens_used;
          storage_content_id = content;
          inft_token_id = token;
          audit_submission_id = id_or_empty audit;
          error = "";
          signal_confidence = (derive_signal_metrics result.tokens_used).0;
          risk_score = (derive_signal_metrics result.tokens_used).1;
        },
        s'',
      )

  abbrev pub reported : S → String → JobResult → String → String → Result {0} Unit × S
  reported s job result content token =
      let (answer, s') = report s job result content token in v.publish_result answer s'

  -- The ways in which a task may end, from a state, with a result in another: the first stage that
  -- fails is the last one that ran, and its error is the result's.
  pub data Pipeline (a : Agent S) (r : Result {0} Unit) (b : Agent S) : Type 0 where
    submit_failed :
        (e : Error)
        → (v.submit_job (job_request task) (audited a.services)).0 ≡ err e
        → r ≡ err (wrap ("agent: compute submit failed for task " <> task.task_id <> ": ") e)
        → b ≡ record a { services = submitted a.services }
        → Pipeline a r b
    result_failed :
        (job : String) (e : Error)
        → (v.submit_job (job_request task) (audited a.services)).0 ≡ ok job
        → (v.get_result job (submitted a.services)).0 ≡ err e
        → r ≡ err (wrap ("agent: compute result failed for job " <> job <> ": ") e)
        → b ≡ record a { services = answered a.services job }
        → Pipeline a r b
    upload_failed :
        (job : String) (result : JobResult) (e : Error)
        → (v.submit_job (job_request task) (audited a.services)).0 ≡ ok job
        → (v.get_result job (submitted a.services)).0 ≡ ok result
        → (v.upload (to_bytes result.output) (result_metadata task) (answered a.services job)).0
          ≡ err e
        → r ≡ err (wrap ("agent: storage upload failed for task " <> task.task_id <> ": ") e)
        → b ≡ record a { services = stored a.services job result }
        → Pipeline a r b
    mint_failed :
        (job : String) (result : JobResult) (content : String) (e : Error)
        → (v.submit_job (job_request task) (audited a.services)).0 ≡ ok job
        → (v.get_result job (submitted a.services)).0 ≡ ok result
        → (v.upload (to_bytes result.output) (result_metadata task) (answered a.services job)).0
          ≡ ok content
        → (v.mint (mint_request agent_id task job content) (stored a.services job result)).0 ≡ err e
        → r ≡ err (wrap ("agent: iNFT mint failed for task " <> task.task_id <> ": ") e)
        → b ≡ record a { services = minted a.services job result content }
        → Pipeline a r b
    report_failed :
        (job : String) (result : JobResult) (content token : String) (e : Error)
        → (v.submit_job (job_request task) (audited a.services)).0 ≡ ok job
        → (v.get_result job (submitted a.services)).0 ≡ ok result
        → (v.upload (to_bytes result.output) (result_metadata task) (answered a.services job)).0
          ≡ ok content
        → (v.mint (mint_request agent_id task job content) (stored a.services job result)).0
          ≡ ok token
        → (reported a.services job result content token).0 ≡ err e
        → r ≡ err (wrap ("agent: result publish failed for task " <> task.task_id <> ": ") e)
        → b ≡ record a { services = (reported a.services job result content token).1 }
        → Pipeline a r b
    went_well :
        (job : String) (result : JobResult) (content token : String)
        → (v.submit_job (job_request task) (audited a.services)).0 ≡ ok job
        → (v.get_result job (submitted a.services)).0 ≡ ok result
        → (v.upload (to_bytes result.output) (result_metadata task) (answered a.services job)).0
          ≡ ok content
        → (v.mint (mint_request agent_id task job content) (stored a.services job result)).0
          ≡ ok token
        → (reported a.services job result content token).0 ≡ ok tt
        → r ≡ ok tt
        → b ≡ record a {
          services = (reported a.services job result content token).1;
          completed_tasks = (a.completed_tasks + 1) % 2 ^ 64;
        }
        → Pipeline a r b

  -- Every task goes through the stages in order, submit, result, upload, mint, report, up to the first
  -- that fails: no later stage runs, and the error names the stage. If none fails the report carries
  -- the outputs of all of them, and the task is counted as completed. An audit that fails ends
  -- nothing.
  pub process_task-Pipeline :
      (a : Agent S)
      → Pipeline a (process_task v agent_id task a).0 (process_task v agent_id task a).1
  unfolding process_task
  process_task-Pipeline a =
      elim (Result-cases (v.submit_job (job_request task) (audited a.services)).0) [
        | inr (e, q) ↦ submit_failed e q (ground arith) (ground arith)
        | inl (job, q) ↦ elim (Result-cases (v.get_result job (submitted a.services)).0) [
          | inr (e, q2) ↦ result_failed job e q q2 (ground arith) (ground arith)
          | inl (result, q2) ↦
              elim (Result-cases
                (v.upload (to_bytes result.output) (result_metadata task)
                  (answered a.services job)).0) [
                    | inr (e, q3) ↦ upload_failed job result e q q2 q3 (ground arith) (ground arith)
                    | inl (content, q3) ↦
                        elim (Result-cases
                          (v.mint (mint_request agent_id task job content)
                            (stored a.services job result)).0) [
                              | inr (e, q4) ↦
                                  mint_failed job result content e q q2 q3 q4 (ground arith)
                                    (ground arith)
                              | inl (token, q4) ↦
                                  elim (Result-cases
                                    (reported a.services job result content token).0) [
                                      | inr (e, q5) ↦
                                          report_failed job result content token e q q2 q3 q4 q5
                                            (ground arith) (ground arith)
                                      | inl (done, q5) ↦
                                          went_well job result content token q q2 q3 q4 q5
                                            (ground arith) (ground arith)
                                    ]
                            ]
                  ]
        ]
      ]
