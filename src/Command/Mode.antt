-- ===== src/Command/Mode.antt =====
-- The agent in the mock mode: internal/zerog/zgmock behind the pipeline of internal/agent/agent.go.
use agent_inference_ethden.Base.{
  ◌+◌, ◌^◌, ◌<◌, ◌≡◌, refl, ◌∙◌, ap, String, ◌<>◌, List, Result, ok, to_bytes, sym, annotated,
  arith,
}
use agent_inference_ethden.Base.Int.{pos, signed}
use agent_inference_ethden.Hcs.{HandlerConfig, TaskAssignment, TaskResult, Sender, publish_result}
use agent_inference_ethden.Agent.{Agent, Event, process_task, result_metadata, run_loop}
use agent_inference_ethden.Compute.{JobResult}
use agent_inference_ethden.Agent.Laws.{
  report, process_task-Pipeline, submit_failed, result_failed, upload_failed, mint_failed,
  report_failed, went_well,
}
use agent_inference_ethden.Base.Decimal.{decimal_ℤ}
use agent_inference_ethden.Hcs.Sent.{IsOpen, publish_result-ok}
use agent_inference_ethden.Agent.Counts.{tasks_of, run_loop-completes}
use agent_inference_ethden.Mock.{increment, submit_job, get_result, upload, mint, publish}
use agent_inference_ethden.Command.Mocked.{MockOutside, Mocks, mocked}

module _ (o : MockOutside) (handler : HandlerConfig) (agent_id : String) where
  abbrev pub sent : TaskResult → Sender → Result {0} Unit × Sender
  sent = publish_result o.world o.codec handler

  -- What a task reports in the mock mode.
  pub record IsMade (task : TaskAssignment) (before : Mocks) (answer : TaskResult) : Type 0 where
    pub id : answer.task_id ≡ task.task_id
    pub status : answer.status ≡ "completed"
    pub output : answer.output ≡ "{\"result\": \"mock inference output\"}"
    pub tokens : answer.tokens_used ≡ pos (80 + o.intn before.compute.drawn 400)
    pub content :
        answer.storage_content_id
        ≡ "mock-content-" <> decimal_ℤ (signed (increment before.storage.upload_counter))
    pub token : answer.inft_token_id ≡ "mock-inft-001"
    pub audit :
        answer.audit_submission_id
        ≡ "mock-audit-" <> decimal_ℤ (signed (increment (increment before.audit.pub_counter)))

  abbrev made : TaskAssignment → Mocks → String → JobResult → String → String → TaskResult × Mocks
  made task before job result content token =
      report (mocked o handler) agent_id task before job result content token

  made-IsMade :
      (task : TaskAssignment) (before : Mocks) (job : String) (result : JobResult)
      (content token : String)
      → (get_result o.intn job
          (record before.compute { job_counter = increment before.compute.job_counter })).0
        ≡ ok result
      → (upload (to_bytes result.output) (result_metadata task) before.storage).0 ≡ ok content
      → token ≡ "mock-inft-001"
      → IsMade task before (made task before job result content token).0
  unfolding submit_job get_result upload mint publish
  made-IsMade task before job result content token q r t = record {
    id = refl;
    status = refl;
    output = ground arith;
    tokens = ground arith;
    content = ground arith;
    token = t;
    audit = refl;
  }

  -- In the mock mode no stage of a task but its report can fail: the task ends as the publication of
  -- a completed result does, which has the made-up output and ids, the next of each mock.
  pub process_task-mocked :
      (task : TaskAssignment) (a : Agent Mocks)
      → (answer : TaskResult) × (s : Mocks) × IsMade task a.services answer
        × ((process_task (mocked o handler) agent_id task a).0
            ≡ annotated
                ("agent: result publish failed for task " <> task.task_id <> ": ")
                (sent answer s.sender).0)
        × (s.compute.job_counter ≡ increment a.services.compute.job_counter)
        × (s.sender.seq_num ≡ a.services.sender.seq_num)
  unfolding submit_job get_result upload mint publish
  process_task-mocked task a = elim (process_task-Pipeline (mocked o handler) agent_id task a) [
    | submit_failed f q r b ↦ ground arith
    | result_failed j f q q2 r b ↦ ground arith
    | upload_failed j x f q q2 q3 r b ↦ ground arith
    | mint_failed j x c f q q2 q3 q4 r b ↦ ground arith
    | report_failed j x c t f q q2 q3 q4 q5 r b ↦
        let (answer, s) = made task a.services j x c t in
        let text = "agent: result publish failed for task " <> task.task_id <> ": " in
        (
          answer,
          s,
          made-IsMade task a.services j x c t q2 q3 (ground arith),
          r ∙ ap (λ z. annotated text z) (sym q5),
          refl,
          refl,
        )
    | went_well j x c t q q2 q3 q4 q5 r b ↦
        let (answer, s) = made task a.services j x c t in
        let text = "agent: result publish failed for task " <> task.task_id <> ": " in
        (
          answer,
          s,
          made-IsMade task a.services j x c t q2 q3 (ground arith),
          r ∙ ap (λ z. annotated text z) (sym q5),
          refl,
          refl,
        )
  ]

module _ (o : MockOutside) (handler : HandlerConfig) (agent_id : String)
    (is_open : IsOpen o.world o.codec handler) where
  process_task-ok :
      (task : TaskAssignment) (a : Agent Mocks)
      → (process_task (mocked o handler) agent_id task a).0 ≡ ok tt
  process_task-ok task a =
      let (answer, s, done, ends, jobs, number) = process_task-mocked o handler agent_id task a in
      let text = "agent: result publish failed for task " <> task.task_id <> ": " in
      ends
      ∙ ap (λ z. annotated text z)
          (publish_result-ok o.world o.codec handler is_open answer s.sender)

  -- In the mock mode, while the context lives, the clock is before the year 10000, JSON encodes each
  -- result and each envelope that has one as its payload and such a time, and the transport takes each
  -- message, as the fallback transport does: every task that the main loop takes is counted as
  -- completed, and none as failed, if the count stays below 2^63.
  pub run_loop-mocked :
      (events : List Event) (a : Agent Mocks)
      → a.completed_tasks + tasks_of (mocked o handler) agent_id events < 2 ^ 63
      → let b = run_loop (mocked o handler) agent_id events a in
        (b.completed_tasks ≡ a.completed_tasks + tasks_of (mocked o handler) agent_id events)
        × (b.failed_tasks ≡ a.failed_tasks)
  run_loop-mocked events a small =
      run_loop-completes (mocked o handler) agent_id process_task-ok events a small
