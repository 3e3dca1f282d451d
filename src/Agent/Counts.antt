-- ===== src/Agent/Counts.antt =====
-- What the main loop counts and reports.
use agent_inference_ethden.Base.{
  ℕ, suc, ◌+◌, ◌%◌, ◌^◌, ◌<◌, ◌≡◌, refl, ap, ◌∙◌, ◌⊎◌, inl, inr, String, List, [], ◌∷◌, Error, ok,
  err, arith,
}
use agent_inference_ethden.Hcs.{TaskAssignment}
use agent_inference_ethden.Agent.{
  Services, Agent, Event, assigned, ticked, failure, process_task, handle_task, health_tick,
  report_failure, run_loop,
}
use agent_inference_ethden.Agent.Laws.{
  submit_failed, result_failed, upload_failed, mint_failed, report_failed, went_well,
  process_task-Pipeline,
}

module _ {S : Type 0} (v : Services S) (agent_id : String) where
  -- A task whose pipeline fails is reported as failed, with the error's text, from the state in
  -- which the pipeline stopped, and counted as failed, whether or not the report gets out.
  pub handle_task-failed :
      (task : TaskAssignment) (a : Agent S) (e : Error)
      → (process_task v agent_id task a).0 ≡ err e
      → let b = (process_task v agent_id task a).1 in
        handle_task v agent_id task a ≡ record b {
          services = (v.publish_result (failure task e) b.services).1;
          failed_tasks = (b.failed_tasks + 1) % 2 ^ 64;
        }
  unfolding handle_task report_failure
  handle_task-failed task a e q = ground arith

  counted :
      (task : TaskAssignment) (a : Agent S)
      → let (r, b) = process_task v agent_id task a in
        ((r ≡ ok tt)
          × (b.completed_tasks ≡ (a.completed_tasks + 1) % 2 ^ 64)
          × (b.failed_tasks ≡ a.failed_tasks))
        ⊎ ((e : Error) × (r ≡ err e)
            × (b.completed_tasks ≡ a.completed_tasks)
            × (b.failed_tasks ≡ a.failed_tasks))
  counted task a = elim (process_task-Pipeline v agent_id task a) [
    | submit_failed e q r b ↦ inr (_, r, ap (λ x. x.completed_tasks) b, ap (λ x. x.failed_tasks) b)
    | result_failed j e q q2 r b ↦
        inr (_, r, ap (λ x. x.completed_tasks) b, ap (λ x. x.failed_tasks) b)
    | upload_failed j x e q q2 q3 r b ↦
        inr (_, r, ap (λ x. x.completed_tasks) b, ap (λ x. x.failed_tasks) b)
    | mint_failed j x c e q q2 q3 q4 r b ↦
        inr (_, r, ap (λ x. x.completed_tasks) b, ap (λ x. x.failed_tasks) b)
    | report_failed j x c t e q q2 q3 q4 q5 r b ↦
        inr (_, r, ap (λ x. x.completed_tasks) b, ap (λ x. x.failed_tasks) b)
    | went_well j x c t q q2 q3 q4 q5 r b ↦
        inl (r, ap (λ x. x.completed_tasks) b, ap (λ x. x.failed_tasks) b)
  ]

  pub handle_task-counts :
      (task : TaskAssignment) (a : Agent S)
      → let b = handle_task v agent_id task a in
        ((b.completed_tasks ≡ (a.completed_tasks + 1) % 2 ^ 64) × (b.failed_tasks ≡ a.failed_tasks))
        ⊎ ((b.completed_tasks ≡ a.completed_tasks)
            × (b.failed_tasks ≡ (a.failed_tasks + 1) % 2 ^ 64))
  unfolding handle_task report_failure
  handle_task-counts task a = elim (counted task a) [
    | inl (r, c, f) ↦ inl (ground arith)
    | inr (e, r, c, f) ↦ inr (ground arith)
  ]

  pub health_tick-counts :
      (a : Agent S)
      → let b = (health_tick v agent_id a).1 in
        (b.completed_tasks ≡ a.completed_tasks) × (b.failed_tasks ≡ a.failed_tasks)
  unfolding health_tick
  health_tick-counts a = (refl, refl)

  abbrev pub tasks_of : List Event → ℕ
  tasks_of [] = 0
  tasks_of (assigned task ∷ events) = suc (tasks_of events)
  tasks_of (ticked ∷ events) = tasks_of events

  mod_small : {n : ℕ} → n < 2 ^ 64 → n % 2 ^ 64 ≡ n
  mod_small h = omega arith

  -- The two counters together grow by the number of tasks, however ticks come between them, as long
  -- as they do not pass the largest int64.
  pub run_loop-counts :
      (events : List Event) (a : Agent S)
      → a.completed_tasks + a.failed_tasks + tasks_of events < 2 ^ 63
      → let b = run_loop v agent_id events a in
        b.completed_tasks + b.failed_tasks ≡ a.completed_tasks + a.failed_tasks + tasks_of events
  unfolding run_loop
  run_loop-counts [] a small = omega arith
  run_loop-counts (assigned task ∷ events) a small =
      let b = handle_task v agent_id task a in
      let one : b.completed_tasks + b.failed_tasks ≡ suc (a.completed_tasks + a.failed_tasks) =
        elim (handle_task-counts task a) [
          | inl (c, f) ↦ omega (arith, c ∙ mod_small (omega arith), f)
          | inr (c, f) ↦ omega (arith, c, f ∙ mod_small (omega arith))
        ] in
      omega (arith, run_loop-counts events b (omega arith))
  run_loop-counts (ticked ∷ events) a small =
      let b = (health_tick v agent_id a).1 in
      let (c, f) = health_tick-counts a in omega (arith, run_loop-counts events b (omega arith))

  handle_task-completed :
      (task : TaskAssignment) (a : Agent S)
      → (process_task v agent_id task a).0 ≡ ok tt
      → let b = handle_task v agent_id task a in
        (b.completed_tasks ≡ (a.completed_tasks + 1) % 2 ^ 64) × (b.failed_tasks ≡ a.failed_tasks)
  unfolding handle_task
  handle_task-completed task a e = elim (counted task a) [
    | inl (r, c, f) ↦ ground arith
    | inr (x, r, c, f) ↦ ground arith
  ]

  -- If no pipeline fails, all tasks are counted as completed.
  pub run_loop-completes :
      ((task : TaskAssignment) (a : Agent S) → (process_task v agent_id task a).0 ≡ ok tt)
      → (events : List Event) (a : Agent S) → a.completed_tasks + tasks_of events < 2 ^ 63
      → let b = run_loop v agent_id events a in
        (b.completed_tasks ≡ a.completed_tasks + tasks_of events)
        × (b.failed_tasks ≡ a.failed_tasks)
  unfolding run_loop
  run_loop-completes fine [] a small = (omega arith, refl)
  run_loop-completes fine (assigned task ∷ events) a small =
      let b = handle_task v agent_id task a in
      let (c, f) = handle_task-completed task a (fine task a) in
      let one = c ∙ mod_small (omega arith) in
      let (all, same) = run_loop-completes fine events b (omega (arith, one)) in
      (omega (arith, one, all), same ∙ f)
  run_loop-completes fine (ticked ∷ events) a small =
      let b = (health_tick v agent_id a).1 in
      let (c, f) = health_tick-counts a in
      let (all, same) = run_loop-completes fine events b (omega (arith, c)) in
      (omega (arith, c, all), same ∙ f)
