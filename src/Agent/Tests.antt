-- ===== src/Agent/Tests.antt =====
-- The agent at concrete inputs.
use agent_inference_ethden.Base.{
  replicate, ℕ, ◌+◌, ◌≡◌, ◌≢◌, ◌⊎◌, eq_iff, true, false, some, refl, ok, err, new, wrap, Error,
  none, List, [], ◌∷◌, arith,
}
use agent_inference_ethden.Base.Int.{ℤ, pos, is_nonpos}
use agent_inference_ethden.Compute.{completed}
use agent_inference_ethden.Hcs.{TaskAssignment}
use agent_inference_ethden.Agent.{
  Services, Agent, client, process_task, run_loop, health_loop, assigned, ticked,
}
use agent_inference_ethden.Agent.Laws
use agent_inference_ethden.Agent.Health
use agent_inference_ethden.Agent.Run.{Steps}
use agent_inference_ethden.Agent.Run.Loop
use agent_inference_ethden.Agent.Run.Loop.{at_rest}
use agent_inference_ethden.Agent.Config.Tests as ConfigTests
use agent_inference_ethden.Agent.Laws.{Pipeline}

-- Clients that succeed, and count their calls.
abbrev services : Services ℕ
services = record {
  now = λ s. (s, s);
  register = λ r s. (err (new "no daemon"), s + 1);
  heartbeat = λ d r s. (ok tt, s + 1);
  submit_job = λ r s. (ok "job1", s + 1);
  get_result = λ id s. (
    ok (record {
      job_id = id;
      status = completed;
      output = "42";
      model_id = "m";
      tokens_used = pos 7;
      duration = pos 0;
      error = "";
    }),
    s + 1,
  );
  upload = λ content meta s. (ok "ab05", s + 1);
  mint = λ r s. (ok "42", s + 1);
  publish_audit = λ e s. (ok "0x4d", s + 1);
  publish_result = λ r s. (ok tt, s + 1);
  publish_health = λ h s. (ok tt, s + 1);
}

abbrev no_chain : Services ℕ
no_chain = record services { mint = λ r s. (err (new "no gas"), s + 1) }

abbrev agent : Agent ℕ
agent = record {
  services = 0;
  daemon = client;
  daemon_reg = none;
  start_time = 0;
  completed_tasks = 0;
  failed_tasks = 0;
}

abbrev task : TaskAssignment
task = record {
  task_id = "t1";
  model_id = "m";
  input = "6 * 7";
  priority = pos 1;
  max_tokens = pos 100;
  callback_url = "";
  deadline = 0;
}

process_task-Pipeline_example :
    Pipeline services "agent" task agent
      (process_task services "agent" task agent).0
      (process_task services "agent" task agent).1
process_task-Pipeline_example = Laws.process_task-Pipeline services "agent" task agent

abbrev no_mint : Error
no_mint = wrap "agent: iNFT mint failed for task t1: " (new "no gas")

mint_fails : (process_task no_chain "agent" task agent).0 ≡ err no_mint
unfolding process_task
mint_fails = refl

interval_set : ConfigTests.idle_getenv "INFERENCE_HEALTH_INTERVAL" ≢ ""
interval_set = λ e. ground (arith, (eq_iff "0s" "").1 e)

health_loop_loaded_example :
    ((is_nonpos (pos 0) ≡ true)
      × (health_loop services "agent" ConfigTests.idle_config.health_interval 3 agent ≡ none))
    ⊎ ((is_nonpos (pos 0) ≡ false)
        × (let b = run_loop services "agent" (replicate 3 ticked) agent in
            (health_loop services "agent" ConfigTests.idle_config.health_interval 3 agent ≡ some b)
            × (b.completed_tasks ≡ 0)
            × (b.failed_tasks ≡ 0)))
health_loop_loaded_example =
    Health.health_loop_loaded services "agent" ConfigTests.parse_duration ConfigTests.idle_getenv
      ConfigTests.idle_config (pos 0) 3 agent ConfigTests.idle_loaded interval_set refl

run_loop-Steps_example :
    (qs : List (ℤ × ℤ)) × Steps (at_rest 0 0 0 []) (
      at_rest
        (run_loop services "agent" (assigned task ∷ ticked ∷ []) agent).completed_tasks
        (run_loop services "agent" (assigned task ∷ ticked ∷ []) agent).failed_tasks
        1
        qs)
run_loop-Steps_example = Loop.run_loop-Steps services "agent" (assigned task ∷ ticked ∷ []) agent
