-- ===== src/Agent/Wiring/Tests.antt =====
-- The wired agent in a world where every call succeeds.
use agent_inference_ethden.Base.{
  sentinel, canceled, Error, wrap, ◌≡◌, refl, to_bytes, ok, err, new, none, true, replicate, ◌∷◌,
  [], arith,
}
use agent_inference_ethden.World.Sample.{sample_world}
use agent_inference_ethden.Compute.Sample as ComputeSample
use agent_inference_ethden.Compute.Jobs.Tests.{ended, submitted}
use agent_inference_ethden.Compute.Jobs.Laws.{get_result-submit_job}
use agent_inference_ethden.Storage.Tests as StorageTests
use agent_inference_ethden.Inft.Tests as InftTests
use agent_inference_ethden.Inft.Encrypt.Tests as EncryptTests
use agent_inference_ethden.Hcs.{TaskAssignment}
use agent_inference_ethden.Hcs.Tests as HcsTests
use agent_inference_ethden.Da.Tests as DaTests
use agent_inference_ethden.Agent.{
  Agent, assigned, ticked, client, new_agent, start, run_loop, process_task, job_request,
  result_metadata, mint_request,
}
use agent_inference_ethden.Agent.Laws.{
  submit_failed, result_failed, upload_failed, mint_failed, report_failed, went_well,
  process_task-Pipeline, audited, answered, stored, report,
}
use agent_inference_ethden.Agent.Wiring.{Outside, Parts, Kept, build, wired}
use agent_inference_ethden.Agent.Wiring.Failed
use agent_inference_ethden.Agent.Wiring.Settled
use agent_inference_ethden.Agent.Config.{Config}
use agent_inference_ethden.Agent.Wiring.Sound
use agent_inference_ethden.Compute.Jobs.Calls.Sound.{IsSound}
use agent_inference_ethden.Agent.Wiring.Spending
use agent_inference_ethden.Compute.Jobs.Spending.{IsThrifty}
use agent_inference_ethden.Agent.Wiring.Typed
use agent_inference_ethden.Agent.Wiring.Typed.{bindings}
use agent_inference_ethden.Abi.{is_typed}
use agent_inference_ethden.Base.Int.{pos}

abbrev pub outside : Outside
outside = record {
  world = sample_world;
  compute_codec = ComputeSample.codec;
  storage_codec = StorageTests.codec;
  inft_codec = EncryptTests.codec;
  hcs_codec = HcsTests.blind_codec;
  marshal_event = DaTests.marshal;
  rounds = 0;
  register = λ h r. err (new "no daemon");
  heartbeat = λ h d r. ok tt;
}

abbrev pub parts : Parts
parts = record {
  broker = ComputeSample.broker;
  client = StorageTests.client;
  minter = InftTests.minter EncryptTests.key;
  publisher = DaTests.publisher;
  handler = HcsTests.cfg;
}

abbrev pub agent : Agent Kept
agent = record {
  services = record { broker_state = ComputeSample.fresh_state; seq_num = 0 };
  daemon = client;
  daemon_reg = none;
  start_time = 0;
  completed_tasks = 0;
  failed_tasks = 0;
}

abbrev pub task : TaskAssignment
task = HcsTests.task

pub processed : (process_task (wired outside parts) "agent" task agent).0 ≡ ok tt
processed =
    let v = wired outside parts in
    let s = (audited v "agent" task agent.services).broker_state in
    let submit = submitted (job_request task) s.history in
    let (_, _, answer, _, _, got, _, _) =
      get_result-submit_job sample_world ComputeSample.codec ComputeSample.broker (job_request task)
        s 0 submit refl in
    elim (process_task-Pipeline (wired outside parts) "agent" task agent) [
      | submit_failed f q r b ↦ ground (arith, submit)
      | result_failed j f q q2 r b ↦ ground (arith, submit, got)
      | upload_failed j x f q q2 q3 r b ↦ ground (
        arith,
        StorageTests.uploaded (to_bytes x.output) (result_metadata task)
            (answered v "agent" task agent.services j).broker_state.history,
      )
      | mint_failed j x c f q q2 q3 q4 r b ↦ ground (
        arith,
        InftTests.minted_blind (mint_request "agent" task j c)
            (stored v "agent" task agent.services j x).broker_state.history,
      )
      | report_failed j x c t f q q2 q3 q4 q5 r b ↦
          let (result, before) = report v "agent" task agent.services j x c t in
          ground (
            arith,
            HcsTests.published result
                (record { history = before.broker_state.history; seq_num = before.seq_num }),
          )
      | went_well j x c t q q2 q3 q4 q5 r b ↦ r
    ]

-- With the digests of 32 bytes.
abbrev summing : Outside
summing = record outside {
  storage_codec = record StorageTests.codec { sha256 = λ content. replicate 32 7 };
}

abbrev config : Config
config = record {
  agent_id = "agent";
  daemon_addr = "";
  hcs_task_topic = "0.0.1";
  hcs_result_topic = "0.0.2";
  health_interval = pos 30_000_000_000;
  compute = ComputeSample.broker.cfg;
  storage = StorageTests.client.cfg;
  inft = (InftTests.minter EncryptTests.key).cfg;
  da = DaTests.publisher.cfg;
}

run_loop-is_typed_example :
    is_typed
      (bindings sample_world config 3)
      (run_loop (wired summing (build summing config 3).0) "agent" (assigned task ∷ ticked ∷ []) (
        start
          (wired summing (build summing config 3).0)
          "agent"
          (new_agent client (build summing config 3).1))).services.broker_state.history
    ≡ true
run_loop-is_typed_example =
    Typed.run_loop-is_typed summing (λ content. refl) config 3 client "agent"
      (assigned task ∷ ticked ∷ [])

run_loop-paid_example :
    let ended =
      run_loop (wired outside (build outside config 3).0) "agent" (assigned task ∷ ticked ∷ []) (
        start
          (wired outside (build outside config 3).0)
          "agent"
          (new_agent client (build outside config 3).1)) in
    IsThrifty ended.services.broker_state.session ended.services.broker_state.history
run_loop-paid_example =
    Spending.run_loop-paid outside config 3 client "agent" (assigned task ∷ ticked ∷ [])

run_loop-IsSound_example :
    IsSound sample_world ComputeSample.codec
      (build outside config 3).0.broker
      (run_loop (wired outside (build outside config 3).0) "agent" (assigned task ∷ ticked ∷ []) (
        start
          (wired outside (build outside config 3).0)
          "agent"
          (new_agent client (build outside config 3).1))).services.broker_state
run_loop-IsSound_example =
    Sound.run_loop-IsSound outside config 3 client "agent" (assigned task ∷ ticked ∷ [])

-- A context that has ended.
abbrev cancelled : Outside
cancelled = record outside { world = ended }

abbrev refusal : Error
refusal =
    wrap "agent: compute submit failed for task t1: "
      (wrap "compute: context cancelled before submit: " (sentinel canceled))
