-- ===== src/Command/Tests.antt =====
-- The command at concrete inputs.
use agent_inference_ethden.Base.{
  ℕ, ◌≡◌, refl, false, Bytes, ok, err, new, some, [], ◌∷◌, str_eq, sentinel, canceled,
  deadline_exceeded, annotated, if◌then◌else◌, arith,
}
use agent_inference_ethden.World.{History}
use agent_inference_ethden.World.Sample.{sample_world}
use agent_inference_ethden.Chain.{load_key, dial_client}
use agent_inference_ethden.Hcs.{TaskResult}
use agent_inference_ethden.Hcs.Tests as HcsTests
use agent_inference_ethden.Hcs.Laws.{result_envelope}
use agent_inference_ethden.Hcs.Sent.{IsOpen}
use agent_inference_ethden.Hcs.Transport.{publish as submit}
use agent_inference_ethden.Hcs.Transport.Tests as TransportTests
use agent_inference_ethden.Agent.{Agent, noop, new_agent, process_task, run_loop, assigned, ticked}
use agent_inference_ethden.Agent.Config.Tests as ConfigTests
use agent_inference_ethden.Mock.{increment}
use agent_inference_ethden.Agent.Wiring.{wired}
use agent_inference_ethden.Agent.Wiring.Tests as WiringTests
use agent_inference_ethden.Command.{
  Outer, Setup, on_chain, fallback, start_up, init_clients, init_hcs_transport, connect_daemon,
  exit_status, publish, with_transport,
}
use agent_inference_ethden.Command.Mocked.{MockOutside, Mocks, mocked, build_mocks}
use agent_inference_ethden.Command.Laws
use agent_inference_ethden.Command.Start
use agent_inference_ethden.Command.Mode

stopped : exit_status (some (sentinel canceled)) ≡ 0
unfolding exit_status
stopped = refl

broken : exit_status (some (sentinel deadline_exceeded)) ≡ 1
unfolding exit_status
broken = refl

-- The prefix of a key is dropped once.
key_of : load_key (λ s. if str_eq s "0xab" then ok 7 else err (new "bad")) "0x0xab" ≡ ok 7
unfolding load_key
key_of = refl

confirmed :
    (process_task
      (wired
        (Laws.linked TransportTests.transport
          (λ h. TransportTests.network (λ j. false))
          WiringTests.outside)
        WiringTests.parts)
      "agent"
      WiringTests.task
      WiringTests.agent).0
    ≡ ok tt
unfolding with_transport publish submit
confirmed = WiringTests.processed

process_task-IsConfirmed_example :
    (answer : TaskResult) × (h : History) × (n : ℕ) × (at : ℕ) × (payload : Bytes)
    × (message : Bytes) × (answer.task_id ≡ "t1")
    × (answer.status ≡ "completed")
    × (WiringTests.outside.hcs_codec.marshal_result answer ≡ ok payload)
    × (WiringTests.outside.hcs_codec.marshal_envelope
          (result_envelope WiringTests.parts.handler answer n at payload)
        ≡ ok message)
    × Laws.IsConfirmed (TransportTests.network (λ j. false)) "0.0.2" message
process_task-IsConfirmed_example =
    Laws.process_task-IsConfirmed TransportTests.transport
      (λ h. TransportTests.network (λ j. false)) WiringTests.outside WiringTests.parts "agent"
      WiringTests.task WiringTests.agent confirmed

abbrev outer : Outer
outer = record {
  getenv = ConfigTests.getenv;
  parse_duration = ConfigTests.parse_duration;
  dial_context = λ url. ok 3;
  hex_to_ecdsa = λ s. ok 7;
  account_id_from_string = λ s. ok 1;
  private_key_from_string = λ s. ok 2;
  client_for_testnet = λ account key. 4;
  new_grpc_client = λ address. some (new "no daemon");
}

abbrev setup : Setup
setup = record {
  cfg = ConfigTests.small_config;
  clients = on_chain 3 7;
  transport = fallback;
  daemon = noop;
}

started : start_up outer ≡ ok setup
unfolding start_up init_clients init_hcs_transport connect_daemon dial_client load_key
started = ground (arith, ConfigTests.loaded)

start_up-IsStarted_example : Start.IsStarted outer setup
start_up-IsStarted_example = Start.start_up-IsStarted outer started

abbrev mock_outside : MockOutside
mock_outside = record {
  world = with_transport fallback (λ h. TransportTests.network (λ j. false)) sample_world;
  codec = HcsTests.blind_codec;
  intn = λ i n. 20;
  register = λ h r. err (new "no daemon");
  heartbeat = λ h d r. ok tt;
}

is_open : IsOpen mock_outside.world mock_outside.codec HcsTests.cfg
unfolding with_transport
is_open = record {
  live = λ h. refl;
  results = λ r. (_, refl);
  clock = λ h. omega arith;
  envelopes = λ r n at payload q c. (_, refl);
  takes = λ h topic message. refl;
}

abbrev mock_agent : Agent Mocks
mock_agent = new_agent noop (build_mocks 0 [])

process_task-mocked_example :
    (answer : TaskResult) × (s : Mocks) × Mode.IsMade mock_outside HcsTests.cfg "agent"
      HcsTests.task mock_agent.services answer
    × ((process_task (mocked mock_outside HcsTests.cfg) "agent" HcsTests.task mock_agent).0
        ≡ annotated "agent: result publish failed for task t1: "
            (Mode.sent mock_outside HcsTests.cfg "agent" answer s.sender).0)
    × (s.compute.job_counter ≡ increment mock_agent.services.compute.job_counter)
    × (s.sender.seq_num ≡ mock_agent.services.sender.seq_num)
process_task-mocked_example =
    Mode.process_task-mocked mock_outside HcsTests.cfg "agent" HcsTests.task mock_agent

run_loop-mocked_example :
    let b =
      run_loop
        (mocked mock_outside HcsTests.cfg)
        "agent"
        (assigned HcsTests.task ∷ ticked ∷ assigned HcsTests.task ∷ [])
        mock_agent in
    (b.completed_tasks ≡ 2) × (b.failed_tasks ≡ 0)
unfolding new_agent
run_loop-mocked_example =
    Mode.run_loop-mocked mock_outside HcsTests.cfg "agent" is_open
      (assigned HcsTests.task ∷ ticked ∷ assigned HcsTests.task ∷ []) mock_agent (omega arith)
