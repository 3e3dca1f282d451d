-- ===== src/Agent/Wiring/Sound.antt =====
-- The broker's invariant in the agent that cmd/agent-inference/main.go builds.
use agent_inference_ethden.Base.{ℕ, String, List, some}
use agent_inference_ethden.Compute.Jobs.Calls.Sound.{
  IsSound, submit_job-IsSound, get_result-IsSound,
}
use agent_inference_ethden.Compute.Jobs.Calls.Laws.{new_broker-IsSound}
use agent_inference_ethden.Agent.{Daemon, Event, new_agent, start, run_loop}
use agent_inference_ethden.Agent.Config.{Config}
use agent_inference_ethden.Agent.Preserved.{Preserves, start-Preserves, run_loop-Preserves}
use agent_inference_ethden.Agent.Wiring.{Outside, Parts, Kept, build, wired}

module _ (o : Outside) (p : Parts) where
  abbrev pub Holds : Kept → Type 0
  Holds s = IsSound o.world o.compute_codec p.broker s.broker_state

  wired-Preserves : Preserves (wired o p) Holds
  wired-Preserves = record {
    now = λ s i. record { filled = i.filled; held = i.held; own = i.own };
    register = λ r s i. i;
    heartbeat = λ d r s i. i;
    submit_job = λ r s i. submit_job-IsSound o.world o.compute_codec p.broker r s.broker_state i;
    get_result =
        λ id s i. get_result-IsSound o.world o.compute_codec p.broker o.rounds id s.broker_state i;
    upload = λ content meta s i. record { filled = i.filled; held = i.held; own = i.own };
    mint = λ r s i. record { filled = i.filled; held = i.held; own = i.own };
    publish_audit = λ e s i. record { filled = i.filled; held = i.held; own = i.own };
    publish_result = λ r s i. record { filled = i.filled; held = i.held; own = i.own };
    publish_health = λ h s i. record { filled = i.filled; held = i.held; own = i.own };
  }

module _ (o : Outside) (cfg : Config) (key : ℕ) (daemon : Daemon) (agent_id : String) where
  -- In every state that the agent of `main` reaches, from its start on, the broker's list of models
  -- is absent or not empty, its token is invalidated or a signed token for the provider that it is
  -- cached for, and each result in its map is complete and stands under its own job id.
  pub run_loop-IsSound :
      (events : List Event)
      → let p = (build o cfg key).0 in
        let agent = new_agent daemon (build o cfg key).1 in
        let ended = run_loop (wired o p) agent_id events (start (wired o p) agent_id agent) in
        IsSound o.world o.compute_codec p.broker ended.services.broker_state
  unfolding build new_agent
  run_loop-IsSound events =
      let p = (build o cfg key).0 in
      run_loop-Preserves (wired o p) (Holds o p) (wired-Preserves o p) agent_id events _ (
        start-Preserves (wired o p) (Holds o p) (wired-Preserves o p) agent_id
          (new_agent daemon (build o cfg key).1)
          (new_broker-IsSound o.world o.compute_codec cfg.compute (some key)))
