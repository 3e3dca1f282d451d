-- ===== src/Agent/Wiring/Spending.antt =====
-- What the agent that cmd/agent-inference/main.go builds takes from its account.
use agent_inference_ethden.Base.{ℕ, ◌≡◌, refl, String, List, ◌∷◌, arith}
use agent_inference_ethden.World.{History, Effect, clock_read, amount, paid}
use agent_inference_ethden.World.Keeps.{Keeps}
use agent_inference_ethden.Da.Keeps.{publish-keeps, submission-amount}
use agent_inference_ethden.Storage.Keeps.{upload-keeps}
use agent_inference_ethden.Inft.Keeps.{mint-keeps, mint_tx-amount}
use agent_inference_ethden.Hcs.Keeps.{publish_result-keeps, publish_health-keeps}
use agent_inference_ethden.Compute.Jobs.{new_broker}
use agent_inference_ethden.Compute.Jobs.Spending.{
  paid-Keeps, IsThrifty, paid-IsThrifty, submit_job-IsThrifty, get_result-IsThrifty,
}
use agent_inference_ethden.Agent.{Daemon, Event, new_agent, start, run_loop}
use agent_inference_ethden.Agent.Config.{Config}
use agent_inference_ethden.Agent.Preserved.{Preserves, start-Preserves, run_loop-Preserves}
use agent_inference_ethden.Agent.Wiring.{Outside, Parts, Kept, build, wired}

module _ (o : Outside) (p : Parts) where
  abbrev pub Holds : Kept → Type 0
  Holds s = IsThrifty s.broker_state.session s.broker_state.history

  abbrev Same : Kept → History → Type 0
  Same s h = paid h ≡ paid s.broker_state.history

  abbrev Free : Effect → Type 0
  Free e = amount e ≡ 0

  same : (s : Kept) → Keeps (Same s) Free
  same s = paid-Keeps (paid s.broker_state.history)

  -- A call that pays nothing and leaves the session alone.
  free : (s : Kept) (h : History) → Same s h → Holds s → IsThrifty s.broker_state.session h
  free s h e f = paid-IsThrifty s.broker_state.session s.broker_state.history h e f

  wired-Preserves : Preserves (wired o p) Holds
  wired-Preserves = record {
    now = λ s f. free s (clock_read ∷ s.broker_state.history) (omega arith) f;
    register = λ r s f. f;
    heartbeat = λ d r s f. f;
    submit_job = λ r s f. submit_job-IsThrifty o.world o.compute_codec p.broker r s.broker_state f;
    get_result = λ id s f.
        get_result-IsThrifty o.world o.compute_codec p.broker o.rounds id s.broker_state f;
    upload = λ content meta s f.
        free s _
          (upload-keeps o.world o.storage_codec p.client (Same s) Free (same s) (λ q. refl)
            (λ c. refl) content meta s.broker_state.history refl)
          f;
    mint = λ r s f.
        free s _
          (mint-keeps o.world o.inft_codec p.minter r (Same s) Free (same s)
            (mint_tx-amount o.world o.inft_codec p.minter r) s.broker_state.history refl)
          f;
    publish_audit = λ e s f.
        free s _
          (publish-keeps o.world p.publisher (Same s) Free (same s)
            (submission-amount o.world p.publisher) o.marshal_event e s.broker_state.history refl)
          f;
    publish_result = λ r s f.
        free s _
          (publish_result-keeps o.world o.hcs_codec p.handler (Same s) Free (same s)
            (λ topic m. refl) r (record { history = s.broker_state.history; seq_num = s.seq_num })
            refl)
          f;
    publish_health = λ h s f.
        free s _
          (publish_health-keeps o.world o.hcs_codec p.handler (Same s) Free (same s)
            (λ topic m. refl) h (record { history = s.broker_state.history; seq_num = s.seq_num })
            refl)
          f;
  }

module _ (o : Outside) (cfg : Config) (key : ℕ) (daemon : Daemon) (agent_id : String) where
  -- Whatever tasks and ticks the agent of `main` is given from its start on, and whatever the outside
  -- answers: the amounts of all transactions that it has sent, gas aside, are together no more than
  -- `tenth`, a tenth of a token, for each provider in the list that its session keeps of the providers
  -- it was set up for, in which none stands twice; and they are 0 while it has no session.
  pub run_loop-paid :
      (events : List Event)
      → let p = (build o cfg key).0 in
        let agent = new_agent daemon (build o cfg key).1 in
        let ended = run_loop (wired o p) agent_id events (start (wired o p) agent_id agent) in
        IsThrifty ended.services.broker_state.session ended.services.broker_state.history
  unfolding build new_agent new_broker
  run_loop-paid events =
      let p = (build o cfg key).0 in
      run_loop-Preserves (wired o p) (Holds o p) (wired-Preserves o p) agent_id events _ (
        start-Preserves (wired o p) (Holds o p) (wired-Preserves o p) agent_id
          (new_agent daemon (build o cfg key).1) (omega arith, tt))
