-- ===== src/Compute/Jobs/Keeps.antt =====
-- Frame lemmas of the broker: what its calls keep of a history.
use agent_inference_ethden.Base.{ℕ, String, Option}
use agent_inference_ethden.World.{World, History, Effect, Request, http, viewed}
use agent_inference_ethden.World.Keeps.{Keeps}
use agent_inference_ethden.Compute.Types.{JobRequest, Session, State, Broker, Codec}
use agent_inference_ethden.Compute.Session.Keeps.{Admits, ensure_session-keeps}
use agent_inference_ethden.Compute.Catalog.Cache.{first_page}
use agent_inference_ethden.Compute.Catalog.Keeps.{resolve_provider-keeps}
use agent_inference_ethden.Compute.Jobs.{manager, submit_job, get_result}
use agent_inference_ethden.Compute.Jobs.Invariant.{Closed, submit_job-Closed, get_result-Closed}

module _ (w : World) (codec : Codec) (b : Broker) (Holds : History → Type 0)
    (Allowed : Effect → Type 0) (k : Keeps Holds Allowed) (asks : (r : Request) → Allowed (http r))
    (pages : Allowed (viewed (first_page w codec b)))
    (admits : Admits (manager w codec b) Allowed) where
  abbrev Same : Option Session → History → Type 0
  Same x h = Holds h

  history-Closed : Closed w codec b Same
  history-Closed = record {
    checks = λ x h t. k.grow _ h k.checks t;
    polls = λ x h t. k.grow _ h k.polls t;
    asks = λ x r h t. k.grow _ h (asks r) t;
    drops = λ x h t. t;
    renews = λ provider x h t.
        ensure_session-keeps w codec (manager w codec b) Holds Allowed k admits provider
          (record { session = x; history = h }) t;
    finds = λ id s t. resolve_provider-keeps w codec b Holds Allowed k asks pages id s t;
  }

  pub submit_job-keeps :
      (req : JobRequest) (s : State)
      → Holds s.history
      → Holds (submit_job w codec b req s).1.history
  submit_job-keeps = submit_job-Closed w codec b Same history-Closed

  pub get_result-keeps :
      (rounds : ℕ) (id : String) (s : State)
      → Holds s.history
      → Holds (get_result w codec b rounds id s).1.history
  get_result-keeps = get_result-Closed w codec b Same history-Closed
