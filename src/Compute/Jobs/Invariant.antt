-- ===== src/Compute/Jobs/Invariant.antt =====
-- A property of the broker's session and history that each call of internal/zerog/compute/broker.go
-- keeps, when the steps that touch them do.
use agent_inference_ethden.Base.{ℕ, zero, suc, String, Option, none, some, ◌∷◌, arith}
use agent_inference_ethden.World.{World, History, Request, Response, http, ctx_check, polled}
use agent_inference_ethden.Compute.Types.{JobRequest, Session, State, Broker, Codec}
use agent_inference_ethden.Compute.Session.{invalidate, ensure_session}
use agent_inference_ethden.Compute.Catalog.{ProviderInfo, resolve_provider}
use agent_inference_ethden.Compute.Jobs.{
  manager, retry, after_answer, do_with_auth_retry, authorization, accept, call_provider,
  submit_job, poll_result, get_result,
}

module _ (w : World) (codec : Codec) (b : Broker) (P : Option Session → History → Type 0) where
  abbrev pub At : State → Type 0
  At s = P s.session s.history

  pub record Closed : Type 0 where
    pub checks : (x : Option Session) (h : History) → P x h → P x (ctx_check ∷ h)
    pub polls : (x : Option Session) (h : History) → P x h → P x (polled ∷ h)
    pub asks : (x : Option Session) (r : Request) (h : History) → P x h → P x (http r ∷ h)
    pub drops : (x : Session) (h : History) → P (some x) h → P (some (invalidate x)) h
    pub renews :
        (provider : String) (x : Session) (h : History)
        → P (some x) h
        → let t =
            (ensure_session w codec
              (manager w codec b)
              provider
              (record { session = x; history = h })).1 in
          P (some t.session) t.history
    pub finds : (id : String) (s : State) → At s → At (resolve_provider w codec b id s).1

  module _ (c : Closed) where
    retry-Closed :
        (req : Request) (session : Session) (s : State)
        → P (some session) s.history
        → At s
        → At (retry w codec b req session s).1
    unfolding retry
    retry-Closed req session s t u =
        grind
          (arith, c.asks, c.checks, c.polls, c.renews session.cached_provider session s.history t)

    after_answer-Closed :
        (req : Request) (response : Response) (session : Option Session) (s : State)
        → P session s.history
        → At s
        → At (after_answer w codec b req response session s).1
    unfolding after_answer
    after_answer-Closed req response none s t u = u
    after_answer-Closed req response (some session) s t u = grind (
      arith,
      c.asks,
      c.checks,
      c.polls,
      retry-Closed req (invalidate session) (record s { session = some (invalidate session) })
          (c.drops session s.history t) (c.drops session s.history t),
    )

    do_with_auth_retry-Closed :
        (req : Request) (s : State) → At s → At (do_with_auth_retry w codec b req s).1
    unfolding do_with_auth_retry
    do_with_auth_retry-Closed req s t =
        grind (arith, c.asks, c.checks, c.polls, after_answer-Closed)

    authorization-Closed :
        (provider : ProviderInfo) (session : Option Session) (s : State)
        → P session s.history
        → At s
        → At (authorization w codec b provider session s).1
    unfolding authorization
    authorization-Closed provider none s t u = u
    authorization-Closed provider (some session) s t u =
        grind (arith, c.asks, c.checks, c.polls, c.renews provider.address session s.history t)

    call_provider-Closed :
        (provider : ProviderInfo) (req : JobRequest) (s : State)
        → At s
        → At (call_provider w codec b provider req s).1
    unfolding call_provider
    call_provider-Closed provider req s t =
        grind (arith, authorization-Closed provider s.session s t t, do_with_auth_retry-Closed)

    accept-Closed : (response : Response) (s : State) → At s → At (accept w codec b response s).1
    unfolding accept
    accept-Closed response s t = grind (arith, c.asks, c.checks, c.polls)

    pub submit_job-Closed :
        (req : JobRequest) (s : State) → At s → At (submit_job w codec b req s).1
    unfolding submit_job
    submit_job-Closed req s t =
        grind (arith, c.asks, c.checks, c.polls, c.finds, call_provider-Closed, accept-Closed)

    poll_result-Closed :
        (rounds : ℕ) (id : String) (s : State) → At s → At (poll_result w codec b rounds id s).1
    unfolding poll_result
    poll_result-Closed zero id s t = t
    poll_result-Closed (suc rounds) id s t = grind (
      arith,
      c.asks,
      c.checks,
      c.polls,
      poll_result-Closed rounds id (record s { history = polled ∷ s.history })
          (c.polls s.session s.history t),
    )

    pub get_result-Closed :
        (rounds : ℕ) (id : String) (s : State) → At s → At (get_result w codec b rounds id s).1
    unfolding get_result
    get_result-Closed rounds id s t = grind (arith, c.asks, c.checks, c.polls, poll_result-Closed)
