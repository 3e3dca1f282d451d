-- ===== src/Compute/Jobs.antt =====
-- `SubmitJob`, `doWithAuthRetry` and `GetResult` of internal/zerog/compute/broker.go.
pub mod Laws
pub mod Keeps
pub mod Retry
pub mod Sound
pub mod Spending
pub mod Invariant
pub mod Calls
pub mod Tests
use agent_inference_ethden.Base.{
  ℕ, zero, suc, String, ◌<>◌, Option, none, some, Bool, true, false, not, List, [], ◌∷◌, Bytes,
  to_text, Error, new, sentinel, wrap, Result, ok, err, job_failed, broker_down, Exec, pure, raise,
  lift, annotate, or_fail, gets, modify, ◌>>=◌, ◌>>◌, raise_if, raise_some, str_eq, ◌==◌,
  if◌then◌else◌,
}
use agent_inference_ethden.Base.Int.{ℤ, is_zero}
use agent_inference_ethden.Base.Decimal.{decimal}
use agent_inference_ethden.World.{
  World, History, Request, Response, Poll, tick, deadline, cancelled, ctx_err, poll, http_do,
}
use agent_inference_ethden.Compute.Types.{
  JobRequest, JobResult, completed, ChatRequest, ChatMessage, ChatChoice, ChatResponse, ChatError,
  Session, State, Broker, BrokerConfig, Codec,
}
use agent_inference_ethden.Compute.Session.{
  Manager, Held, new_manager, new_session, invalidate, ensure_session,
}
use agent_inference_ethden.Compute.Catalog.{ProviderInfo, resolve_provider, read_limited, outside}

-- A call on the session of the broker.
abbrev pub on_session : {A : Type 0} → Session → Exec Held A → Exec State A
on_session session call s =
    let (r, held) = call (record { session = session; history = s.history }) in
    (r, record s { session = some held.session; history = held.history })

-- `results.Load`
pub find_result : String → List (String × JobResult) → Option JobResult
find_result id [] = none
find_result id ((k, r) ∷ rs) = if str_eq k id then some r else find_result id rs

pub output_of : List ChatChoice → String
output_of [] = ""
output_of (c ∷ _) = c.message.content

pub chat_request : JobRequest → ChatRequest
chat_request req = record {
  model = req.model_id;
  messages = record { role = "user"; content = req.input } ∷ [];
  max_tokens = req.max_tokens;
  temperature = req.temperature;
}

pub result_of : ChatResponse → JobResult
unfolding output_of
result_of chat = record {
  job_id = chat.id;
  status = completed;
  output = output_of chat.choices;
  model_id = chat.model;
  tokens_used = chat.usage.total_tokens;
  duration = ℤ.pos 0;
  error = "";
}

module _ (w : World) (codec : Codec) where
  abbrev or_default : ℕ → ℕ → ℕ
  or_default n d = if n == 0 then d else n

  -- `NewBroker`, and the state that it starts in. A nil key is `none`.
  unfoldable pub new_broker : BrokerConfig → Option ℕ → Broker × State
  new_broker cfg key = (
    record {
      cfg = record cfg {
        poll_interval = or_default cfg.poll_interval 2_000_000_000;
        poll_timeout = or_default cfg.poll_timeout 300_000_000_000;
      };
      contract = w.hex_to_address cfg.serving_contract_address;
      key = elim key [ none ↦ 0 | some k ↦ k ];
    },
    record {
      history = [];
      models = none;
      models_ttl = 0;
      results = [];
      session = elim key [ none ↦ none | some _ ↦ some new_session ];
    },
  )

  module _ (b : Broker) where
    unfoldable pub manager : Manager
    manager = new_manager w b.key b.cfg.chain_id

    -- The part of `doWithAuthRetry` behind a 401, with the session that was invalidated.
    pub retry : Request → Session → Exec State Response
    retry req session = do
      let provider = session.cached_provider
      raise_if (str_eq provider "") (new "compute: no provider address for auth retry")
      token ←
          annotate "compute: refresh session token: "
            (on_session session (ensure_session w codec manager provider))
      raise_some (w.new_request_err req.method req.url) "compute: create retry request: "
      or_fail (wrap "compute: retry request failed: " (sentinel broker_down)) (
          outside (
            http_do w (record {
              method = req.method;
              url = req.url;
              content_type = some "application/json";
              authorization = some ("Bearer " <> token);
              body = req.body;
            })))

    pub after_answer : Request → Response → Option Session → Exec State Response
    unfolding retry
    after_answer req response none = pure response
    after_answer req response (some session) =
        if not (response.status == 401)
        then pure response
        else (modify λ (s : State). record s { session = some (invalidate session) })
          >> retry req (invalidate session)

    pub do_with_auth_retry : Request → Exec State Response
    do_with_auth_retry req = do
      response ←
          or_fail (wrap "compute: provider request failed: " (sentinel broker_down))
            (outside (http_do w req))
      session ← gets (λ s. s.session)
      after_answer req response session

    -- The header of a request to a provider that is known on-chain.
    pub authorization : ProviderInfo → Option Session → Exec State (Option String)
    authorization provider none = pure none
    authorization provider (some session) = if str_eq provider.address "" then pure none else do
      token ←
          annotate "compute: ensure session: "
            (on_session session (ensure_session w codec manager provider.address))
      pure (some ("Bearer " <> token))

    api_error : Option ChatError → Exec State Unit
    api_error none = pure tt
    api_error (some e) =
        raise (wrap ("compute: API error: " <> e.message <> ": ") (sentinel job_failed))

    -- `SubmitJob` behind the answer of the provider.
    pub accept : Response → Exec State String
    unfolding api_error
    accept response = do
      body ← annotate "compute: read response: " (lift (read_limited 1_048_576 response))
      raise_if (not (response.status == 200)) (
          new (
            "compute: provider returned status "
            <> decimal response.status
            <> ": "
            <> to_text body))
      chat ← annotate "compute: parse response: " (lift (codec.unmarshal_chat body))
      api_error chat.error
      modify λ (s : State). record s { results = (chat.id, result_of chat) ∷ s.results }
      pure chat.id

    -- `SubmitJob` between the choice of the provider and its answer.
    pub call_provider : ProviderInfo → JobRequest → Exec State Response
    unfolding authorization
    call_provider provider req = do
      body ← annotate "compute: marshal request: " (lift (codec.marshal_chat (chat_request req)))
      let url = provider.url <> "/v1/proxy/chat/completions"
      raise_some (w.new_request_err "POST" url) "compute: create request: "
      session ← gets (λ s. s.session)
      header ← authorization provider session
      do_with_auth_retry (record {
        method = "POST";
        url = url;
        content_type = some "application/json";
        authorization = header;
        body = body;
      })

    pub submit_job : JobRequest → Exec State String
    submit_job req = do
      ended ← outside (ctx_err w)
      raise_some ended "compute: context cancelled before submit: "
      provider ←
          annotate ("compute: resolve provider for " <> req.model_id <> ": ")
            (resolve_provider w codec b req.model_id)
      response ← call_provider provider req
      accept response

    timed_out : String → Error
    timed_out job_id = new (
        "compute: timeout waiting for job "
        <> job_id
        <> " after "
        <> codec.duration_text b.cfg.poll_timeout)

    -- The polling loop. The runtime picks the deadline at last: behind `rounds` ticks.
    pub poll_result : ℕ → String → Exec State JobResult
    unfolding timed_out
    poll_result zero job_id = raise (timed_out job_id)
    poll_result (suc rounds) job_id = do
      event ← outside (poll w)
      elim event [
        | cancelled e ↦ raise (wrap ("compute: context cancelled polling job " <> job_id <> ": ") e)
        | deadline ↦ raise (timed_out job_id)
        | tick ↦ gets (λ s. find_result job_id s.results) >>= λ found. elim found [
          | some r ↦ pure r
          | none ↦ poll_result rounds job_id
        ]
      ]

    pub get_result : ℕ → String → Exec State JobResult
    get_result rounds job_id = do
      ended ← outside (ctx_err w)
      raise_some ended "compute: context cancelled: "
      found ← gets (λ s. find_result job_id s.results)
      elim found [ some r ↦ pure r | none ↦ poll_result rounds job_id ]
