-- ===== src/Compute/Jobs/Sound.antt =====
-- What a call of a provider in internal/zerog/compute/broker.go leaves of the broker's state.
use mathlib.Core.Path.{subst}
use agent_inference_ethden.Base.{
  ◌≡◌, refl, sym, ◌∙◌, inl, inr, String, Bytes, ◌<>◌, Option, none, some, ◌∷◌, Bool-cases,
  Option-cases, Result-cases, str_eq, ◌==◌, arith,
}
use agent_inference_ethden.World.{World, History, Request, Response, http}
use agent_inference_ethden.Compute.Types.{JobRequest, Session, State, Broker, Codec}
use agent_inference_ethden.Compute.Session.{Held, invalidate, ensure_session}
use agent_inference_ethden.Compute.Session.Laws.{
  IsCoherent, invalidate-IsCoherent, ensure_session-IsCoherent,
}
use agent_inference_ethden.Compute.Catalog.{ProviderInfo}
use agent_inference_ethden.Compute.Jobs.{
  manager, retry, after_answer, do_with_auth_retry, authorization, call_provider, chat_request,
}
use agent_inference_ethden.Compute.Jobs.Retry.{again}

module _ (w : World) (codec : Codec) (b : Broker) where
  -- A session, if there is one, is coherent.
  abbrev pub IsHeld : Option Session → Type 0
  IsHeld none = Unit
  IsHeld (some session) = IsCoherent w codec (manager w codec b) session

  -- The cache and the results are as they were, and the session is coherent.
  pub record Holds (s t : State) : Type 0 where
    pub models : t.models ≡ s.models
    pub results : t.results ≡ s.results
    pub session : IsHeld t.session

  Holds-refl : (s : State) → IsHeld s.session → Holds s s
  Holds-refl s i = record { models = refl; results = refl; session = i }

  Holds-trans : {r s t : State} → Holds r s → Holds s t → Holds r t
  Holds-trans f g = record {
    models = g.models ∙ f.models;
    results = g.results ∙ f.results;
    session = g.session;
  }

  Holds-with :
      (s : State) (x : Session) (h : History) {t : State}
      → IsCoherent w codec (manager w codec b) x
      → t ≡ record s { session = some x; history = h }
      → Holds s t
  Holds-with s x h i e =
      subst (Holds s) (sym e) (record { models = refl; results = refl; session = i })

  Holds-history :
      (s : State) (h : History) {t : State}
      → IsHeld s.session
      → t ≡ record s { history = h }
      → Holds s t
  Holds-history s h i e =
      subst (Holds s) (sym e) (record { models = refl; results = refl; session = i })

  -- The session behind a call of `ensureSession`.
  abbrev ensured : String → Session → State → Held
  ensured provider session s =
      (ensure_session w codec (manager w codec b) provider
        (record { session = session; history = s.history })).1

  ensured-IsCoherent :
      (provider : String) (session : Session) (s : State)
      → IsCoherent w codec (manager w codec b) session
      → IsCoherent w codec (manager w codec b) (ensured provider session s).session
  ensured-IsCoherent provider session s i =
      ensure_session-IsCoherent w codec (manager w codec b) provider
        (record { session = session; history = s.history }) i

  retry-Holds :
      (req : Request) (session : Session) (s : State)
      → IsHeld s.session
      → IsCoherent w codec (manager w codec b) session
      → Holds s (retry w codec b req session s).1
  unfolding retry
  retry-Holds req session s held i =
      let provider = session.cached_provider in
      let start : Held = record { session = session; history = s.history } in
      let after = ensured provider session s in
      let kept = ensured-IsCoherent provider session s i in
      elim (Bool-cases (str_eq provider "")) [
        | inl nobody ↦ Holds-history s s.history held (ground arith)
        | inr somebody ↦
            elim (Result-cases (ensure_session w codec (manager w codec b) provider start).0) [
              | inr (e, q) ↦ Holds-with s after.session after.history kept (ground arith)
              | inl (token, q) ↦ elim (Option-cases (w.new_request_err req.method req.url)) [
                | inr (e, r) ↦ Holds-with s after.session after.history kept (ground arith)
                | inl r ↦
                    Holds-with s after.session (http (again w codec b req token) ∷ after.history)
                      kept (ground arith)
              ]
            ]
      ]

  after_answer-Holds :
      (req : Request) (response : Response) (session : Option Session) (s : State)
      → IsHeld s.session
      → Holds s (after_answer w codec b req response session s).1
  unfolding after_answer
  after_answer-Holds req response none s held = Holds-refl s held
  after_answer-Holds req response (some session) s held =
      let dropped = invalidate session in
      let s' : State = record s { session = some dropped } in
      let fresh = invalidate-IsCoherent w codec (manager w codec b) session in
      elim (Bool-cases (response.status == 401)) [
        | inr other ↦ Holds-history s s.history held (ground arith)
        | inl refused ↦
            let same : (after_answer w codec b req response (some session) s).1
                ≡ (retry w codec b req dropped s').1 =
              ground arith in
            subst (Holds s) (sym same) (
              Holds-trans (Holds-with s dropped s.history fresh refl)
                (retry-Holds req dropped s' fresh fresh))
      ]

  do_with_auth_retry-Holds :
      (req : Request) (s : State)
      → IsHeld s.session
      → Holds s (do_with_auth_retry w codec b req s).1
  unfolding do_with_auth_retry
  do_with_auth_retry-Holds req s held =
      let s' : State = record s { history = http req ∷ s.history } in
      elim (Result-cases (w.http_do s.history req)) [
        | inr (e, q) ↦ Holds-history s s'.history held (ground arith)
        | inl (answer, q) ↦
            let same : (do_with_auth_retry w codec b req s).1
                ≡ (after_answer w codec b req answer s.session s').1 =
              ground arith in
            subst (Holds s) (sym same) (
              Holds-trans (Holds-history s s'.history held refl)
                (after_answer-Holds req answer s.session s' held))
      ]

  authorization-Holds :
      (provider : ProviderInfo) (session : Option Session) (s : State)
      → IsHeld s.session
      → IsHeld session
      → Holds s (authorization w codec b provider session s).1
  unfolding authorization
  authorization-Holds provider none s held i = Holds-refl s held
  authorization-Holds provider (some session) s held i =
      let start : Held = record { session = session; history = s.history } in
      let after = ensured provider.address session s in
      elim (Bool-cases (str_eq provider.address "")) [
        | inl nobody ↦ Holds-history s s.history held (ground arith)
        | inr somebody ↦
            Holds-with s after.session after.history
              (ensured-IsCoherent provider.address session s i)
              (ground (
                arith,
                Result-cases (ensure_session w codec (manager w codec b) provider.address start).0,
              ))
      ]

  abbrev request_to : ProviderInfo → Option String → Bytes → Request
  request_to provider header body = record {
    method = "POST";
    url = provider.url <> "/v1/proxy/chat/completions";
    content_type = some "application/json";
    authorization = header;
    body = body;
  }

  pub call_provider-Holds :
      (provider : ProviderInfo) (req : JobRequest) (s : State)
      → IsHeld s.session
      → Holds s (call_provider w codec b provider req s).1
  unfolding call_provider
  call_provider-Holds provider req s held =
      let url = provider.url <> "/v1/proxy/chat/completions" in
      let t = (authorization w codec b provider s.session s).1 in
      let authorized = authorization-Holds provider s.session s held held in
      elim (Result-cases (codec.marshal_chat (chat_request req))) [
        | inr (e, q) ↦ Holds-history s s.history held (ground arith)
        | inl (body, q) ↦ elim (Option-cases (w.new_request_err "POST" url)) [
          | inr (e, r) ↦ Holds-history s s.history held (ground arith)
          | inl r ↦ elim (Result-cases (authorization w codec b provider s.session s).0) [
            | inr (e, a) ↦
                let same : (call_provider w codec b provider req s).1 ≡ t = ground arith in
                subst (Holds s) (sym same) authorized
            | inl (header, a) ↦
                let same : (call_provider w codec b provider req s).1
                    ≡ (do_with_auth_retry w codec b (request_to provider header body) t).1 =
                  ground arith in
                subst (Holds s) (sym same) (
                  Holds-trans authorized (
                    do_with_auth_retry-Holds (request_to provider header body) t
                      authorized.session))
          ]
        ]
      ]
