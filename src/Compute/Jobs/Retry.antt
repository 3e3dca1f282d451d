-- ===== src/Compute/Jobs/Retry.antt =====
-- The requests of `doWithAuthRetry` in internal/zerog/compute/broker.go, and their tokens.
use mathlib.Core.Path.{subst}
use agent_inference_ethden.Base.{
  ◌≡◌, ◌≢◌, ◌⊎◌, refl, inl, inr, ok, String, ◌<>◌, ◌∷◌, some, Bool-cases, Option-cases,
  Result-cases, str_eq, eq_iff, arith, ◌==◌,
}
use agent_inference_ethden.World.{World, Request, Response, requests, http}
use agent_inference_ethden.Compute.Types.{Session, State, Broker, Codec}
use agent_inference_ethden.Compute.Session.{Held, invalidate, ensure_session}
use agent_inference_ethden.Compute.Session.Laws.{
  IsTokenFor, IsCoherent, invalidate-IsCoherent, invalidate-provider, ensure_session-IsTokenFor,
}
use agent_inference_ethden.Compute.Session.Quiet.{ensure_session-requests}
use agent_inference_ethden.Compute.Jobs.{manager, retry, after_answer, do_with_auth_retry}

module _ (w : World) (codec : Codec) (b : Broker) where
  -- The second request: the first one again, with a new token.
  abbrev pub again : Request → String → Request
  again req token = record {
    method = req.method;
    url = req.url;
    content_type = some "application/json";
    authorization = some ("Bearer " <> token);
    body = req.body;
  }

  -- The token of a second request belongs to the provider that the session cached.
  pub record IsSecond (req : Request) (provider : String) (second : Request) : Type 0 where
    pub token : String
    pub known : provider ≢ ""
    pub for_provider : IsTokenFor w codec (manager w codec b) provider token
    pub same : second ≡ again req token

  abbrev held : Session → State → Held
  held session s = record { session = session; history = s.history }

  retry-requests :
      (req : Request) (session : Session) (s : State)
      → IsCoherent w codec (manager w codec b) session
      → (requests (retry w codec b req session s).1.history ≡ requests s.history)
        ⊎ ((second : Request) × IsSecond req session.cached_provider second
            × (requests (retry w codec b req session s).1.history ≡ second ∷ requests s.history))
  unfolding retry
  retry-requests req session s c =
      let provider = session.cached_provider in
      let quiet = ensure_session-requests w codec (manager w codec b) provider (held session s) in
      elim (Bool-cases (str_eq provider "")) [
        | inl nobody ↦ inl (ground arith)
        | inr somebody ↦
            elim (Result-cases
              (ensure_session w codec (manager w codec b) provider (held session s)).0) [
                | inr (e, q) ↦ inl (ground (arith, quiet))
                | inl (token, q) ↦ elim (Option-cases (w.new_request_err req.method req.url)) [
                  | inr (e, r) ↦ inl (ground (arith, quiet))
                  | inl r ↦ inr (
                    again req token,
                    record {
                      token = token;
                      known = λ e. ground (arith, (eq_iff provider "").1 e);
                      for_provider =
                          ensure_session-IsTokenFor w codec (manager w codec b) provider
                            (held session s) c q;
                      same = refl;
                    },
                    ground (arith, quiet),
                  )
                ]
              ]
      ]

  abbrev asked : Request → Session → State → State
  asked req session s = record s {
    session = some (invalidate session);
    history = http req ∷ s.history;
  }

  after_refusal :
      (req : Request) (s : State) (answer : Response) (session : Session)
      → s.session ≡ some session
      → w.http_do s.history req ≡ ok answer
      → answer.status ≡ 401
      → (do_with_auth_retry w codec b req s).1
        ≡ (retry w codec b req (invalidate session) (asked req session s)).1
  unfolding do_with_auth_retry after_answer
  after_refusal req s answer session has got refused = ground arith

  -- A call makes its request once, whatever happens, or makes it twice. It makes it twice only when
  -- the first answer was 401 and there is a session with a cached provider. The second request is
  -- the first one with a token for that provider in its header, whichever URL was asked.
  pub do_with_auth_retry-requests :
      (req : Request) (s : State)
      → let t = (do_with_auth_retry w codec b req s).1 in
        (requests t.history ≡ req ∷ requests s.history)
        ⊎ ((session : Session) × (answer : Response) × (second : Request) × (s.session
              ≡ some session)
            × (w.http_do s.history req ≡ ok answer)
            × (answer.status ≡ 401)
            × IsSecond req session.cached_provider second
            × (requests t.history ≡ second ∷ req ∷ requests s.history))
  unfolding do_with_auth_retry after_answer
  do_with_auth_retry-requests req s = elim (Result-cases (w.http_do s.history req)) [
    | inr (e, q) ↦ inl (ground arith)
    | inl (answer, q) ↦ elim (Option-cases s.session) [
      | inl n ↦ inl (ground arith)
      | inr (session, n) ↦ elim (Bool-cases (answer.status == 401)) [
        | inr other ↦ inl (ground arith)
        | inl refused ↦
            let same = after_refusal req s answer session n q (ground arith) in
            elim (retry-requests req (invalidate session) (asked req session s)
              (invalidate-IsCoherent w codec (manager w codec b) session)) [
                | inl once ↦ inl (ground (arith, same, once))
                | inr (second, is_second, twice) ↦ inr (
                  session,
                  answer,
                  second,
                  n,
                  q,
                  ground arith,
                  subst (λ p. IsSecond req p second) (invalidate-provider session) is_second,
                  ground (arith, same, twice),
                )
              ]
      ]
    ]
  ]
