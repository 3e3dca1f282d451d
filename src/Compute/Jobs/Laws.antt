-- ===== src/Compute/Jobs/Laws.antt =====
-- `SubmitJob` and `GetResult` of internal/zerog/compute/broker.go against each other.
use mathlib.Core.Path.{subst}
use agent_inference_ethden.Base.{
  ℕ, zero, suc, ◌≡◌, ◌⊎◌, refl, sym, ◌∙◌, inl, inr, ok, err, wrap, Error, String, ◌<>◌, Bytes, List,
  ◌∷◌, arith, some, none, Option-cases, Result-cases, eq_refl,
}
use agent_inference_ethden.World.{
  World, Response, Poll, tick, deadline, cancelled, polled, ctx_check,
}
use agent_inference_ethden.Compute.Types.{
  JobRequest, JobResult, completed, ChatResponse, State, Broker, Codec,
}
use agent_inference_ethden.Compute.Catalog.{ProviderInfo, resolve_provider, read_limited}
use agent_inference_ethden.Compute.Jobs.{
  find_result, result_of, accept, call_provider, submit_job, timed_out, poll_result, get_result,
}

module _ (w : World) (codec : Codec) (b : Broker) where
  accept_lem :
      (response : Response) (s : State) {id : String}
      → (accept w codec b response s).0 ≡ ok id
      → (response.status ≡ 200)
        × ((body : Bytes) × (chat : ChatResponse) × (read_limited 1_048_576 response ≡ ok body)
            × (codec.unmarshal_chat body ≡ ok chat)
            × (chat.error ≡ none)
            × (id ≡ chat.id)
            × ((accept w codec b response s).1
                ≡ record s { results = (id, result_of chat) ∷ s.results }))
  unfolding accept
  accept_lem response s e = elim (Result-cases (read_limited 1_048_576 response)) [
    | inr (f, q) ↦ ground arith
    | inl (body, q) ↦ elim (Result-cases (codec.unmarshal_chat body)) [
      | inr (f, r) ↦ ground arith
      | inl (chat, r) ↦ (ground arith, (body, chat, q, r, ground arith, ground arith, ground arith))
    ]
  ]

  abbrev pub started : State → State
  started s = record s { history = ctx_check ∷ s.history }

  abbrev pub resolved : JobRequest → State → State
  resolved req s = (resolve_provider w codec b req.model_id (started s)).1

  -- The steps of a submission that has succeeded.
  submit_job-steps :
      (req : JobRequest) (s : State) {id : String}
      → (submit_job w codec b req s).0 ≡ ok id
      → (provider : ProviderInfo) × (response : Response) × ((resolve_provider w codec b
            req.model_id
            (started s)).0
          ≡ ok provider)
        × ((call_provider w codec b provider req (resolved req s)).0 ≡ ok response)
        × (let t = (call_provider w codec b provider req (resolved req s)).1 in
            ((accept w codec b response t).0 ≡ ok id)
            × ((submit_job w codec b req s).1 ≡ (accept w codec b response t).1))
  unfolding submit_job
  submit_job-steps req s e =
      elim (Result-cases (resolve_provider w codec b req.model_id (started s)).0) [
        | inr (f, q) ↦ ground arith
        | inl (provider, q) ↦
            elim (Result-cases (call_provider w codec b provider req (resolved req s)).0) [
              | inr (f, r) ↦ ground arith
              | inl (response, r) ↦ (provider, response, q, r, (ground arith, ground arith))
            ]
      ]

  -- The result is what the body of a response says.
  pub record IsAnswer (response : Response) (id : String) (r : JobResult) : Type 0 where
    pub body : Bytes
    pub chat : ChatResponse
    pub status_ok : response.status ≡ 200
    pub read : read_limited 1_048_576 response ≡ ok body
    pub parsed : codec.unmarshal_chat body ≡ ok chat
    pub no_error : chat.error ≡ none
    pub named : id ≡ chat.id
    pub stored : r ≡ result_of chat

  get_result-found :
      (rounds : ℕ) (id : String) (t : State) {r : JobResult}
      → w.ctx_err t.history ≡ none
      → find_result id t.results ≡ some r
      → get_result w codec b rounds id t ≡ (ok r, started t)
  unfolding get_result
  get_result-found rounds id t live f = ground arith

  find_result-head :
      (id : String) (r : JobResult) (rs : List (String × JobResult))
      → find_result id ((id, r) ∷ rs) ≡ some r
  unfolding find_result
  find_result-head id r rs = rw (eq_refl id)

  pub get_result-submit_job :
      (req : JobRequest) (s : State) (rounds : ℕ) {id : String}
      → let t = (submit_job w codec b req s).1 in
        (submit_job w codec b req s).0 ≡ ok id
        → w.ctx_err t.history ≡ none
        → (provider : ProviderInfo) × (response : Response) × (r : JobResult) × ((resolve_provider w
              codec b req.model_id
              (started s)).0
            ≡ ok provider)
          × ((call_provider w codec b provider req (resolved req s)).0 ≡ ok response)
          × (get_result w codec b rounds id t
              ≡ (ok r, record t { history = ctx_check ∷ t.history }))
          × (r.status ≡ completed)
          × IsAnswer response id r
  unfolding result_of
  get_result-submit_job req s rounds {id} e live =
      let (provider, response, p, c, (a, ended)) = submit_job-steps req s e in
      let t = (call_provider w codec b provider req (resolved req s)).1 in
      let (fine, (body, chat, read, parsed, no_error, named, stored)) = accept_lem response t a in
      let r = result_of chat in
      let found : find_result id (submit_job w codec b req s).1.results ≡ some r =
        subst (λ (z : State). find_result id z.results ≡ some r) (sym (ended ∙ stored))
          (find_result-head id r t.results) in
      (
        provider,
        response,
        r,
        p,
        c,
        get_result-found rounds id (submit_job w codec b req s).1 live found,
        refl,
        record {
          body = body;
          chat = chat;
          status_ok = fine;
          read = read;
          parsed = parsed;
          no_error = no_error;
          named = named;
          stored = refl;
        },
      )

  pub Poll-cases : (p : Poll) → (p ≡ tick) ⊎ ((p ≡ deadline) ⊎ ((e : Error) × (p ≡ cancelled e)))
  Poll-cases tick = inl refl
  Poll-cases deadline = inr (inl refl)
  Poll-cases (cancelled e) = inr (inr (e, refl))

  poll_result-unknown :
      (rounds : ℕ) (id : String) (s : State)
      → find_result id s.results ≡ none
      → (e : Error) × ((poll_result w codec b rounds id s).0 ≡ err e)
  unfolding poll_result
  poll_result-unknown zero id s f = (timed_out w codec b id, refl)
  poll_result-unknown (suc rounds) id s f =
      let (e, rest) = poll_result-unknown rounds id (record s { history = polled ∷ s.history }) f in
      elim (Poll-cases (w.poll s.history)) [
        | inl p ↦ (e, ground arith)
        | inr (inl p) ↦ (timed_out w codec b id, ground arith)
        | inr (inr (c, p)) ↦
            (wrap ("compute: context cancelled polling job " <> id <> ": ") c, ground arith)
      ]

  -- `GetResult` of a job that was never stored ends in an error, however often it polls.
  pub get_result-unknown :
      (rounds : ℕ) (id : String) (s : State)
      → find_result id s.results ≡ none
      → (e : Error) × ((get_result w codec b rounds id s).0 ≡ err e)
  unfolding get_result
  get_result-unknown rounds id s f =
      let (e, rest) = poll_result-unknown rounds id (started s) f in
      elim (Option-cases (w.ctx_err s.history)) [
        | inl p ↦ (e, ground arith)
        | inr (c, p) ↦ (wrap "compute: context cancelled: " c, ground arith)
      ]
