-- ===== src/Compute/Jobs/Calls/Sound.antt =====
-- The invariant of the broker, call by call.
use mathlib.Core.Path.{subst}
use agent_inference_ethden.Base.{
  ℕ, zero, suc, ◌≡◌, ◌⊎◌, refl, sym, ◌∙◌, inl, inr, String, ◌∷◌, All, ◌==◌, Bool-cases,
  Option-cases, Result-cases, arith,
}
use agent_inference_ethden.World.{Response, World, History, ctx_check, polled}
use agent_inference_ethden.Compute.Types.{JobRequest, JobResult, completed, State, Broker, Codec}
use agent_inference_ethden.Compute.Catalog.{
  read_limited, ProviderInfo, list_models, resolve_provider,
}
use agent_inference_ethden.Compute.Catalog.Cache.{IsFilled, list_models-IsFilled}
use agent_inference_ethden.Compute.Catalog.Frame.{
  SameJobs, list_models-SameJobs, resolve_provider-SameJobs, resolve_provider-IsFilled,
}
use agent_inference_ethden.Compute.Jobs.{
  find_result, result_of, accept, call_provider, submit_job, poll_result, get_result,
}
use agent_inference_ethden.Compute.Jobs.Laws.{started, resolved, Poll-cases}
use agent_inference_ethden.Compute.Jobs.Sound.{IsHeld, Holds, call_provider-Holds}

-- A stored result is complete, and stands under its own id.
abbrev pub IsOwn : String × JobResult → Type 0
IsOwn (id, r) = (r.job_id ≡ id) × (r.status ≡ completed)

module _ (w : World) (codec : Codec) (b : Broker) where
  pub record IsSound (s : State) : Type 0 where
    pub filled : IsFilled w codec b s
    pub held : IsHeld w codec b s.session
    pub own : All IsOwn s.results

  Holds-IsSound : (s t : State) → Holds w codec b s t → IsSound s → IsSound t
  Holds-IsSound s t h i = record {
    filled = λ e. i.filled (sym h.models ∙ e);
    held = h.session;
    own = subst (All IsOwn) (sym h.results) i.own;
  }

  history-IsSound :
      (s : State) (h : History) {t : State} → IsSound s → t ≡ record s { history = h } → IsSound t
  history-IsSound s h i e =
      subst IsSound (sym e) (record { filled = i.filled; held = i.held; own = i.own })

  SameJobs-IsSound : (s t : State) → SameJobs s t → IsFilled w codec b t → IsSound s → IsSound t
  SameJobs-IsSound s t same f i = record {
    filled = f;
    held = subst (IsHeld w codec b) (sym same.1) i.held;
    own = subst (All IsOwn) (sym same.0) i.own;
  }

  pub list_models-IsSound : (s : State) → IsSound s → IsSound (list_models w codec b s).1
  list_models-IsSound s i =
      SameJobs-IsSound s (list_models w codec b s).1 (list_models-SameJobs w codec b s)
        (list_models-IsFilled w codec b s i.filled).0 i

  resolve_provider-IsSound :
      (id : String) (s : State) → IsSound s → IsSound (resolve_provider w codec b id s).1
  resolve_provider-IsSound id s i =
      SameJobs-IsSound s (resolve_provider w codec b id s).1
        (resolve_provider-SameJobs w codec b id s)
        (resolve_provider-IsFilled w codec b id s i.filled) i

  -- `accept` stores nothing, or one result that is complete and stands under its id.
  accept-cases :
      (response : Response) (s : State)
      → ((accept w codec b response s).1 ≡ s)
        ⊎ ((entry : String × JobResult) × IsOwn entry
            × ((accept w codec b response s).1 ≡ record s { results = entry ∷ s.results }))
  unfolding accept result_of
  accept-cases response s = elim (Result-cases (read_limited 1_048_576 response)) [
    | inr (e, q) ↦ inl (ground arith)
    | inl (body, q) ↦ elim (Bool-cases (response.status == 200)) [
      | inr bad ↦ inl (ground arith)
      | inl fine ↦ elim (Result-cases (codec.unmarshal_chat body)) [
        | inr (e, r) ↦ inl (ground arith)
        | inl (chat, r) ↦ elim (Option-cases chat.error) [
          | inr (e, x) ↦ inl (ground arith)
          | inl x ↦ inr ((chat.id, result_of chat), (refl, refl), ground arith)
        ]
      ]
    ]
  ]

  accept-IsSound :
      (response : Response) (s : State) → IsSound s → IsSound (accept w codec b response s).1
  accept-IsSound response s i = elim (accept-cases response s) [
    | inl same ↦ subst IsSound (sym same) i
    | inr (entry, own, stored) ↦
        subst IsSound (sym stored) (record { filled = i.filled; held = i.held; own = (own, i.own) })
  ]

  call_provider-IsSound :
      (provider : ProviderInfo) (req : JobRequest) (s : State)
      → IsSound s
      → IsSound (call_provider w codec b provider req s).1
  call_provider-IsSound provider req s i =
      Holds-IsSound s (call_provider w codec b provider req s).1
        (call_provider-Holds w codec b provider req s i.held) i

  pub submit_job-IsSound :
      (req : JobRequest) (s : State) → IsSound s → IsSound (submit_job w codec b req s).1
  unfolding submit_job
  submit_job-IsSound req s i =
      let t = resolved w codec b req s in
      let begun = history-IsSound s (ctx_check ∷ s.history) i refl in
      let found = resolve_provider-IsSound req.model_id (started w codec b s) begun in
      elim (Option-cases (w.ctx_err s.history)) [
        | inr (e, q) ↦ history-IsSound s (ctx_check ∷ s.history) i (ground arith)
        | inl live ↦
            elim (Result-cases (resolve_provider w codec b req.model_id (started w codec b s)).0) [
              | inr (e, q) ↦
                  let same : (submit_job w codec b req s).1 ≡ t = ground arith in
                  subst IsSound (sym same) found
              | inl (provider, q) ↦
                  let u = (call_provider w codec b provider req t).1 in
                  let called = call_provider-IsSound provider req t found in
                  elim (Result-cases (call_provider w codec b provider req t).0) [
                    | inr (e, r) ↦
                        let same : (submit_job w codec b req s).1 ≡ u = ground arith in
                        subst IsSound (sym same) called
                    | inl (response, r) ↦
                        let same : (submit_job w codec b req s).1
                            ≡ (accept w codec b response u).1 =
                          ground arith in
                        subst IsSound (sym same) (accept-IsSound response u called)
                  ]
            ]
      ]

  poll_result-IsSound :
      (rounds : ℕ) (id : String) (s : State)
      → IsSound s
      → IsSound (poll_result w codec b rounds id s).1
  unfolding poll_result
  poll_result-IsSound zero id s i = i
  poll_result-IsSound (suc rounds) id s i =
      let s' : State = record s { history = polled ∷ s.history } in
      let looked = history-IsSound s s'.history i refl in
      let later = poll_result-IsSound rounds id s' looked in
      elim (Poll-cases w codec b (w.poll s.history)) [
        | inl p ↦ elim (Option-cases (find_result id s.results)) [
          | inl none_yet ↦
              let same : (poll_result w codec b (suc rounds) id s).1
                  ≡ (poll_result w codec b rounds id s').1 =
                ground arith in
              subst IsSound (sym same) later
          | inr (r, f) ↦ history-IsSound s s'.history i (ground arith)
        ]
        | inr (inl p) ↦ history-IsSound s s'.history i (ground arith)
        | inr (inr (c, p)) ↦ history-IsSound s s'.history i (ground arith)
      ]

  pub get_result-IsSound :
      (rounds : ℕ) (id : String) (s : State)
      → IsSound s
      → IsSound (get_result w codec b rounds id s).1
  unfolding get_result
  get_result-IsSound rounds id s i =
      let s' = started w codec b s in
      let begun = history-IsSound s s'.history i refl in
      elim (Option-cases (w.ctx_err s.history)) [
        | inr (e, q) ↦ history-IsSound s s'.history i (ground arith)
        | inl live ↦ elim (Option-cases (find_result id s.results)) [
          | inr (r, f) ↦ history-IsSound s s'.history i (ground arith)
          | inl unknown ↦
              let same : (get_result w codec b rounds id s).1
                  ≡ (poll_result w codec b rounds id s').1 =
                ground arith in
              subst IsSound (sym same) (poll_result-IsSound rounds id s' begun)
        ]
      ]
