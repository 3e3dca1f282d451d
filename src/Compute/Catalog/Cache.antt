-- ===== src/Compute/Catalog/Cache.antt =====
-- The cache of models: what `ListModels` puts there, takes from there and asks the chain.
use agent_inference_ethden.Base.{
  ◌<◌, ◌≡◌, ◌≢◌, ◌⊎◌, refl, inl, inr, ok, err, Error, List, [], ◌∷◌, map, arith, some, none, wrap,
  ltb, Bool-cases, Option-cases, Result-cases,
}
use agent_inference_ethden.World.{World, History, View, uint, views, clock_read, ctx_check}
use agent_inference_ethden.Compute.Types.{Model, State, Broker, Codec}
use agent_inference_ethden.Compute.Catalog.{
  cached_models, list_from_chain, fetch_services, keep_models, list_from_http, after_chain, refresh,
  list_models, services_page_limit, model_of_entry,
}

module _ (w : World) (codec : Codec) (b : Broker) where
  -- A cache that is filled holds a model, so an empty list is never taken for an answer.
  abbrev pub IsFilled : State → Type 0
  IsFilled s = s.models ≢ some []

  keep_models-IsFilled :
      (ms : List Model) (s : State)
      → IsFilled s
      → IsFilled (keep_models w codec b ms s).1 × ((keep_models w codec b ms s).0 ≢ ok [])
  unfolding keep_models
  keep_models-IsFilled [] s f = (λ e. f e, λ e. cc)
  keep_models-IsFilled (m ∷ ms) s f = (λ e. ground arith, λ e. ground arith)

  list_from_http-IsFilled :
      (s : State)
      → IsFilled s
      → IsFilled (list_from_http w codec b s).1 × ((list_from_http w codec b s).0 ≢ ok [])
  unfolding list_from_http
  list_from_http-IsFilled s f = elim (Result-cases (fetch_services w codec b s.history).0) [
    | inr (e, q) ↦ (λ z. f (ground arith), λ z. ground arith)
    | inl (es, q) ↦
        let t = record s { history = (fetch_services w codec b s.history).1 } in
        let kept = keep_models-IsFilled (map model_of_entry es) t f in
        (λ z. kept.0 (ground arith), λ z. kept.1 (ground arith))
  ]

  refresh-IsFilled :
      (s : State)
      → IsFilled s
      → IsFilled (refresh w codec b s).1 × ((refresh w codec b s).0 ≢ ok [])
  unfolding refresh after_chain
  refresh-IsFilled s f =
      let t = record s { history = (list_from_chain w codec b s.history).1 } in
      elim (Result-cases (list_from_chain w codec b s.history).0) [
        | inr (e, q) ↦
            let listed = list_from_http-IsFilled t f in
            (λ z. ground (arith, f, listed.0), λ z. ground (arith, listed.1))
        | inl (ms, q) ↦
            let kept = keep_models-IsFilled ms t f in
            (λ z. kept.0 (ground arith), λ z. kept.1 (ground arith))
      ]

  abbrev pub checked : State → State
  checked s = record s { history = ctx_check ∷ s.history }

  abbrev pub read_clock : State → State
  read_clock s = record s { history = clock_read ∷ ctx_check ∷ s.history }

  -- `ListModels` ends with a cancelled context, returns a fresh cache, or asks again.
  pub list_models-cases :
      (s : State)
      → ((e : Error) × (list_models w codec b s ≡ (err e, checked s)))
        ⊎ ((ms : List Model) × (s.models ≡ some ms)
            × (list_models w codec b s ≡ (ok ms, read_clock s)))
        ⊎ (list_models w codec b s ≡ refresh w codec b (checked s))
        ⊎ (list_models w codec b s ≡ refresh w codec b (read_clock s))
  unfolding list_models cached_models
  list_models-cases s = elim (Option-cases (w.ctx_err s.history)) [
    | inr (e, c) ↦ inl (wrap "compute: context cancelled: " e, ground arith)
    | inl c ↦ elim (Option-cases s.models) [
      | inl m ↦ inr (inr (inl (ground arith)))
      | inr (ms, m) ↦ elim (Bool-cases (ltb (w.now (ctx_check ∷ s.history)) s.models_ttl)) [
        | inl fresh ↦ inr (inl (ms, m, ground arith))
        | inr stale ↦ inr (inr (inr (ground arith)))
      ]
    ]
  ]

  -- `ListModels` never returns an empty list, and never leaves one in the cache.
  pub list_models-IsFilled :
      (s : State)
      → IsFilled s
      → IsFilled (list_models w codec b s).1 × ((list_models w codec b s).0 ≢ ok [])
  list_models-IsFilled s f = elim (list_models-cases s) [
    | inl (e, q) ↦ (λ z. f (ground arith), λ z. ground arith)
    | inr (inl (ms, m, q)) ↦ (λ z. f (ground arith), λ z. f (ground arith))
    | inr (inr (inl q)) ↦ rw q (refresh-IsFilled (checked s) f)
    | inr (inr (inr q)) ↦ rw q (refresh-IsFilled (read_clock s) f)
  ]

  -- With the context alive, a filled cache whose time has not come is returned, and nothing but the
  -- context and the clock is asked.
  pub list_models_fresh :
      (ms : List Model) (s : State)
      → w.ctx_err s.history ≡ none
      → s.models ≡ some ms
      → w.now (ctx_check ∷ s.history) < s.models_ttl
      → list_models w codec b s ≡ (ok ms, read_clock s)
  unfolding list_models cached_models
  list_models_fresh ms s live m fresh = ground arith

  abbrev pub first_page : View
  first_page = record {
    contract = b.contract;
    method = "getAllServices";
    args = uint 0 ∷ uint services_page_limit ∷ [];
  }

  list_from_chain-views :
      (h : History) → views (list_from_chain w codec b h).1 ≡ first_page ∷ views h
  unfolding list_from_chain
  list_from_chain-views h = ground arith

  fetch_services-views : (h : History) → views (fetch_services w codec b h).1 ≡ views h
  unfolding fetch_services
  fetch_services-views h = ground arith

  keep_models-views :
      (ms : List Model) (s : State) → views (keep_models w codec b ms s).1.history ≡ views s.history
  unfolding keep_models
  keep_models-views [] s = refl
  keep_models-views (m ∷ ms) s = refl

  list_from_http-views :
      (s : State) → views (list_from_http w codec b s).1.history ≡ views s.history
  unfolding list_from_http
  list_from_http-views s = grind (arith, fetch_services-views, keep_models-views)

  refresh-views : (s : State) → views (refresh w codec b s).1.history ≡ first_page ∷ views s.history
  unfolding refresh after_chain
  refresh-views s = grind (arith, list_from_chain-views, keep_models-views, list_from_http-views)

  -- A call asks the contract for the first page of 50 services, once, or does not ask it at all: a
  -- service behind the first page is never discovered.
  pub list_models-first_page :
      (s : State)
      → (views (list_models w codec b s).1.history ≡ views s.history)
        ⊎ (views (list_models w codec b s).1.history ≡ first_page ∷ views s.history)
  list_models-first_page s = elim (list_models-cases s) [
    | inl (e, q) ↦ inl (ground arith)
    | inr (inl (ms, m, q)) ↦ inl (ground arith)
    | inr (inr (inl q)) ↦ inr (rw q (refresh-views (checked s)))
    | inr (inr (inr q)) ↦ inr (rw q (refresh-views (read_clock s)))
  ]
