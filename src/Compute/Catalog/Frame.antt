-- ===== src/Compute/Catalog/Frame.antt =====
-- Frame lemmas of provider discovery: the results, the session and the cache of the broker.
use agent_inference_ethden.Base.{
  ◌≡◌, ◌⊎◌, inl, inr, Result-cases, refl, String, List, [], ◌∷◌, arith,
}
use agent_inference_ethden.World.{World}
use agent_inference_ethden.Compute.Types.{Model, State, Broker, Codec}
use agent_inference_ethden.Compute.Catalog.{
  cached_models, list_from_chain, keep_models, list_from_http, after_chain, refresh, list_models,
  resolve_provider,
}
use agent_inference_ethden.Compute.Catalog.Cache.{
  IsFilled, list_models-IsFilled, list_models-cases, checked, read_clock,
}

abbrev pub SameJobs : State → State → Type 0
SameJobs s t = (t.results ≡ s.results) × (t.session ≡ s.session)

module _ (w : World) (codec : Codec) (b : Broker) where
  keep_models-SameJobs : (ms : List Model) (s : State) → SameJobs s (keep_models w codec b ms s).1
  unfolding keep_models
  keep_models-SameJobs [] s = (refl, refl)
  keep_models-SameJobs (m ∷ ms) s = (refl, refl)

  list_from_http-SameJobs : (s : State) → SameJobs s (list_from_http w codec b s).1
  unfolding list_from_http
  list_from_http-SameJobs s = grind (arith, keep_models-SameJobs)

  refresh-SameJobs : (s : State) → SameJobs s (refresh w codec b s).1
  unfolding refresh after_chain
  refresh-SameJobs s =
      let t = record s { history = (list_from_chain w codec b s.history).1 } in
      elim (Result-cases (list_from_chain w codec b s.history).0) [
        | inl (ms, q) ↦ ground (arith, keep_models-SameJobs ms t)
        | inr (e, q) ↦ ground (arith, list_from_http-SameJobs t)
      ]

  pub list_models-SameJobs : (s : State) → SameJobs s (list_models w codec b s).1
  list_models-SameJobs s = elim (list_models-cases w codec b s) [
    | inl (e, q) ↦ rw q (refl, refl)
    | inr (inl (ms, m, q)) ↦ rw q (refl, refl)
    | inr (inr (inl q)) ↦ rw q (refresh-SameJobs (checked w codec b s))
    | inr (inr (inr q)) ↦ rw q (refresh-SameJobs (read_clock w codec b s))
  ]

  cached_models-SameJobs :
      (s : State)
      → SameJobs s (cached_models w codec b s).1 × ((cached_models w codec b s).1.models ≡ s.models)
  unfolding cached_models
  cached_models-SameJobs s = ground arith

  -- `resolveProvider` ends behind the cache, or behind `ListModels`.
  resolve_provider-state :
      (id : String) (s : State)
      → let t = (cached_models w codec b s).1 in
        ((resolve_provider w codec b id s).1 ≡ t)
        ⊎ ((resolve_provider w codec b id s).1 ≡ (list_models w codec b t).1)
  unfolding resolve_provider
  resolve_provider-state id s = ground arith

  pub resolve_provider-SameJobs :
      (id : String) (s : State) → SameJobs s (resolve_provider w codec b id s).1
  resolve_provider-SameJobs id s =
      let read = cached_models-SameJobs s in
      elim (resolve_provider-state id s) [
        | inl q ↦ rw q read.0
        | inr q ↦ ground (arith, read, list_models-SameJobs (cached_models w codec b s).1)
      ]

  pub resolve_provider-IsFilled :
      (id : String) (s : State)
      → IsFilled w codec b s
      → IsFilled w codec b (resolve_provider w codec b id s).1
  resolve_provider-IsFilled id s f =
      let t = (cached_models w codec b s).1 in
      let g : IsFilled w codec b t = λ e. f (ground (arith, cached_models-SameJobs s)) in
      elim (resolve_provider-state id s) [
        | inl q ↦ rw q g
        | inr q ↦ rw q (list_models-IsFilled w codec b t g).0
      ]
