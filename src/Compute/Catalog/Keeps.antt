-- ===== src/Compute/Catalog/Keeps.antt =====
-- Frame lemmas of the provider discovery: what they keep of a history.
use agent_inference_ethden.Base.{inl, inr, String, List, [], ◌∷◌, arith}
use agent_inference_ethden.World.{World, History, Effect, Request, http, viewed}
use agent_inference_ethden.World.Keeps.{Keeps}
use agent_inference_ethden.Compute.Types.{Model, State, Broker, Codec}
use agent_inference_ethden.Compute.Catalog.{
  cached_models, list_from_chain, fetch_services, keep_models, list_from_http, after_chain, refresh,
  list_models, resolve_provider,
}
use agent_inference_ethden.Compute.Catalog.Cache.{
  list_models-cases, first_page, checked, read_clock,
}

module _ (w : World) (codec : Codec) (b : Broker) (Holds : History → Type 0)
    (Allowed : Effect → Type 0) (k : Keeps Holds Allowed) (asks : (r : Request) → Allowed (http r))
    (pages : Allowed (viewed (first_page w codec b))) where
  list_from_chain-keeps : (h : History) → Holds h → Holds (list_from_chain w codec b h).1
  unfolding list_from_chain
  list_from_chain-keeps h t = grind (arith, k.grow, pages)

  fetch_services-keeps : (h : History) → Holds h → Holds (fetch_services w codec b h).1
  unfolding fetch_services
  fetch_services-keeps h t = grind (arith, k.grow, asks)

  keep_models-keeps :
      (ms : List Model) (s : State) → Holds s.history → Holds (keep_models w codec b ms s).1.history
  unfolding keep_models
  keep_models-keeps [] s t = t
  keep_models-keeps (m ∷ ms) s t = k.grow _ _ k.reads t

  list_from_http-keeps :
      (s : State) → Holds s.history → Holds (list_from_http w codec b s).1.history
  unfolding list_from_http
  list_from_http-keeps s t = grind (arith, k.grow, k.reads, fetch_services-keeps, keep_models-keeps)

  refresh-keeps : (s : State) → Holds s.history → Holds (refresh w codec b s).1.history
  unfolding refresh after_chain
  refresh-keeps s t =
      grind (arith, k.grow, k.reads, list_from_chain-keeps, keep_models-keeps, list_from_http-keeps)

  list_models-keeps : (s : State) → Holds s.history → Holds (list_models w codec b s).1.history
  list_models-keeps s t = elim (list_models-cases w codec b s) [
    | inl (e, q) ↦ rw q (k.grow _ _ k.checks t)
    | inr (inl (ms, m, q)) ↦ rw q (k.grow _ _ k.reads (k.grow _ _ k.checks t))
    | inr (inr (inl q)) ↦ rw q (refresh-keeps (checked w codec b s) (k.grow _ _ k.checks t))
    | inr (inr (inr q)) ↦
        rw q (refresh-keeps (read_clock w codec b s) (k.grow _ _ k.reads (k.grow _ _ k.checks t)))
  ]

  cached_models-keeps : (s : State) → Holds s.history → Holds (cached_models w codec b s).1.history
  unfolding cached_models
  cached_models-keeps s t = grind (arith, k.grow, k.reads)

  pub resolve_provider-keeps :
      (id : String) (s : State)
      → Holds s.history
      → Holds (resolve_provider w codec b id s).1.history
  unfolding resolve_provider
  resolve_provider-keeps id s t =
      grind (arith, k.grow, k.reads, cached_models-keeps, list_models-keeps)
