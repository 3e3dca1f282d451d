-- ===== src/Compute/Catalog/Tests.antt =====
-- Provider discovery at concrete inputs.
use agent_inference_ethden.Base.{
  String, List, ok-injective, map, Error, err, wrap, false, ◌≡◌, ◌≢◌, ◌⊎◌, refl, ok, [], ◌∷◌, some,
  none, arith,
}
use agent_inference_ethden.World.{World, History, Value, Service, services, uint, viewed, ctx_check}
use agent_inference_ethden.World.Sample.{sample_world}
use agent_inference_ethden.Compute.Types.{State}
use agent_inference_ethden.Compute.Sample.{codec, broker, fresh_state, model}
use agent_inference_ethden.Compute.Catalog.{
  resolve_provider, list_models, cached_models, search_cache, find_model, serves, info_of, refresh,
  or_refresh, list_from_chain, decode_services, after_chain, keep_models, search_list, fallback,
  no_provider, read_limited, model_of_service,
}
use agent_inference_ethden.Compute.Catalog.Laws
use agent_inference_ethden.Compute.Catalog.Laws.{IsChoice}
use agent_inference_ethden.Compute.Catalog.Answers
use agent_inference_ethden.Compute.Catalog.Answers.{IsDecoded}
use agent_inference_ethden.Abi.{results_fit, is_of_type, is_of, has_layout, same_type}
use agent_inference_ethden.Compute.Catalog.Cache.{IsFilled, first_page}

abbrev known : State
known = record fresh_state {
  models = some (record model { url = "" } ∷ model ∷ []);
  models_ttl = 20_000_000_000_000;
}

resolved : (resolve_provider sample_world codec broker "m" known).0 ≡ ok (info_of model)
unfolding resolve_provider cached_models search_cache find_model serves
resolved = refl

-- With no list: the fallback endpoint.
pub resolved_endpoint :
    (id : String) (h : History)
    → resolve_provider sample_world codec broker id (record fresh_state { history = h }) ≡ (
      ok (record { url = "http://fallback"; address = "" }),
      record fresh_state {
        history = viewed (first_page sample_world codec broker) ∷ ctx_check ∷ h;
      },
    )
unfolding resolve_provider cached_models search_cache list_models refresh or_refresh list_from_chain
    decode_services after_chain keep_models search_list fallback no_provider
resolved_endpoint id h = refl

pub read_short :
    read_limited 1_048_576 (record { status = 200; body = 1 ∷ []; read_error = none }) ≡ ok (1 ∷ [])
unfolding read_limited
read_short = refl

resolve_provider-IsChoice_example :
    IsChoice sample_world codec broker known "m" (info_of model) × ((info_of model).url ≢ "")
resolve_provider-IsChoice_example =
    Laws.resolve_provider-IsChoice sample_world codec broker "m" known resolved

fresh_state-IsFilled : IsFilled sample_world codec broker fresh_state
fresh_state-IsFilled = λ e. ground arith

abbrev service : Service
service = record {
  provider = 5;
  name = "s";
  url = "http://p";
  input_price = 1;
  output_price = 2;
  updated_at = 3;
  model = "m";
  verifiability = "";
  content = "";
  signer = 5;
  occupied = false;
}

-- A world whose contracts answer one service.
abbrev serving : World
serving = record sample_world { view = λ h v. ok (services (service ∷ []) ∷ uint 1 ∷ []) }

serving-IsDecoded : IsDecoded serving
unfolding results_fit is_of_type is_of has_layout same_type
serving-IsDecoded h v results m q = rw (← ok-injective _ _ q) refl

list_from_chain-answer_example :
    ((svcs : List Service) × (total : Value) × (ok (services (service ∷ []) ∷ uint 1 ∷ [])
        ≡ ok (services svcs ∷ total ∷ []))
      × ((list_from_chain serving codec broker []).0
          ≡ ok (map (model_of_service serving codec broker) svcs)))
    ⊎ ((e : Error) × (ok (services (service ∷ []) ∷ uint 1 ∷ []) ≡ err e)
        × ((list_from_chain serving codec broker []).0 ≡ err (wrap "getAllServices: " e)))
list_from_chain-answer_example =
    Answers.list_from_chain-answer serving codec broker [] serving-IsDecoded
