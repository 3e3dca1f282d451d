-- ===== src/Compute/Catalog.antt =====
-- Provider discovery: `ListModels`, its two sources and the cache, and `resolveProvider`, of
-- internal/zerog/compute/broker.go.
pub mod Laws
pub mod Typed
pub mod Keeps
pub mod Answers
pub mod Tests
pub mod Cache
pub mod Frame
use agent_inference_ethden.Base.{
  ℕ, ◌+◌, String, ◌<>◌, Option, none, some, Bool, true, false, not, ◌&&◌, List, [], ◌∷◌, map, Bytes,
  length, take, to_text, Error, new, sentinel, wrap, Result, ok, err, no_models, broker_down, Exec,
  pure, raise, lift, annotate, or_fail, try, gets, modify, ◌>>=◌, ◌>>◌, raise_if, raise_some,
  str_eq, ltb, leb, ◌==◌, if◌then◌else◌,
}
use agent_inference_ethden.Base.Decimal.{decimal}
use agent_inference_ethden.World.{
  World, History, Io, Value, Service, uint, services, Request, Response, ctx_err, now, view,
  http_do,
}
use agent_inference_ethden.Compute.Types.{Model, ServiceEntry, State, Broker, Codec}

-- modelCacheDuration, in nanoseconds
abbrev pub model_cache_duration : ℕ
model_cache_duration = 300_000_000_000

abbrev pub services_page_limit : ℕ
services_page_limit = 50

abbrev pub outside : {A : Type 0} → Io A → Exec State A
outside m s = let (r, h) = m s.history in (r, record s { history = h })

-- `io.ReadAll(io.LimitReader(resp.Body, limit))`: an error behind the limit is not met.
pub read_limited : ℕ → Response → Result Bytes
read_limited limit response =
    if leb limit (length response.body)
    then ok (take limit response.body)
    else elim response.read_error [ none ↦ ok response.body | some e ↦ err e ]

-- `m.ID == modelID && m.URL != ""`
pub serves : String → Model → Bool
serves model_id m = str_eq m.id model_id && not (str_eq m.url "")

pub find_model : String → List Model → Option Model
find_model model_id [] = none
find_model model_id (m ∷ ms) = if serves model_id m then some m else find_model model_id ms

pub record ProviderInfo : Type 0 where
  pub url : String
  pub address : String

pub info_of : Model → ProviderInfo
info_of m = record { url = m.url; address = m.provider }

pub model_of_entry : ServiceEntry → Model
model_of_entry e = record {
  id = e.model;
  name = e.name;
  provider = e.provider;
  service_type = e.service_type;
  url = e.url;
}

module _ (w : World) (codec : Codec) (b : Broker) where
  pub cached_models : Exec State (Option (List Model))
  cached_models s = elim s.models [
    | none ↦ (ok none, s)
    | some models ↦
        (outside (now w) >>= λ t. pure (if ltb t s.models_ttl then some models else none)) s
  ]

  pub cache_models : List Model → Exec State Unit
  cache_models models = do
    t ← outside (now w)
    modify λ (s : State). record s { models = some models; models_ttl = t + model_cache_duration }

  pub model_of_service : Service → Model
  model_of_service svc = record {
    id = svc.model;
    name = svc.name;
    provider = w.address_hex svc.provider;
    service_type = "";
    url = svc.url;
  }

  -- Fewer than two results are an empty list.
  decode_services : List Value → Result (List Model)
  decode_services (services svcs ∷ _ ∷ _) = ok (map model_of_service svcs)
  decode_services (_ ∷ _ ∷ _) = err (new "unexpected services type")
  decode_services _ = ok []

  pub list_from_chain : Io (List Model)
  unfolding decode_services
  list_from_chain = do
    result ← annotate "getAllServices: " (
        view w (record {
          contract = b.contract;
          method = "getAllServices";
          args = uint 0 ∷ uint services_page_limit ∷ [];
        }))
    lift (decode_services result)

  -- The part of `listFromHTTP` before the cache.
  pub fetch_services : Io (List ServiceEntry)
  fetch_services = do
    let url = b.cfg.endpoint <> "/api/services/list"
    raise_some (w.new_request_err "GET" url) "create request: "
    response ← or_fail (wrap "list services: " (sentinel broker_down)) (
        http_do w (record {
          method = "GET";
          url = url;
          content_type = none;
          authorization = none;
          body = [];
        }))
    body ← annotate "read response: " (lift (read_limited 65_536 response))
    raise_if (not (response.status == 200))
        (new ("list returned status " <> decimal response.status <> ": " <> to_text body))
    annotate "parse services: " (lift (codec.unmarshal_services body))

  pub keep_models : List Model → Exec State (List Model)
  unfolding cache_models
  keep_models [] = raise (sentinel no_models)
  keep_models (m ∷ ms) = do cache_models (m ∷ ms); pure (m ∷ ms)

  pub list_from_http : Exec State (List Model)
  list_from_http = do entries ← outside fetch_services; keep_models (map model_of_entry entries)

  -- What `ListModels` does with the chain's answer.
  pub after_chain : Result (List Model) → Exec State (List Model)
  after_chain (ok models) = keep_models models
  after_chain (err e) =
      if not (str_eq b.cfg.endpoint "")
      then list_from_http
      else raise (wrap "compute: list models from chain: " e)

  pub refresh : Exec State (List Model)
  refresh = do chain ← try (outside list_from_chain); after_chain chain

  or_refresh : Option (List Model) → Exec State (List Model)
  or_refresh (some models) = pure models
  or_refresh none = refresh

  pub list_models : Exec State (List Model)
  unfolding or_refresh
  list_models = do
    cancelled ← outside (ctx_err w)
    raise_some cancelled "compute: context cancelled: "
    cached ← cached_models
    or_refresh cached

  -- The last part of `resolveProvider`: the fallback endpoint, or the error.
  fallback : Error → Result ProviderInfo
  fallback e =
      if not (str_eq b.cfg.endpoint "")
      then ok (record { url = b.cfg.endpoint; address = "" })
      else err e

  no_provider : String → Error → Error
  no_provider model_id e = wrap ("no provider for model " <> model_id <> ": ") e

  search_list : String → Result (List Model) → Result ProviderInfo
  unfolding fallback no_provider
  search_list model_id (err e) = fallback (no_provider model_id e)
  search_list model_id (ok models) = elim (find_model model_id models) [
    | some m ↦ ok (info_of m)
    | none ↦ fallback (no_provider model_id (sentinel no_models))
  ]

  search_cache : String → Option (List Model) → Option Model
  search_cache model_id none = none
  search_cache model_id (some models) = find_model model_id models

  pub resolve_provider : String → Exec State ProviderInfo
  unfolding search_list search_cache
  resolve_provider model_id = do
    cached ← cached_models
    elim (search_cache model_id cached) [
      | some m ↦ pure (info_of m)
      | none ↦ try list_models >>= λ listed. lift (search_list model_id listed)
    ]
