-- ===== src/Compute/Catalog/Laws.antt =====
-- `resolveProvider` in internal/zerog/compute/broker.go, and the bodies that are read.
use mathlib.Core.Path.{subst}
use agent_inference_ethden.Base.{
  sym, sentinel, no_models, ℕ, ◌≤◌, ◌≡◌, ◌≢◌, ◌⊎◌, refl, inl, inr, ok, err, wrap, Error, Result,
  String, ◌<>◌, true, Bytes, List, [], ◌∷◌, length, arith, Option, some, none, Bool-cases,
  Option-cases, Result-cases, eq_iff, IsFirst, IsFirst-here, IsFirst-there, length-take_le,
}
use agent_inference_ethden.World.{World, Response}
use agent_inference_ethden.Compute.Types.{Model, State, Broker, Codec}
use agent_inference_ethden.Compute.Catalog.{
  ProviderInfo, info_of, serves, find_model, cached_models, list_models, resolve_provider,
  search_list, search_cache, fallback, read_limited,
}

find_model-IsFirst :
    (id : String) (ms : List Model) {m : Model}
    → find_model id ms ≡ some m
    → IsFirst (serves id) m ms
unfolding find_model
find_model-IsFirst id [] e = ground arith
find_model-IsFirst id (x ∷ ms) {m} e = elim (Bool-cases (serves id x)) [
  | inl hit ↦
      let same : x ≡ m = ground arith in
      subst (λ y. IsFirst (serves id) y (x ∷ ms)) same (IsFirst-here x ms hit)
  | inr miss ↦ IsFirst-there x miss (find_model-IsFirst id ms (ground arith))
]

serves-url : (id : String) (m : Model) → serves id m ≡ true → (m.id ≡ id) × (m.url ≢ "")
unfolding serves
serves-url id m e = (ground (arith, eq_iff m.id id), λ q. ground (arith, eq_iff m.url ""))

-- The bytes that are read from a body never exceed the limit.
pub read_limited-length :
    (limit : ℕ) (r : Response) {bytes : Bytes}
    → read_limited limit r ≡ ok bytes
    → length bytes ≤ limit
unfolding read_limited
read_limited-length limit r e = ground (arith, length-take_le limit r.body)

module _ (w : World) (codec : Codec) (b : Broker) where
  -- The lists that `resolveProvider` may look at: the cached one, and what `ListModels` returns.
  abbrev pub IsKnown : State → List Model → Type 0
  IsKnown s ms =
      (s.models ≡ some ms) ⊎ ((list_models w codec b (cached_models w codec b s).1).0 ≡ ok ms)

  -- The provider that was chosen: the first of a known list that offers the model and has a URL, or
  -- else the fallback endpoint, which has no address.
  pub data IsChoice (s : State) (id : String) (info : ProviderInfo) : Type 0 where
    listed :
        (ms : List Model) (m : Model)
        → IsKnown s ms
        → IsFirst (serves id) m ms
        → info ≡ info_of m
        → IsChoice s id info
    endpoint :
        b.cfg.endpoint ≢ ""
        → info ≡ record { url = b.cfg.endpoint; address = "" }
        → IsChoice s id info

  fallback-endpoint :
      (e : Error) {info : ProviderInfo}
      → fallback w codec b e ≡ ok info
      → (b.cfg.endpoint ≢ "") × (info ≡ record { url = b.cfg.endpoint; address = "" })
  unfolding fallback
  fallback-endpoint e q = (λ z. ground (arith, eq_iff b.cfg.endpoint ""), ground arith)

  search_list-IsChoice :
      (s : State) (id : String) (r : Result (List Model)) {info : ProviderInfo}
      → (list_models w codec b (cached_models w codec b s).1).0 ≡ r
      → search_list w codec b id r ≡ ok info
      → IsChoice s id info
  unfolding search_list
  search_list-IsChoice s id (err e) l q =
      let (set, same) = fallback-endpoint (wrap ("no provider for model " <> id <> ": ") e) q in
      endpoint set same
  search_list-IsChoice s id (ok ms) l q = elim (Option-cases (find_model id ms)) [
    | inr (m, f) ↦ listed ms m (inr l) (find_model-IsFirst id ms f) (ground arith)
    | inl f ↦
        let e = wrap ("no provider for model " <> id <> ": ") (sentinel no_models) in
        let (set, same) = fallback-endpoint e (ground arith) in endpoint set same
  ]

  search_cache-IsChoice :
      (s : State) (id : String) (o : Option (List Model)) {m : Model}
      → ((ms : List Model) → o ≡ some ms → s.models ≡ some ms)
      → search_cache w codec b id o ≡ some m
      → IsChoice s id (info_of m)
  unfolding search_cache
  search_cache-IsChoice s id none k q = ground arith
  search_cache-IsChoice s id (some ms) {m} k q =
      listed ms m (inl (k ms refl)) (find_model-IsFirst id ms q) refl

  IsChoice-url :
      (s : State) (id : String) (info : ProviderInfo) → IsChoice s id info → info.url ≢ ""
  unfolding info_of
  IsChoice-url s id info (listed ms m k f e) z = (serves-url id m f.passes).1 (ground arith)
  IsChoice-url s id info (endpoint set e) z = set (ground arith)

  cached_models-known :
      (s : State)
      → ((cached_models w codec b s).0 ≡ ok none) ⊎ ((cached_models w codec b s).0 ≡ ok s.models)
  unfolding cached_models
  cached_models-known s = ground arith

  choice :
      (id : String) (s : State) {info : ProviderInfo}
      → (resolve_provider w codec b id s).0 ≡ ok info
      → IsChoice s id info
  unfolding resolve_provider
  choice id s {info} q = elim (Result-cases (cached_models w codec b s).0) [
    | inr (e, c) ↦ ground arith
    | inl (cached, c) ↦ elim (Option-cases (search_cache w codec b id cached)) [
      | inr (m, f) ↦
          let same : info ≡ info_of m = ground arith in
          subst (λ i. IsChoice s id i) (sym same)
            (search_cache-IsChoice s id cached (λ ms k. ground (arith, cached_models-known s)) f)
      | inl f ↦
          search_list-IsChoice s id (list_models w codec b (cached_models w codec b s).1).0 refl
            (ground arith)
    ]
  ]

  -- A provider that is resolved has a URL. It is the first that has the requested id and a URL in
  -- the cached list or in what `ListModels` returned; or it is the fallback endpoint, which is
  -- configured then.
  pub resolve_provider-IsChoice :
      (id : String) (s : State) {info : ProviderInfo}
      → (resolve_provider w codec b id s).0 ≡ ok info
      → IsChoice s id info × (info.url ≢ "")
  resolve_provider-IsChoice id s {info} q = let c = choice id s q in (c, IsChoice-url s id info c)
