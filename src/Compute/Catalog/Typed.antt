-- ===== src/Compute/Catalog/Typed.antt =====
-- The calls of the provider discovery in internal/zerog/compute/broker.go fit the ABI that it
-- declares.
use agent_inference_ethden.Base.{◌≡◌, refl, true, List}
use agent_inference_ethden.World.{World, viewed}
use agent_inference_ethden.Abi.{Binding, find_method, is_of, fit, is_view, accepts_view, is_bound}
use agent_inference_ethden.Abi.Contracts.{serving_abi}
use agent_inference_ethden.Abi.Laws.{Bound, is_bound-viewed}
use agent_inference_ethden.Compute.Types.{Broker, Codec}
use agent_inference_ethden.Compute.Catalog.Cache.{first_page}

abbrev pub binding : Broker → Binding
binding b = record {
  contract = b.contract;
  abi = serving_abi;
  key = b.key;
  chain_id = b.cfg.chain_id;
}

pub first_page-is_bound :
    (w : World) (codec : Codec) (b : Broker) {bs : List Binding}
    → Bound (binding b) bs
    → is_bound bs (viewed (first_page w codec b)) ≡ true
unfolding find_method is_of fit is_view accepts_view
first_page-is_bound w codec b bound = is_bound-viewed bound _ refl refl
