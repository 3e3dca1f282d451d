-- ===== src/Compute/Catalog/Answers.antt =====
-- `listFromChain` of internal/zerog/compute/broker.go on answers of the types that its ABI declares.
use agent_inference_ethden.Base.{
  ◌≡◌, ◌⊎◌, ap, inl, inr, refl, ok, err, Error, wrap, List, [], ◌∷◌, arith, true, map, Result-cases,
}
use agent_inference_ethden.World.{World, History, View, Value, Service, services, uint}
use agent_inference_ethden.Abi.{results_fit, is_of_type, is_of, tuples}
use agent_inference_ethden.Abi.Contracts.{get_all_services, service_fields}
use agent_inference_ethden.Compute.Types.{Broker, Codec}
use agent_inference_ethden.Compute.Catalog.{
  services_page_limit, model_of_service, decode_services, list_from_chain,
}

-- What the program relies on: go-ethereum decodes an answer by the outputs of the ABI.
abbrev pub IsDecoded : World → Type 0
IsDecoded w =
    (h : History) (v : View) (results : List Value)
    → v.method ≡ "getAllServices"
    → w.view h v ≡ ok results
    → results_fit get_all_services.outputs results ≡ true

services_of :
    (v : Value)
    → is_of_type (tuples service_fields) v ≡ true
    → (svcs : List Service) × (v ≡ services svcs)
unfolding is_of_type is_of
services_of v e = ground arith

services_first :
    (results : List Value)
    → results_fit get_all_services.outputs results ≡ true
    → (svcs : List Service) × (total : Value) × (results ≡ services svcs ∷ total ∷ [])
unfolding results_fit
services_first [] e = ground arith
services_first (v ∷ []) e = ground arith
services_first (v ∷ total ∷ []) e =
    let (svcs, same) = services_of v (ground arith) in (svcs, total, ap (λ z. z ∷ total ∷ []) same)
services_first (v ∷ total ∷ more ∷ results) e = ground arith

module _ (w : World) (codec : Codec) (b : Broker) where
  abbrev question : View
  question = record {
    contract = b.contract;
    method = "getAllServices";
    args = uint 0 ∷ uint services_page_limit ∷ [];
  }

  -- With answers that are decoded by the ABI, the chain's list is the models of the services on the
  -- page that was answered, or the error of the call: its branches for too few results and for a
  -- result of another type are never taken.
  pub list_from_chain-answer :
      (h : History)
      → IsDecoded w
      → ((svcs : List Service) × (total : Value) × (w.view h question
            ≡ ok (services svcs ∷ total ∷ []))
          × ((list_from_chain w codec b h).0 ≡ ok (map (model_of_service w codec b) svcs)))
        ⊎ ((e : Error) × (w.view h question ≡ err e)
            × ((list_from_chain w codec b h).0 ≡ err (wrap "getAllServices: " e)))
  unfolding list_from_chain decode_services
  list_from_chain-answer h d = elim (Result-cases (w.view h question)) [
    | inr (e, q) ↦ inr (e, q, ground arith)
    | inl (results, q) ↦
        let (svcs, total, same) = services_first results (d h question results refl q) in
        inl (svcs, total, ground arith, ground arith)
  ]
