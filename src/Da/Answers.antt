-- ===== src/Da/Answers.antt =====
-- `Verify` of internal/zerog/da/publisher.go on answers of the types that its ABI declares.
use agent_inference_ethden.Base.{
  ◌≡◌, ◌⊎◌, inl, inr, refl, ok, err, Error, wrap, String, ◌<>◌, Bool, List, [], ◌∷◌, arith, true,
  none, Result-cases,
}
use agent_inference_ethden.World.{World, History, View, Value, flag, word, ctx_check}
use agent_inference_ethden.Abi.{results_fit, is_of_type, is_of}
use agent_inference_ethden.Abi.Contracts.{is_data_available}
use agent_inference_ethden.Da.{Publisher, verify, verify_result}

-- What the program relies on: go-ethereum decodes an answer by the outputs of the ABI.
abbrev pub IsDecoded : World → Type 0
IsDecoded w =
    (h : History) (v : View) (results : List Value)
    → v.method ≡ "isDataAvailable"
    → w.view h v ≡ ok results
    → results_fit is_data_available.outputs results ≡ true

one_flag :
    (results : List Value)
    → results_fit is_data_available.outputs results ≡ true
    → (b : Bool) × (results ≡ flag b ∷ [])
unfolding results_fit is_of_type is_of
one_flag results e = ground arith

module _ (w : World) (p : Publisher) (id : String) where
  abbrev question : View
  question = record {
    contract = p.contract;
    method = "isDataAvailable";
    args = word (w.hex_to_hash id) ∷ [];
  }

  -- Under a live context, and with answers that are decoded by the ABI, `Verify` returns the one
  -- Boolean that the contract answered, or the error of the call: its branches for a missing result
  -- and for a result of another type are never taken.
  pub verify-answer :
      (h : History)
      → IsDecoded w
      → w.ctx_err h ≡ none
      → ((b : Bool) × (w.view (ctx_check ∷ h) question ≡ ok (flag b ∷ []))
          × ((verify w p id h).0 ≡ ok b))
        ⊎ ((e : Error) × (w.view (ctx_check ∷ h) question ≡ err e)
            × ((verify w p id h).0 ≡ err (wrap ("da: verify call for " <> id <> ": ") e)))
  unfolding verify verify_result
  verify-answer h d live = elim (Result-cases (w.view (ctx_check ∷ h) question)) [
    | inr (e, q) ↦ inr (e, q, ground arith)
    | inl (results, q) ↦
        let (b, same) = one_flag results (d (ctx_check ∷ h) question results refl q) in
        inl (b, ground arith, ground arith)
  ]
