-- ===== src/Da/Typed.antt =====
-- The transactions and calls of internal/zerog/da/publisher.go fit the ABI that it declares.
use agent_inference_ethden.Base.{◌≡◌, refl, true, String, Bytes, Result, List, ◌∷◌, [], arith}
use agent_inference_ethden.World.{World, sent, viewed, History, View, word}
use agent_inference_ethden.Abi.{
  Binding, find_method, is_of, fit, takes_amount, is_view, accepts_tx, accepts_view, is_bound,
  is_typed,
}
use agent_inference_ethden.Abi.Contracts.{da_abi}
use agent_inference_ethden.Abi.Laws.{is_typed-Keeps, Bound, is_bound-sent, is_bound-viewed}
use agent_inference_ethden.Da.Keeps.{publish-keeps}
use agent_inference_ethden.Da.{Publisher, AuditEvent, submission, publish, verify}

abbrev pub binding : Publisher → Binding
binding p = record { contract = p.contract; abi = da_abi; key = p.key; chain_id = p.cfg.chain_id }

module _ (w : World) (p : Publisher) {bs : List Binding} (bound : Bound (binding p) bs) where
  submission-is_bound : (payload : Bytes) → is_bound bs (sent (submission w p payload)) ≡ true
  unfolding submission find_method is_of fit takes_amount accepts_tx
  submission-is_bound payload = is_bound-sent bound _ refl refl refl refl

  abbrev question : String → View
  question id = record {
    contract = p.contract;
    method = "isDataAvailable";
    args = word (w.hex_to_hash id) ∷ [];
  }

  question-is_bound : (id : String) → is_bound bs (viewed (question id)) ≡ true
  unfolding find_method is_of fit is_view accepts_view
  question-is_bound id = is_bound-viewed bound _ refl refl

  pub publish-is_typed :
      (marshal : AuditEvent → Result Bytes) (event : AuditEvent) (h : History)
      → is_typed bs h ≡ true
      → is_typed bs (publish w marshal p event h).1 ≡ true
  publish-is_typed =
      publish-keeps w p (λ h. is_typed bs h ≡ true) (λ e. is_bound bs e ≡ true) (is_typed-Keeps bs)
        submission-is_bound

  pub verify-is_typed :
      (id : String) (h : History) → is_typed bs h ≡ true → is_typed bs (verify w p id h).1 ≡ true
  unfolding verify
  verify-is_typed id h t =
      let k = is_typed-Keeps bs in grind (arith, k.grow, k.checks, question-is_bound id)
