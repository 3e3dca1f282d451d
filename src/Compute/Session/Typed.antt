-- ===== src/Compute/Session/Typed.antt =====
-- The transactions and calls of internal/zerog/compute/session.go fit the ABIs that it declares.
use agent_inference_ethden.Base.{ℕ, ◌≡◌, refl, true, List}
use agent_inference_ethden.World.{sent, viewed}
use agent_inference_ethden.Abi.{
  Binding, find_method, is_of, fit, takes_amount, is_view, accepts_tx, accepts_view, is_bound,
}
use agent_inference_ethden.Abi.Contracts.{ledger_abi, serving_session_abi}
use agent_inference_ethden.Abi.Laws.{Bound, is_bound-sent, is_bound-viewed}
use agent_inference_ethden.Compute.Session.Keeps.{
  ledger_view, account_view, ledger_tx, fund_tx, acknowledge_tx, Admits,
}
use agent_inference_ethden.Compute.Session.{Manager}

abbrev pub ledger_binding : Manager → Binding
ledger_binding m = record {
  contract = m.ledger;
  abi = ledger_abi;
  key = m.key;
  chain_id = m.chain_id;
}

abbrev pub serving_binding : Manager → Binding
serving_binding m = record {
  contract = m.serving;
  abi = serving_session_abi;
  key = m.key;
  chain_id = m.chain_id;
}

module _ (m : Manager) {bs : List Binding} (ledger : Bound (ledger_binding m) bs)
    (serving : Bound (serving_binding m) bs) where
  ledger_view-is_bound : (user : ℕ) → is_bound bs (viewed (ledger_view m user)) ≡ true
  unfolding find_method is_of fit is_view accepts_view
  ledger_view-is_bound user = is_bound-viewed ledger _ refl refl

  account_view-is_bound :
      (user provider : ℕ) → is_bound bs (viewed (account_view m user provider)) ≡ true
  unfolding find_method is_of fit is_view accepts_view
  account_view-is_bound user provider = is_bound-viewed serving _ refl refl

  ledger_tx-is_bound : is_bound bs (sent (ledger_tx m)) ≡ true
  unfolding find_method is_of fit takes_amount accepts_tx
  ledger_tx-is_bound = is_bound-sent ledger _ refl refl refl refl

  fund_tx-is_bound : (provider : ℕ) → is_bound bs (sent (fund_tx m provider)) ≡ true
  unfolding find_method is_of fit takes_amount accepts_tx
  fund_tx-is_bound provider = is_bound-sent ledger _ refl refl refl refl

  acknowledge_tx-is_bound : (provider : ℕ) → is_bound bs (sent (acknowledge_tx m provider)) ≡ true
  unfolding find_method is_of fit takes_amount accepts_tx
  acknowledge_tx-is_bound provider = is_bound-sent serving _ refl refl refl refl

  pub admits : Admits m (λ e. is_bound bs e ≡ true)
  admits = record {
    asks_ledger = ledger_view-is_bound;
    asks_account = account_view-is_bound;
    adds = ledger_tx-is_bound;
    funds = fund_tx-is_bound;
    acknowledges = acknowledge_tx-is_bound;
  }
