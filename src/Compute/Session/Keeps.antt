-- ===== src/Compute/Session/Keeps.antt =====
-- Frame lemmas of the session: what its calls keep of a history.
use agent_inference_ethden.Base.{ℕ, String, none, some, true, [], ◌∷◌, arith}
use agent_inference_ethden.World.{
  World, History, Effect, Tx, View, TransactOpts, address, text, uint, flag, sent, viewed,
  make_transact_opts,
}
use agent_inference_ethden.World.Keeps.{Keeps}
use agent_inference_ethden.Compute.Types.{Codec}
use agent_inference_ethden.Compute.Session.{
  Manager, Held, tenth, ensure_ledger, ensure_provider_account, ensure_acknowledged, setup_on_chain,
  build_session_token, is_cached, setup_once, renew, ensure_session,
}

module _ (m : Manager) where
  abbrev pub signer : TransactOpts
  signer = record { key = m.key; chain_id = m.chain_id; value = none }

  abbrev pub ledger_view : ℕ → View
  ledger_view user = record { contract = m.ledger; method = "getLedger"; args = address user ∷ [] }

  abbrev pub account_view : ℕ → ℕ → View
  account_view user provider = record {
    contract = m.serving;
    method = "getAccount";
    args = address user ∷ address provider ∷ [];
  }

  abbrev pub ledger_tx : Tx
  ledger_tx = record {
    contract = m.ledger;
    opts = record signer { value = some tenth };
    method = "addLedger";
    args = text "" ∷ [];
  }

  abbrev pub fund_tx : ℕ → Tx
  fund_tx provider = record {
    contract = m.ledger;
    opts = signer;
    method = "transferFund";
    args = address provider ∷ text "inference-v1.0" ∷ uint tenth ∷ [];
  }

  abbrev pub acknowledge_tx : ℕ → Tx
  acknowledge_tx provider = record {
    contract = m.serving;
    opts = signer;
    method = "acknowledgeTEESigner";
    args = address provider ∷ flag true ∷ [];
  }

  -- The calls and transactions of a session are allowed.
  pub record Admits (Allowed : Effect → Type 0) : Type 0 where
    pub asks_ledger : (user : ℕ) → Allowed (viewed (ledger_view user))
    pub asks_account : (user provider : ℕ) → Allowed (viewed (account_view user provider))
    pub adds : Allowed (sent ledger_tx)
    pub funds : (provider : ℕ) → Allowed (sent (fund_tx provider))
    pub acknowledges : (provider : ℕ) → Allowed (sent (acknowledge_tx provider))

module _ (w : World) (codec : Codec) (m : Manager) (Holds : History → Type 0)
    (Allowed : Effect → Type 0) (k : Keeps Holds Allowed) (a : Admits m Allowed) where
  ensure_ledger-keeps :
      (user : ℕ) (h : History) → Holds h → Holds (ensure_ledger w codec m user (signer m) h).1
  unfolding ensure_ledger
  ensure_ledger-keeps user h t = grind (arith, k.grow, k.mines, a.asks_ledger, a.adds)

  ensure_provider_account-keeps :
      (user provider : ℕ) (h : History)
      → Holds h
      → Holds (ensure_provider_account w codec m user provider (signer m) h).1
  unfolding ensure_provider_account
  ensure_provider_account-keeps user provider h t =
      grind (arith, k.grow, k.mines, a.asks_account, a.funds)

  ensure_acknowledged-keeps :
      (user provider : ℕ) (h : History)
      → Holds h
      → Holds (ensure_acknowledged w codec m user provider (signer m) h).1
  unfolding ensure_acknowledged
  ensure_acknowledged-keeps user provider h t =
      grind (arith, k.grow, k.mines, a.asks_account, a.acknowledges)

  setup_on_chain-keeps :
      (provider : String) (h : History) → Holds h → Holds (setup_on_chain w codec m provider h).1
  unfolding setup_on_chain make_transact_opts
  setup_on_chain-keeps provider h t = grind (
    arith, k.grow, k.reads, ensure_ledger-keeps, ensure_provider_account-keeps,
    ensure_acknowledged-keeps,
  )

  setup_once-keeps :
      (provider : String) (s : Held)
      → Holds s.history
      → Holds (setup_once w codec m provider s).1.history
  unfolding setup_once
  setup_once-keeps provider s t =
      grind (arith, k.grow, k.reads, setup_on_chain-keeps provider s.history t)

  build_session_token-keeps :
      (provider : String) (h : History)
      → Holds h
      → Holds (build_session_token w codec m provider h).1
  unfolding build_session_token
  build_session_token-keeps provider h t = grind (arith, k.grow, k.reads, k.draws)

  renew-keeps :
      (provider : String) (s : Held)
      → Holds s.history
      → Holds (renew w codec m provider s).1.history
  unfolding renew
  renew-keeps provider s t =
      grind (arith, k.grow, k.reads, setup_once-keeps, build_session_token-keeps)

  is_cached-keeps :
      (provider : String) (s : Held)
      → Holds s.history
      → Holds (is_cached w codec m provider s).1.history
  unfolding is_cached
  is_cached-keeps provider s t = grind (arith, k.grow, k.reads)

  pub ensure_session-keeps :
      (provider : String) (s : Held)
      → Holds s.history
      → Holds (ensure_session w codec m provider s).1.history
  unfolding ensure_session
  ensure_session-keeps provider s t =
      let looked = is_cached-keeps provider s t in
      let renewed = renew-keeps provider (is_cached w codec m provider s).1 looked in
      grind (arith, k.grow, k.reads, looked, renewed)
