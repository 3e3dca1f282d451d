-- ===== src/Compute/Session/Spending.antt =====
-- What the session pays: internal/zerog/compute/session.go sends an amount only in the setup of a
-- provider that it has not set up before.
use agent_inference_ethden.Base.{ℕ, ◌+◌, ◌*◌, ◌≤◌, ◌≡◌, String, List, [], ◌∷◌, false, length, arith}
use agent_inference_ethden.World.{World, History, paid, make_transact_opts}
use agent_inference_ethden.Compute.Types.{Session, Codec}
use agent_inference_ethden.Compute.Session.{
  Manager, Held, tenth, is_done, invalidate, ensure_ledger, ensure_provider_account,
  ensure_acknowledged, setup_on_chain, build_session_token, is_cached, setup_once, renew,
  ensure_session,
}
use agent_inference_ethden.Compute.Session.Keeps.{signer}

-- No provider stands twice in the list.
abbrev pub IsDistinct : List String → Type 0
IsDistinct [] = Unit
IsDistinct (p ∷ ps) = (is_done p ps ≡ false) × IsDistinct ps

-- No more was paid than a tenth of a token for each provider that was set up.
abbrev pub IsFrugal : Session → History → Type 0
IsFrugal s h = (paid h ≤ tenth * length s.setup_done) × IsDistinct s.setup_done

module _ (w : World) (codec : Codec) (m : Manager) where
  ensure_ledger-paid :
      (user : ℕ) (h : History) → paid (ensure_ledger w codec m user (signer m) h).1 ≤ tenth + paid h
  unfolding ensure_ledger
  ensure_ledger-paid user h = ground arith

  ensure_provider_account-paid :
      (user provider : ℕ) (h : History)
      → paid (ensure_provider_account w codec m user provider (signer m) h).1 ≡ paid h
  unfolding ensure_provider_account
  ensure_provider_account-paid user provider h = ground arith

  ensure_acknowledged-paid :
      (user provider : ℕ) (h : History)
      → paid (ensure_acknowledged w codec m user provider (signer m) h).1 ≡ paid h
  unfolding ensure_acknowledged
  ensure_acknowledged-paid user provider h = ground arith

  setup_on_chain-paid :
      (provider : String) (h : History)
      → paid (setup_on_chain w codec m provider h).1 ≤ tenth + paid h
  unfolding setup_on_chain make_transact_opts
  setup_on_chain-paid provider h =
      grind (arith, ensure_ledger-paid, ensure_provider_account-paid, ensure_acknowledged-paid)

  setup_once-IsFrugal :
      (provider : String) (s : Held)
      → IsFrugal s.session s.history
      → IsFrugal
          (setup_once w codec m provider s).1.session
          (setup_once w codec m provider s).1.history
  unfolding setup_once
  setup_once-IsFrugal provider s f =
      (ground (arith, f, setup_on_chain-paid provider s.history), ground (arith, f))

  build_session_token-paid :
      (provider : String) (h : History) → paid (build_session_token w codec m provider h).1 ≡ paid h
  unfolding build_session_token
  build_session_token-paid provider h = ground arith

  abbrev prepared : String → Held → Held
  prepared provider s = (setup_once w codec m provider s).1

  renew-IsFrugal :
      (provider : String) (s : Held)
      → IsFrugal s.session s.history
      → IsFrugal (renew w codec m provider s).1.session (renew w codec m provider s).1.history
  unfolding renew
  renew-IsFrugal provider s f =
      let done = setup_once-IsFrugal provider s f in
      let built = build_session_token-paid provider (prepared provider s).history in
      (ground (arith, done, built), ground (arith, done))

  is_cached-IsFrugal :
      (provider : String) (s : Held)
      → IsFrugal s.session s.history
      → IsFrugal
          (is_cached w codec m provider s).1.session
          (is_cached w codec m provider s).1.history
  unfolding is_cached
  is_cached-IsFrugal provider s f = (ground (arith, f), ground (arith, f))

  pub ensure_session-IsFrugal :
      (provider : String) (s : Held)
      → IsFrugal s.session s.history
      → IsFrugal
          (ensure_session w codec m provider s).1.session
          (ensure_session w codec m provider s).1.history
  unfolding ensure_session
  ensure_session-IsFrugal provider s f =
      let looked = is_cached-IsFrugal provider s f in
      let renewed = renew-IsFrugal provider (is_cached w codec m provider s).1 looked in
      (ground (arith, looked, renewed), ground (arith, looked, renewed))

-- The providers of an invalidated session are the same.
pub invalidate-IsFrugal : (s : Session) (h : History) → IsFrugal s h → IsFrugal (invalidate s) h
unfolding invalidate
invalidate-IsFrugal s h f = f
