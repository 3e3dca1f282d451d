-- ===== src/Compute/Session/Setup.antt =====
-- The transactions of internal/zerog/compute/session.go, and its on-chain setup.
use agent_inference_ethden.Base.{ℕ, suc, ◌+◌, ◌≤◌, ◌≡◌, ok, String, true, false, length, arith}
use agent_inference_ethden.World.{World, History, transactions, TransactOpts}
use agent_inference_ethden.Compute.Types.{Codec}
use agent_inference_ethden.Compute.Session.{
  Manager, Held, is_done, ensure_ledger, ensure_provider_account, ensure_acknowledged,
  setup_on_chain, build_session_token, is_cached, setup_once, renew, ensure_session,
}
use agent_inference_ethden.Compute.Session.Laws.{setup_once-keeps, ensure_session-cases}

module _ (w : World) (codec : Codec) (m : Manager) where
  abbrev prepared : String → Held → Held
  prepared provider s = (setup_once w codec m provider s).1

  abbrev looked : String → Held → Held
  looked provider s = (is_cached w codec m provider s).1

  ensure_ledger-sends :
      (user : ℕ) (opts : TransactOpts) (h : History)
      → length (transactions (ensure_ledger w codec m user opts h).1)
        ≤ suc (length (transactions h))
  unfolding ensure_ledger
  ensure_ledger-sends user opts h = ground arith

  ensure_provider_account-sends :
      (user provider : ℕ) (opts : TransactOpts) (h : History)
      → length (transactions (ensure_provider_account w codec m user provider opts h).1)
        ≤ suc (length (transactions h))
  unfolding ensure_provider_account
  ensure_provider_account-sends user provider opts h = ground arith

  ensure_acknowledged-sends :
      (user provider : ℕ) (opts : TransactOpts) (h : History)
      → length (transactions (ensure_acknowledged w codec m user provider opts h).1)
        ≤ suc (length (transactions h))
  unfolding ensure_acknowledged
  ensure_acknowledged-sends user provider opts h = ground arith

  setup_on_chain-sends :
      (provider : String) (h : History)
      → length (transactions (setup_on_chain w codec m provider h).1) ≤ 3 + length (transactions h)
  unfolding setup_on_chain
  setup_on_chain-sends provider h =
      grind (arith, ensure_ledger-sends, ensure_provider_account-sends, ensure_acknowledged-sends)

  setup_once-sends :
      (provider : String) (s : Held)
      → (is_done provider s.session.setup_done ≡ true → (setup_once w codec m provider s).1 ≡ s)
        × (length (transactions (setup_once w codec m provider s).1.history)
            ≤ 3 + length (transactions s.history))
  unfolding setup_once
  setup_once-sends provider s =
      (λ e. ground arith, ground (arith, setup_on_chain-sends provider s.history))

  build_session_token-sends :
      (provider : String) (h : History)
      → transactions (build_session_token w codec m provider h).1 ≡ transactions h
  unfolding build_session_token
  build_session_token-sends provider h = ground arith

  renew-transactions :
      (provider : String) (s : Held)
      → transactions (renew w codec m provider s).1.history
        ≡ transactions (prepared provider s).history
  unfolding renew
  renew-transactions provider s = ground (
    arith,
    setup_once-keeps w codec m provider s,
    build_session_token-sends provider (prepared provider s).history,
  )

  renew-done :
      (provider : String) (s : Held)
      → (renew w codec m provider s).1.session.setup_done ≡ (prepared provider s).session.setup_done
  unfolding renew
  renew-done provider s = ground (arith, setup_once-keeps w codec m provider s)

  looked_lem :
      (provider : String) (s : Held)
      → (transactions (looked provider s).history ≡ transactions s.history)
        × ((looked provider s).session ≡ s.session)
  unfolding is_cached
  looked_lem provider s = (ground arith, ground arith)

  -- A call sends at most the three transactions of the setup.
  pub ensure_session-sends :
      (provider : String) (s : Held)
      → length (transactions (ensure_session w codec m provider s).1.history)
        ≤ 3 + length (transactions s.history)
  ensure_session-sends provider s = ground (
    arith,
    ensure_session-cases w codec m provider s,
    renew-transactions provider (looked provider s),
    setup_once-sends provider (looked provider s),
    looked_lem provider s,
  )

  -- For a provider whose setup was run before, whether it succeeded or not, a call sends no
  -- transaction.
  pub ensure_session-once :
      (provider : String) (s : Held)
      → is_done provider s.session.setup_done ≡ true
      → transactions (ensure_session w codec m provider s).1.history ≡ transactions s.history
  ensure_session-once provider s d = ground (
    arith,
    ensure_session-cases w codec m provider s,
    renew-transactions provider (looked provider s),
    setup_once-sends provider (looked provider s),
    looked_lem provider s,
  )

  -- Behind a call that does not find its token in the cache the setup is marked as run.
  pub ensure_session-marks :
      (provider : String) (s : Held)
      → (is_cached w codec m provider s).0 ≡ ok false
      → is_done provider (ensure_session w codec m provider s).1.session.setup_done ≡ true
  ensure_session-marks provider s miss = ground (
    arith,
    ensure_session-cases w codec m provider s,
    renew-done provider (looked provider s),
    setup_once-keeps w codec m provider (looked provider s),
  )
