-- ===== src/Command/Start.antt =====
-- What `main` has built when it runs the agent.
use mathlib.Core.Path.{subst}
use agent_inference_ethden.Base.{
  ◌||◌, ℕ, suc, ◌≡◌, ◌≢◌, ◌<◌, inl, inr, refl, ok, Result-cases, Bool-cases, str_eq, eq_iff, arith,
}
use agent_inference_ethden.Chain.{load_key, dial_client, trim_prefix}
use agent_inference_ethden.Hcs.Transport.{HcsTransport, new_transport}
use agent_inference_ethden.Agent.Config.{Config, load_config}
use agent_inference_ethden.Command.{
  Outer, Setup, Clients, mocks, on_chain, Transport, live, fallback, init_clients,
  init_hcs_transport, connect_daemon, start_up,
}

module _ (o : Outer) where
  -- Where the clients of 0G come from.
  pub data IsChosen (cfg : Config) (clients : Clients) : Type 0 where
    in_mock_mode : o.getenv "ZG_MOCK_MODE" ≡ "true" → clients ≡ mocks → IsChosen cfg clients
    with_key :
        (chain key : ℕ)
        → o.getenv "ZG_MOCK_MODE" ≢ "true"
        → o.dial_context cfg.inft.chain_rpc ≡ ok chain
        → o.hex_to_ecdsa (trim_prefix cfg.inft.private_key "0x") ≡ ok key
        → clients ≡ on_chain chain key
        → IsChosen cfg clients

  -- The transport has the client of an account and a key that parsed, and room for all its reports.
  pub data IsLinked (transport : Transport) : Type 0 where
    without_account : transport ≡ fallback → IsLinked transport
    with_account :
        (account key : ℕ) (t : HcsTransport)
        → o.account_id_from_string (o.getenv "HEDERA_ACCOUNT_ID") ≡ ok account
        → o.private_key_from_string (o.getenv "HEDERA_PRIVATE_KEY") ≡ ok key
        → t.client ≡ o.client_for_testnet account key
        → suc t.max_reconnects < t.message_buffer
        → transport ≡ live t
        → IsLinked transport

  init_clients-IsChosen :
      (cfg : Config) {clients : Clients} → init_clients o cfg ≡ ok clients → IsChosen cfg clients
  unfolding init_clients dial_client load_key
  init_clients-IsChosen cfg e =
      let hex = trim_prefix cfg.inft.private_key "0x" in
      elim (Bool-cases (str_eq (o.getenv "ZG_MOCK_MODE") "true")) [
        | inl b ↦ in_mock_mode ((eq_iff (o.getenv "ZG_MOCK_MODE") "true").0 b) (ground arith)
        | inr b ↦ elim (Result-cases (o.dial_context cfg.inft.chain_rpc)) [
          | inr (f, q) ↦ ground arith
          | inl (chain, q) ↦ elim (Result-cases (o.hex_to_ecdsa hex)) [
            | inr (f, r) ↦ ground arith
            | inl (key, r) ↦
                with_key chain key
                  (λ m. ground (arith, (eq_iff (o.getenv "ZG_MOCK_MODE") "true").1 m)) q r
                  (ground arith)
          ]
        ]
      ]

  init_hcs_transport-IsLinked : IsLinked (init_hcs_transport o)
  unfolding init_hcs_transport new_transport
  init_hcs_transport-IsLinked =
      let id = o.getenv "HEDERA_ACCOUNT_ID" in
      let secret = o.getenv "HEDERA_PRIVATE_KEY" in
      elim (Bool-cases (str_eq id "" || str_eq secret "")) [
        | inl b ↦ without_account (ground arith)
        | inr b ↦ elim (Result-cases (o.account_id_from_string id)) [
          | inr (f, q) ↦ without_account (ground arith)
          | inl (account, q) ↦ elim (Result-cases (o.private_key_from_string secret)) [
            | inr (f, r) ↦ without_account (ground arith)
            | inl (key, r) ↦
                with_account account key
                  (record {
                    client = o.client_for_testnet account key;
                    message_buffer = 100;
                    reconnect_delay = 2_000_000_000;
                    max_reconnects = 10;
                  })
                  q r refl (omega arith) (ground arith)
          ]
        ]
      ]

  pub record IsStarted (setup : Setup) : Type 0 where
    pub configured : load_config o.parse_duration o.getenv ≡ ok setup.cfg
    pub chosen : IsChosen setup.cfg setup.clients
    pub linked : IsLinked setup.transport

  -- `main` comes to run the agent only with a configuration that loaded, and in the mock mode with
  -- the mocks, otherwise with a connection to the chain and a key that parsed without its prefix; its
  -- transport is the fallback, or has the client of the account and the key in the environment, and
  -- then a channel with room for every report that its subscription can make.
  pub start_up-IsStarted : {setup : Setup} → start_up o ≡ ok setup → IsStarted setup
  unfolding start_up
  start_up-IsStarted {setup} e = elim (Result-cases (load_config o.parse_duration o.getenv)) [
    | inr (f, q) ↦ ground arith
    | inl (cfg, q) ↦ elim (Result-cases (init_clients o cfg)) [
      | inr (f, r) ↦ ground arith
      | inl (clients, r) ↦
          let built : Setup = record {
            cfg = cfg;
            clients = clients;
            transport = init_hcs_transport o;
            daemon = connect_daemon o cfg.daemon_addr;
          } in
          let same : built ≡ setup = ground arith in
          subst IsStarted same (record {
            configured = q;
            chosen = init_clients-IsChosen cfg r;
            linked = init_hcs_transport-IsLinked;
          })
    ]
  ]
