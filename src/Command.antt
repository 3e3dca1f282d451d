-- ===== src/Command.antt =====
-- cmd/agent-inference/main.go: what `main` builds before it runs the agent, and how it exits. The
-- clients that it builds are wired to the agent in Agent/Wiring and, for the mock mode, in
-- Command/Mocked.
pub mod Mocked
pub mod Laws
pub mod Start
pub mod Mode
mod Tests
pub mod Delivery
use agent_inference_ethden.Base.{
  ℕ, String, Option, none, some, Bool, ◌||◌, List, [], Bytes, Error, sentinel, canceled, Result, ok,
  err, str_eq, if◌then◌else◌,
}
use agent_inference_ethden.Base.Int.{ℤ, pos}
use agent_inference_ethden.World.{World, History}
use agent_inference_ethden.Chain.{dial_client, load_key}
use agent_inference_ethden.Hcs.Transport.{HcsTransport, Hiero, new_transport, publish as submit}
use agent_inference_ethden.Agent.{Daemon, client, noop}
use agent_inference_ethden.Agent.Config.{Config, load_config}

-- What `main` asks of the operating system and of the packages of Hedera, go-ethereum and the daemon.
pub record Outer : Type 0 where
  pub getenv : String → String
  pub parse_duration : String → Result ℤ
  pub dial_context : String → Result ℕ
  pub hex_to_ecdsa : String → Result ℕ
  pub account_id_from_string : String → Result ℕ
  pub private_key_from_string : String → Result ℕ
  pub client_for_testnet : ℕ → ℕ → ℕ
  pub new_grpc_client : String → Option Error

-- `hcs.HCSTransport`, or the fallback.
pub data Transport : Type 0 where
  live : HcsTransport → Transport
  fallback : Transport

-- The clients of 0G: mocks, or clients with a chain client and a key.
pub data Clients : Type 0 where
  mocks : Clients
  on_chain : ℕ → ℕ → Clients

pub record Setup : Type 0 where
  pub cfg : Config
  pub clients : Clients
  pub transport : Transport
  pub daemon : Daemon

module _ (o : Outer) where
  abbrev with_private_key : ℕ → Result ℕ → Transport
  with_private_key account (err _) = fallback
  with_private_key account (ok key) = live (
      new_transport (record {
        client = o.client_for_testnet account key;
        message_buffer = pos 0;
        reconnect_delay = pos 0;
        max_reconnects = pos 0;
      }))

  abbrev with_account : Result ℕ → Transport
  with_account (err _) = fallback
  with_account (ok account) =
      with_private_key account (o.private_key_from_string (o.getenv "HEDERA_PRIVATE_KEY"))

  pub init_hcs_transport : Transport
  init_hcs_transport =
      if str_eq (o.getenv "HEDERA_ACCOUNT_ID") "" || str_eq (o.getenv "HEDERA_PRIVATE_KEY") ""
      then fallback
      else with_account (o.account_id_from_string (o.getenv "HEDERA_ACCOUNT_ID"))

  abbrev connected : Option Error → Daemon
  connected none = client
  connected (some _) = noop

  pub connect_daemon : String → Daemon
  connect_daemon address = connected (o.new_grpc_client address)

  abbrev keyed : ℕ → Result ℕ → Result Clients
  keyed chain (ok key) = ok (on_chain chain key)
  keyed chain (err e) = err e

  abbrev dialled : Config → Result ℕ → Result Clients
  dialled cfg (ok chain) = keyed chain (load_key o.hex_to_ecdsa cfg.inft.private_key)
  dialled cfg (err e) = err e

  pub init_clients : Config → Result Clients
  init_clients cfg =
      if str_eq (o.getenv "ZG_MOCK_MODE") "true"
      then ok mocks
      else dialled cfg (dial_client o.dial_context cfg.inft.chain_rpc)

  abbrev with_clients : Config → Result Clients → Result Setup
  with_clients cfg (err e) = err e
  with_clients cfg (ok clients) = ok (record {
    cfg = cfg;
    clients = clients;
    transport = init_hcs_transport;
    daemon = connect_daemon cfg.daemon_addr;
  })

  abbrev configured : Result Config → Result Setup
  configured (err e) = err e
  configured (ok cfg) = with_clients cfg (init_clients cfg)

  -- `main` up to `a.Run`; an error is logged, and the exit status is 1.
  pub start_up : Result Setup
  start_up = configured (load_config o.parse_duration o.getenv)

-- `a.Run(ctx)` and the rest of `main`: the exit status for the error that `Run` returns.
pub exit_status : Option Error → ℕ
exit_status none = 0
exit_status (some (sentinel canceled)) = 0
exit_status (some _) = 1

abbrev failure_of : Result {0} Unit → Option Error
failure_of (ok _) = none
failure_of (err e) = some e

-- `Publish` of a transport.
pub publish : Transport → Hiero → String → Bytes → Option Error
publish fallback hiero topic message = none
publish (live t) hiero topic message = failure_of (submit hiero topic message []).0

-- The world whose transport of Hedera is the one that `main` built.
pub with_transport : Transport → (History → Hiero) → World → World
unfolding publish
with_transport t hiero w = record w {
  hcs_publish = λ h topic message. publish t (hiero h) topic message;
}
