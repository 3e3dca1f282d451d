-- ===== src/World.antt =====
-- The outside of the agent: the context, the clock, the 0G chain, HTTP, Hedera and the cipher
-- libraries. Each answer is a function of what the agent has done so far, so a theorem over every
-- `World` speaks of every behaviour of the outside, also one that changes between two calls.
-- `MakeTransactOpts` and `AddressFromKey` of internal/zerog/chain.go stand at the end.
mod Types
mod Count
pub mod Sample
pub mod Past
pub mod Keeps
pub use Types.*
pub use Count.*
use agent_inference_ethden.Base.{
  ℕ, String, Option, none, some, List, ◌∷◌, Bytes, Error, wrap, Result, ok, err, Exec,
}
use agent_inference_ethden.Base.Int.{ℤ}

pub record World : Type 0 where
  -- package context, and package time in nanoseconds since the zero time
  pub ctx_err : History → Option Error
  pub now : History → ℕ
  pub wait : History → ℕ → Option Error
  pub poll : History → Poll
  pub rand_read : History → ℕ → Result Bytes
  -- go-ethereum
  pub keyed_transactor_err : ℕ → ℤ → Option Error
  pub transact : History → Tx → Result String
  pub wait_mined : History → String → Result Receipt
  pub view : History → View → Result (List Value)
  pub hex_to_address : String → ℕ
  pub address_hex : ℕ → String
  pub hex_to_hash : String → ℕ
  pub hash_hex : ℕ → String
  pub pubkey_to_address : ℕ → ℕ
  pub event_id : String → ℕ
  -- package net/http
  pub new_request_err : String → String → Option Error
  pub http_do : History → Request → Result Response
  -- the transport of Hedera
  pub hcs_publish : History → String → Bytes → Option Error

abbrev pub Io : Type 0 → Type 0
Io A = Exec History A

module _ (w : World) where
  -- `ctx.Err()`
  abbrev pub ctx_err : Io (Option Error)
  ctx_err h = (ok (w.ctx_err h), ctx_check ∷ h)

  -- `time.Now()`
  abbrev pub now : Io ℕ
  now h = (ok (w.now h), clock_read ∷ h)

  -- A select of `ctx.Done()` and `time.After(d)`: the context's error if it ended the wait.
  abbrev pub wait : ℕ → Io (Option Error)
  wait d h = (ok (w.wait h d), waited d ∷ h)

  -- A select of `ctx.Done()`, a deadline and a ticker.
  abbrev pub poll : Io Poll
  poll h = (ok (w.poll h), polled ∷ h)

  -- `rand.Read` of n bytes
  abbrev pub rand_read : ℕ → Io Bytes
  rand_read n h = (w.rand_read h n, random n ∷ h)

  -- `BoundContract.Transact`, `bind.WaitMined` and `BoundContract.Call`
  abbrev pub transact : Tx → Io String
  transact tx h = (w.transact h tx, sent tx ∷ h)

  abbrev pub wait_mined : String → Io Receipt
  wait_mined hash h = (w.wait_mined h hash, mined hash ∷ h)

  abbrev pub view : View → Io (List Value)
  view v h = (w.view h v, viewed v ∷ h)

  -- `http.Client.Do`
  abbrev pub http_do : Request → Io Response
  http_do r h = (w.http_do h r, http r ∷ h)

  -- `Transport.Publish`
  abbrev pub hcs_publish : String → Bytes → Io (Option Error)
  hcs_publish topic payload h = (ok (w.hcs_publish h topic payload), published topic payload ∷ h)

  abbrev transactor : Option Error → ℕ → ℤ → Result TransactOpts
  transactor none key chain = ok (record { key = key; chain_id = chain; value = none })
  transactor (some e) key chain = err (wrap "zerog: create transactor: " e)

  -- `zerog.MakeTransactOpts`. The context that it stores is the caller's.
  unfoldable pub make_transact_opts : ℕ → ℤ → Result TransactOpts
  make_transact_opts key chain = transactor (w.keyed_transactor_err key chain) key chain

  -- `zerog.AddressFromKey`
  abbrev pub address_from_key : ℕ → ℕ
  address_from_key key = w.pubkey_to_address key
