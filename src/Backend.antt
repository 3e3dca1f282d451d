-- ===== src/Backend.antt =====
-- internal/zerog/zgtest/mock.go: the double of the chain for the tests of the program. Its function
-- fields are options; the mutex is never taken. A call or transaction is the bytes that go-ethereum
-- packs, a hash is a number, and a big.Int is a number.
mod Laws
use agent_inference_ethden.Base.{
  ℕ, ◌+◌, ◌-◌, ◌%◌, ◌^◌, String, Option, none, some, List, [], ◌∷◌, Bytes, Error, Result, ok, err,
  Exec, pure, raise, lift, ◌>>=◌, ◌>>◌,
}
use agent_inference_ethden.World.{Log}

pub record BackendReceipt : Type 0 where
  pub status : ℕ
  pub tx_hash : ℕ
  pub logs : List Log

pub record Header : Type 0 where
  pub number : ℕ
  pub base_fee : ℕ

-- `call_err` of a transaction is none when it was accepted.
pub record MockBackend : Type 0 where
  pub nonce : ℕ
  pub call_fn : Option (Bytes → Result Bytes)
  pub send_tx_fn : Option (Bytes → Option Error)
  pub receipt_fn : Option (ℕ → Result BackendReceipt)
  pub global_err : Option Error

-- `if m.Err != nil { return ..., m.Err }`
abbrev unless_broken : {A : Type 0} → Exec MockBackend A → Exec MockBackend A
unless_broken call m = elim m.global_err [ some e ↦ (err e, m) | none ↦ call m ]

pub code_at : Exec MockBackend Bytes
code_at = unless_broken (pure (1 ∷ []))

abbrev called : Option (Bytes → Result Bytes) → Bytes → Result Bytes
called none call = ok []
called (some f) call = f call

pub call_contract : Bytes → Exec MockBackend Bytes
call_contract call = unless_broken (λ m. (called m.call_fn call, m))

pub header_by_number : Exec MockBackend Header
header_by_number = unless_broken (pure (record { number = 1; base_fee = 1_000_000_000 }))

pub pending_code_at : Exec MockBackend Bytes
pending_code_at = unless_broken (pure (1 ∷ []))

-- `nonce.Add(1) - 1` on an atomic uint64
pub pending_nonce_at : Exec MockBackend ℕ
pending_nonce_at = unless_broken λ (m : MockBackend).
    let n = (m.nonce + 1) % 2 ^ 64 in (ok ((n + (2 ^ 64 - 1)) % 2 ^ 64), record m { nonce = n })

pub suggest_gas_price : Exec MockBackend ℕ
suggest_gas_price = unless_broken (pure 1_000_000_000)

pub suggest_gas_tip_cap : Exec MockBackend ℕ
suggest_gas_tip_cap = unless_broken (pure 100_000_000)

pub estimate_gas : Exec MockBackend ℕ
estimate_gas = unless_broken (pure 100_000)

abbrev accepted : Option Error → Result {0} Unit
accepted none = ok tt
accepted (some e) = err e

abbrev sent : Option (Bytes → Option Error) → Bytes → Result {0} Unit
sent none tx = ok tt
sent (some f) tx = accepted (f tx)

pub send_transaction : Bytes → Exec MockBackend Unit
send_transaction tx = unless_broken (λ m. (sent m.send_tx_fn tx, m))

pub filter_logs : Exec MockBackend (List Log)
filter_logs = unless_broken (pure [])

-- The stub of a subscription has no content.
pub subscribe_filter_logs : Exec MockBackend Unit
subscribe_filter_logs = unless_broken (pure tt)

abbrev received : Option (ℕ → Result BackendReceipt) → ℕ → Result BackendReceipt
received none hash = ok (record { status = 1; tx_hash = hash; logs = [] })
received (some f) hash = f hash

pub transaction_receipt : ℕ → Exec MockBackend BackendReceipt
transaction_receipt hash = unless_broken (λ m. (received m.receipt_fn hash, m))
