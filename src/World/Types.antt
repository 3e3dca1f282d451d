-- ===== src/World/Types.antt =====
-- What the agent exchanges with the outside, and the record of what it has done.
use agent_inference_ethden.Base.{ℕ, Bool, String, Option, List, Bytes, Error}
use agent_inference_ethden.Base.Int.{ℤ}

-- The tuple of the serving contract's `getAllServices`.
pub record Service : Type 0 where
  pub provider : ℕ
  pub name : String
  pub url : String
  pub input_price : ℕ
  pub output_price : ℕ
  pub updated_at : ℕ
  pub model : String
  pub verifiability : String
  pub content : String
  pub signer : ℕ
  pub occupied : Bool

-- A value of the contracts' ABI. Addresses, hashes and integers are numbers, big-endian.
pub data Value : Type 0 where
  address word uint : ℕ → Value
  big : ℤ → Value
  text : String → Value
  bytes fixed : Bytes → Value
  flag : Bool → Value
  services : List Service → Value

-- The fields of `bind.TransactOpts` that the program reads or sets. A private key is known by the
-- pointer to it, a number.
pub record TransactOpts : Type 0 where
  pub key : ℕ
  pub chain_id : ℤ
  pub value : Option ℕ

pub record Tx : Type 0 where
  pub contract : ℕ
  pub opts : TransactOpts
  pub method : String
  pub args : List Value

pub record View : Type 0 where
  pub contract : ℕ
  pub method : String
  pub args : List Value

pub record Log : Type 0 where
  pub topics : List ℕ

pub record Receipt : Type 0 where
  pub status : ℕ
  pub logs : List Log

pub record Request : Type 0 where
  pub method : String
  pub url : String
  pub content_type : Option String
  pub authorization : Option String
  pub body : Bytes

-- The body is read to its end, or to an error behind the bytes.
pub record Response : Type 0 where
  pub status : ℕ
  pub body : Bytes
  pub read_error : Option Error

-- What one round of a select over a context, a deadline and a ticker picks.
pub data Poll : Type 0 where
  tick deadline : Poll
  cancelled : Error → Poll

-- One thing that the agent asked of the outside.
pub data Effect : Type 0 where
  ctx_check clock_read polled : Effect
  waited random : ℕ → Effect
  sent : Tx → Effect
  mined : String → Effect
  viewed : View → Effect
  http : Request → Effect
  published : String → Bytes → Effect

-- All that the agent has done, the newest first.
abbrev pub History : Type 0
History = List Effect
