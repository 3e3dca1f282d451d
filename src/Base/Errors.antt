-- ===== src/Base/Errors.antt =====
-- Go errors as values: `errors.New`, `fmt.Errorf` with and without a final `%w`, and `errors.Is`.
use Prim.Native.String.{String, ◌++◌ as ◌<>◌}
use mathlib.Core.Option.{Option, none, some}

-- The sentinel variables of the packages, and the two errors of package context.
pub data Sentinel : Type 0 where
  subscription_failed publish_failed invalid_message topic_not_found : Sentinel
  job_pending job_failed no_models broker_down : Sentinel
  submission_failed not_available da_node_unreachable serialize_failed : Sentinel
  content_not_found upload_failed node_down integrity : Sentinel
  mint_failed token_not_found encryption_failed chain_unreachable insufficient_gas : Sentinel
  canceled deadline_exceeded : Sentinel

abbrev pub sentinel_text : Sentinel → String
sentinel_text subscription_failed = "hcs: topic subscription failed"
sentinel_text publish_failed = "hcs: message publish failed"
sentinel_text invalid_message = "hcs: received invalid message format"
sentinel_text topic_not_found = "hcs: topic not found"
sentinel_text job_pending = "compute: job is still pending"
sentinel_text job_failed = "compute: job execution failed"
sentinel_text no_models = "compute: no models available"
sentinel_text broker_down = "compute: broker is unreachable"
sentinel_text submission_failed = "da: submission to DA layer failed"
sentinel_text not_available = "da: data not yet available"
sentinel_text da_node_unreachable = "da: DA node unreachable"
sentinel_text serialize_failed = "da: event serialization failed"
sentinel_text content_not_found = "storage: content not found"
sentinel_text upload_failed = "storage: upload failed"
sentinel_text node_down = "storage: storage node unreachable"
sentinel_text integrity = "storage: data integrity check failed"
sentinel_text mint_failed = "inft: minting transaction failed"
sentinel_text token_not_found = "inft: token not found"
sentinel_text encryption_failed = "inft: metadata encryption failed"
sentinel_text chain_unreachable = "inft: 0G Chain RPC unreachable"
sentinel_text insufficient_gas = "inft: insufficient gas for transaction"
sentinel_text canceled = "context canceled"
sentinel_text deadline_exceeded = "context deadline exceeded"

-- `wrap s e` is `fmt.Errorf(s + "%w", e)`: every `%w` of the program ends its format.
pub data Error : Type 0 where
  new : String → Error
  sentinel : Sentinel → Error
  wrap : String → Error → Error

-- `err.Error()`
abbrev pub error_text : Error → String
error_text (new s) = s
error_text (sentinel x) = sentinel_text x
error_text (wrap s e) = s <> error_text e

-- The sentinel at the end of the chain: `errors.Is(err, x)` is `cause err ≡ some x`.
abbrev pub cause : Error → Option Sentinel
cause (new s) = none
cause (sentinel x) = some x
cause (wrap s e) = cause e

pub data Result {ℓ} (A : Type ℓ) : Type ℓ where
  ok : A → Result A
  err : Error → Result A
