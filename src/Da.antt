-- ===== src/Da.antt =====
-- The audit publisher: internal/zerog/da/models.go and publisher.go.
mod Types
mod Submit
pub mod Retry
pub mod Events
pub mod Typed
pub mod Keeps
pub mod Answers
pub mod Laws
pub mod Tests
pub use Types.*
use agent_inference_ethden.Base.{
  ℕ, zero, suc, ◌+◌, ◌*◌, ◌^◌, ◌%◌, String, ◌<>◌, Option, none, some, Bool, true, false, not, ◌&&◌,
  List, [], ◌∷◌, Bytes, length, get_or, Error, new, sentinel, wrap, Result, ok, err,
  serialize_failed, submission_failed, pure, raise, lift, annotate, try, ◌>>=◌, ◌>>◌, raise_if,
  raise_some, str_eq, leb, ◌==◌, if◌then◌else◌,
}
use agent_inference_ethden.Base.Int.{ℤ, pos, is_zero, less, add_one, rounds}
use agent_inference_ethden.Base.Decimal.{decimal, decimal_ℤ}
use agent_inference_ethden.World.{
  World, Io, Log, Receipt, Tx, Value, flag, word, bytes, ctx_err, wait, transact, wait_mined, view,
  make_transact_opts,
}

-- The `AuditPublisher` that `NewPublisher` returns.
pub record Publisher : Type 0 where
  pub cfg : PublisherConfig
  pub contract : ℕ
  pub key : ℕ

-- A time.Duration is an int64: 2 ^ attempt seconds, wrapped as the machine wraps it.
pub backoff : ℕ → ℕ
backoff attempt = 2 ^ attempt % 2 ^ 64 * 1_000_000_000 % 2 ^ 64

pub exhausted : ℤ → Option Error → Error
exhausted max (some last) = wrap ("all " <> decimal_ℤ (add_one max) <> " attempts failed: ") last
exhausted max none = new ("all " <> decimal_ℤ (add_one max) <> " attempts failed: %!w(<nil>)")

pub is_data_submit : ℕ → Log → Bool
is_data_submit id log = leb 2 (length log.topics) && get_or log.topics 0 0 == id

pub find_data_root : ℕ → List Log → Option ℕ
find_data_root id [] = none
find_data_root id (log ∷ logs) =
    if is_data_submit id log then some (get_or log.topics 1 0) else find_data_root id logs

module _ (w : World) where
  unfoldable pub new_publisher : PublisherConfig → ℕ → Publisher
  new_publisher cfg key =
      let retries = if is_zero cfg.max_retries then pos 3 else cfg.max_retries in
      let namespace = if str_eq cfg.namespace "" then "inference-audit" else cfg.namespace in
      record {
        cfg = record cfg { max_retries = retries; namespace = namespace };
        contract = w.hex_to_address cfg.da_contract_address;
        key = key;
      }

  root_text : Option ℕ → Result String
  root_text none = err (new "da: DataSubmit event not found in receipt")
  root_text (some root) = ok (w.hash_hex root)

  pub parse_data_submit_event : Receipt → Result String
  unfolding root_text find_data_root is_data_submit
  parse_data_submit_event receipt =
      root_text (find_data_root (w.event_id "DataSubmit") receipt.logs)

  -- The transaction that carries an event.
  pub submission : Publisher → Bytes → Tx
  submission p payload = record {
    contract = p.contract;
    opts = record { key = p.key; chain_id = p.cfg.chain_id; value = none };
    method = "submitOriginalData";
    args = bytes payload ∷ [];
  }

  pub submit_to_da : Publisher → Bytes → Io String
  submit_to_da p payload = do
    opts ← annotate "create transact opts: " (lift (make_transact_opts w p.key p.cfg.chain_id))
    hash ← annotate "submit tx: " (
        transact w (record {
          contract = p.contract;
          opts = opts;
          method = "submitOriginalData";
          args = bytes payload ∷ [];
        }))
    receipt ← annotate ("wait for tx " <> hash <> ": ") (wait_mined w hash)
    raise_if (not (receipt.status == 1)) (wrap "tx reverted: " (sentinel submission_failed))
    lift (parse_data_submit_event receipt)

  -- The wait behind a failed attempt, if another one follows.
  pub pause : ℤ → ℕ → Io Unit
  pause max attempt =
      if less attempt max
      then (wait w (backoff attempt) >>= λ c. raise_some c "context cancelled during backoff: ")
      else pure tt

  -- The loop of `publishWithRetry`, with the rounds that are left, the variable `attempt` and the
  -- last error.
  pub attempt_loop : Publisher → Bytes → ℕ → ℕ → Option Error → Io String
  attempt_loop p payload zero attempt last = raise (exhausted p.cfg.max_retries last)
  attempt_loop p payload (suc left) attempt last = do
    c ← ctx_err w
    raise_some c ("context cancelled on attempt " <> decimal (attempt + 1) <> ": ")
    r ← try (submit_to_da p payload)
    elim r [
      | ok id ↦ pure id
      | err e ↦
          pause p.cfg.max_retries attempt >> attempt_loop p payload left (suc attempt) (some e)
    ]

  pub publish_with_retry : Publisher → Bytes → Io String
  unfolding attempt_loop
  publish_with_retry p payload = attempt_loop p payload (rounds p.cfg.max_retries) 0 none

  verify_result : List Value → Result Bool
  verify_result [] = ok false
  verify_result (flag available ∷ _) = ok available
  verify_result (_ ∷ _) = err (new "da: unexpected verify result type")

  pub verify : Publisher → String → Io Bool
  unfolding verify_result
  verify p submission_id = do
    c ← ctx_err w
    raise_some c "da: context cancelled before verify: "
    results ← annotate ("da: verify call for " <> submission_id <> ": ") (
        view w (record {
          contract = p.contract;
          method = "isDataAvailable";
          args = word (w.hex_to_hash submission_id) ∷ [];
        }))
    lift (verify_result results)

  -- `json.Marshal` of an event
  module _ (marshal : AuditEvent → Result Bytes) where
    serialized : Result Bytes → Result Bytes
    serialized (ok payload) = ok payload
    serialized (err _) = err (wrap "da: serialization failed: " (sentinel serialize_failed))

    pub serialize_event : AuditEvent → Result Bytes
    unfolding serialized
    serialize_event event = serialized (marshal event)

    pub publish : Publisher → AuditEvent → Io String
    unfolding serialize_event
    publish p event = do
      c ← ctx_err w
      raise_some c "da: context cancelled before publish: "
      payload ←
          annotate ("da: serialize event " <> event_type_text event.type <> ": ")
            (lift (serialize_event event))
      annotate ("da: publish event " <> event_type_text event.type <> ": ")
          (publish_with_retry p payload)
