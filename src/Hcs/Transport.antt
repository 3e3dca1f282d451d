-- ===== src/Hcs/Transport.antt =====
-- internal/hcs/transport.go: the transport of Hedera. The Hiero SDK and package context are the
-- parameter `Hiero`, whose answers are functions of what the transport has done so far: for a
-- publication the journal of the transport, for a subscription the journal of its goroutine. The
-- calls of the SDK back into a subscription are in Hcs/Transport/Feed.
mod Types
pub mod Laws
pub mod Loop
pub mod Reports
pub mod Feed
pub mod Tests
unfoldable pub use Types.{new_transport}
pub use Types.{HcsTransportConfig, HcsTransport}
use agent_inference_ethden.Base.{
  ℕ, zero, suc, ◌+◌, ◌-◌, String, ◌<>◌, Option, none, some, Bool, true, false, List, [], ◌∷◌, Bytes,
  Error, new, wrap, Result, ok, err, Exec, annotate, raise_some, ◌>>=◌, ◌>>◌, pure, length, ltb,
  if◌then◌else◌,
}
use agent_inference_ethden.Base.Int.{ℤ, pos, negsuc, is_nonpos, pos_part, sub_ℕ}
use agent_inference_ethden.Base.Decimal.{decimal}

-- One thing that the transport did. A topic id is a number; a message goes with its topic.
pub data Act : Type 0 where
  checked clock_read : Act
  frozen executed : ℕ → Bytes → Act
  receipt_read : ℕ → Act
  subscribed : ℕ → ℤ → Act
  unsubscribed : Act
  waited : ℕ → Act
  reported : Error → Act
  errors_closed messages_closed : Act

-- The newest first.
abbrev pub Journal : Type 0
Journal = List Act

-- What is not under the transport's control. `ends` says whether the context of a subscription
-- that is up ever ends, and `taken` how many errors the reader of the channel has taken so far.
pub record Hiero : Type 0 where
  pub topic_id_from_string : String → Result ℕ
  pub ctx_err : Journal → Option Error
  pub now : Journal → ℕ
  pub wait : Journal → ℕ → Option Error
  pub freeze : Journal → ℕ → Bytes → Option Error
  pub execute : Journal → ℕ → Bytes → Result ℕ
  pub get_receipt : Journal → ℕ → Option Error
  pub subscribe : Journal → ℕ → ℤ → Option Error
  pub ends : Journal → Bool
  pub taken : Journal → ℕ

-- The errors that the subscription has put into the channel, the newest first.
abbrev pub reports : Journal → List Error
reports [] = []
reports (reported e ∷ j) = e ∷ reports j
reports (_ ∷ j) = reports j

module _ (o : Hiero) where
  abbrev check : Exec Journal (Option Error)
  check j = (ok (o.ctx_err j), checked ∷ j)

  abbrev freeze : ℕ → Bytes → Exec Journal (Option Error)
  freeze topic message j = (ok (o.freeze j topic message), frozen topic message ∷ j)

  abbrev execute : ℕ → Bytes → Exec Journal ℕ
  execute topic message j = (o.execute j topic message, executed topic message ∷ j)

  abbrev get_receipt : ℕ → Exec Journal (Option Error)
  get_receipt response j = (ok (o.get_receipt j response), receipt_read response ∷ j)

  -- `Publish`
  unfoldable pub publish : String → Bytes → Exec Journal Unit
  publish topic_id message = do
    let to_topic = "hcs transport: publish to " <> topic_id
    ended ← check
    raise_some ended (to_topic <> ": ")
    tid ←
        annotate ("hcs transport: parse topic " <> topic_id <> ": ")
          (λ j. (o.topic_id_from_string topic_id, j))
    unfrozen ← freeze tid message
    raise_some unfrozen (to_topic <> ": freeze: ")
    response ← annotate (to_topic <> ": execute: ") (execute tid message)
    unconfirmed ← get_receipt response
    raise_some unconfirmed (to_topic <> ": receipt: ")

-- How `subscribeOnce` stands: it failed, it returned nil, or it waits for the end of a context that
-- never ends.
pub data Attempt : Type 0 where
  failed : Error → Attempt
  ended listening : Attempt

-- How the goroutine of a subscription stands for good: behind its return, or inside
-- `subscribeOnce`.
pub data Phase : Type 0 where
  returned up : Phase

-- Thirty seconds.
abbrev lookback : ℕ
lookback = 30_000_000_000

module _ (o : Hiero) where
  abbrev await : Bool → Journal → Attempt × Journal
  await true j = (ended, unsubscribed ∷ j)
  await false j = (listening, j)

  abbrev attempted : Option Error → Journal → Attempt × Journal
  attempted none j = await (o.ends j) j
  attempted (some e) j = (failed (wrap "start subscription: " e), j)

  -- `subscribeOnce`
  pub subscribe_once : ℕ → Journal → Attempt × Journal
  subscribe_once tid j =
      let j' = clock_read ∷ j in
      let start = sub_ℕ (o.now j) lookback in
      attempted (o.subscribe j' tid start) (subscribed tid start ∷ j')

module _ (o : Hiero) (t : HcsTransport) where
  -- `select { case errCh <- e: default: }`
  pub report : Error → Journal → Journal
  report e j = if ltb (length (reports j) - o.taken j) t.message_buffer then reported e ∷ j else j

  -- The deferred calls, the last one first.
  abbrev pub close : Journal → Phase × Journal
  close j = (returned, messages_closed ∷ errors_closed ∷ j)

  abbrev pub attempt_error : String → ℕ → Error → Error
  attempt_error topic reconnects =
      wrap
        ("hcs transport: subscribe to " <> topic <> " attempt " <> decimal (reconnects + 1) <> ": ")

  abbrev pub exhausted_error : String → Error
  exhausted_error topic = new (
      "hcs transport: subscribe to "
      <> topic
      <> ": exhausted "
      <> decimal (t.max_reconnects + 1)
      <> " reconnect attempts")

  abbrev unless_ended : Option Error → (Journal → Phase × Journal) → Journal → Phase × Journal
  unless_ended none rest j = rest j
  unless_ended (some _) rest j = close j

  -- The report of a failed attempt, and the wait behind it.
  pub pause : Error → (Journal → Phase × Journal) → Journal → Phase × Journal
  pause e rest j =
      let j' = report e j in
      unless_ended (o.wait j' t.reconnect_delay) rest (waited t.reconnect_delay ∷ j')

  abbrev after_attempt :
      (Error → Error) → (Journal → Phase × Journal) → Attempt × Journal → Phase × Journal
  after_attempt annotated rest (listening, j) = (up, j)
  after_attempt annotated rest (ended, j) = close j
  after_attempt annotated rest (failed e, j) =
      unless_ended (o.ctx_err j) (pause (annotated e) rest) (checked ∷ j)

  -- The loop of `runSubscription`, with the rounds that are left.
  pub reconnect_loop : String → ℕ → ℕ → ℕ → Journal → Phase × Journal
  reconnect_loop topic tid zero reconnects j = close (report (exhausted_error topic) j)
  reconnect_loop topic tid (suc left) reconnects j =
      let rest = reconnect_loop topic tid left (suc reconnects) in
      unless_ended (o.ctx_err j)
        (λ j. after_attempt (attempt_error topic reconnects) rest (subscribe_once o tid j))
        (checked ∷ j)

  pub run_subscription : String → ℕ → Journal → Phase × Journal
  run_subscription topic tid = reconnect_loop topic tid (suc t.max_reconnects) 0

  abbrev subscribe_to : String → Result ℕ → Phase × Journal
  subscribe_to topic (err e) = (
    returned,
    errors_closed
        ∷ messages_closed
        ∷ reported (wrap ("hcs transport: parse topic " <> topic <> ": ") e)
        ∷ [],
  )
  subscribe_to topic (ok tid) = run_subscription topic tid []

  -- `Subscribe`, up to where its goroutine stands for good.
  pub subscribe : String → Phase × Journal
  subscribe topic = subscribe_to topic (o.topic_id_from_string topic)
