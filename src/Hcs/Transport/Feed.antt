-- ===== src/Hcs/Transport/Feed.antt =====
-- The message channel of one subscription of internal/hcs/transport.go: the callback that
-- `subscribeOnce` gives to the SDK, the reader of the channel, and the end of the goroutine, as
-- steps that the runtime may take in any order. The SDK calls back for one message at a time while
-- the subscription is up, and `Unsubscribe` does not wait for a call that has begun.
pub mod Laws
pub mod Tests
use agent_inference_ethden.Base.{
  ℕ, Bool, true, false, ◌<◌, ◌≤◌, ◌≡◌, ◌≢◌, Bytes, List, [], ◌∷◌, ◌++◌, length,
}
use agent_inference_ethden.Hcs.Transport.Types.{HcsTransport}

-- Where `runSubscription` stands: in the wait of `subscribeOnce`, behind `Unsubscribe`, or behind
-- its deferred calls.
pub data Stage : Type 0 where
  up unsubscribed closed : Stage

-- Where the callback stands: not in a call, before its select, or blocked there. A select that is
-- blocked is settled by the first event that makes one of its cases ready: by a receive from the
-- channel or by the end of the context.
pub data Callback : Type 0 where
  idle : Callback
  entering blocked : Bytes → Callback

-- The lists that nothing in the code keeps, the oldest first: the messages that the SDK called back
-- with, those put into the channel, and those that the reader took out.
pub record Feed : Type 0 where
  pub stage : Stage
  pub ended : Bool
  pub callback : Callback
  pub messages : List Bytes
  pub called : List Bytes
  pub delivered : List Bytes
  pub taken : List Bytes
  pub panicked : Bool

-- The subscription has just come up, with a channel that is empty.
unfoldable pub new_feed : Feed
new_feed = record {
  stage = up;
  ended = false;
  callback = idle;
  messages = [];
  called = [];
  delivered = [];
  taken = [];
  panicked = false;
}

-- What a receive puts into the place that it frees.
abbrev pub freed : Callback → List Bytes
freed (blocked message) = message ∷ []
freed _ = []

-- A blocked callback is settled.
abbrev pub settled : Callback → Callback
settled (blocked _) = idle
settled (entering message) = entering message
settled idle = idle

-- A receive of the oldest message, with what comes behind it.
abbrev pub receive : Feed → Bytes → List Bytes → Feed
receive s message rest = record s {
  messages = rest ++ freed s.callback;
  delivered = s.delivered ++ freed s.callback;
  taken = s.taken ++ message ∷ [];
  callback = settled s.callback;
}

-- The context ends: a blocked callback takes `case <-ctx.Done()`.
abbrev pub end_context : Feed → Feed
end_context s = record s { ended = true; callback = settled s.callback }

module _ (t : HcsTransport) where
  pub data Step : Feed → Feed → Type 0 where
    -- the SDK calls back, and the contents are copied
    calls_back :
        (s : Feed) (message : Bytes)
        → s.stage ≡ up
        → s.callback ≡ idle
        → Step s (record s { callback = entering message; called = s.called ++ message ∷ [] })
    -- `case msgCh <- data`, with room
    sends :
        (s : Feed) (message : Bytes)
        → s.callback ≡ entering message
        → s.stage ≢ closed
        → length s.messages < t.message_buffer
        → Step s (record s {
          callback = idle;
          messages = s.messages ++ message ∷ [];
          delivered = s.delivered ++ message ∷ [];
        })
    -- the same case on the closed channel
    panics :
        (s : Feed) (message : Bytes)
        → s.callback ≡ entering message
        → s.stage ≡ closed
        → Step s (record s { panicked = true })
    -- `case <-ctx.Done()`
    gives_up :
        (s : Feed) (message : Bytes)
        → s.callback ≡ entering message
        → s.ended ≡ true
        → Step s (record s { callback = idle })
    -- neither case is ready
    blocks :
        (s : Feed) (message : Bytes)
        → s.callback ≡ entering message
        → s.stage ≢ closed
        → t.message_buffer ≤ length s.messages
        → s.ended ≡ false
        → Step s (record s { callback = blocked message })
    -- the reader takes the oldest message, also from a closed channel
    takes :
        (s : Feed) (message : Bytes) (rest : List Bytes)
        → s.messages ≡ message ∷ rest
        → Step s (receive s message rest)
    cancels : (s : Feed) → Step s (end_context s)
    -- `<-ctx.Done()` and `handle.Unsubscribe()`
    unsubscribes :
        (s : Feed) → s.stage ≡ up → s.ended ≡ true → Step s (record s { stage = unsubscribed })
    -- `close(msgCh)`
    closes : (s : Feed) → s.stage ≡ unsubscribed → Step s (record s { stage = closed })

  pub data Steps : Feed → Feed → Type 0 where
    no_step : (s : Feed) → Steps s s
    and_step : {r s t : Feed} → Steps r s → Step s t → Steps r t
