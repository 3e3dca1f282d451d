-- ===== src/Command/Delivery.antt =====
-- How a task gets from the network to the main loop: `StartSubscription` of internal/hcs/handler.go
-- reads the channel that `Subscribe` of the transport of cmd/agent-inference/main.go returned. The
-- channel of the live transport is Hcs/Transport/Feed; `Subscribe` of the fallback makes a channel
-- that nothing writes to or closes.
pub mod Laws
pub mod Silent
mod Tests
use agent_inference_ethden.Base.{true, false, ◌≡◌, some, none, Bytes, List, [], ◌∷◌, ◌++◌, Error}
use agent_inference_ethden.Hcs.{HandlerConfig, Codec, accepted}
use agent_inference_ethden.Hcs.Transport.Feed.{
  Feed, closed, new_feed, receive, end_context, Step as FeedStep,
}
use agent_inference_ethden.Hcs.Subscription.{
  Subscription, receiving, returned, mode_of, new_handler, Step as HandlerStep,
}
use agent_inference_ethden.Command.{Transport, live, fallback}

-- What the transport does to its channel on its own.
abbrev pub Feeds : Transport → Feed → Feed → Type 0
Feeds (live t) r s = FeedStep t r s
Feeds fallback r s = ⊥

-- The channel, and the handler that reads it.
pub record Link : Type 0 where
  pub feed : Feed
  pub handler : Subscription

unfoldable pub new_link : Link
new_link = record { feed = new_feed; handler = new_handler true }

module _ (transport : Transport) (codec : Codec) (cfg : HandlerConfig) where
  pub data Step : Link → Link → Type 0 where
    -- the transport, and the callback of the SDK
    feeds :
        (s : Link) (f : Feed)
        → Feeds transport s.feed f
        → f.taken ≡ s.feed.taken
        → f.ended ≡ s.feed.ended
        → Step s (record s { feed = f })
    -- `case data, ok := <-msgCh`, with a message
    passes :
        (s : Link) (message : Bytes) (rest : List Bytes)
        → s.feed.messages ≡ message ∷ rest
        → s.handler.mode ≡ receiving
        → Step s (record {
          feed = receive s.feed message rest;
          handler = record s.handler {
            received = s.handler.received ++ message ∷ [];
            mode = mode_of (accepted codec cfg message);
          };
        })
    -- what the handler and the main loop do without the channel; the subscription returns nil when
    -- the channel is closed and empty
    works :
        (s : Link) (u : Subscription)
        → HandlerStep codec cfg s.handler u
        → u.received ≡ s.handler.received
        → u.ended ≡ s.handler.ended
        → (s.handler.mode ≡ receiving
            → u.mode ≡ returned none
            → (s.feed.stage ≡ closed) × (s.feed.messages ≡ []))
        → Step s (record s { handler = u })
    -- the context, which both have, ends
    cancels :
        (s : Link) (e : Error)
        → s.handler.ended ≡ none
        → Step s
            (record { feed = end_context s.feed; handler = record s.handler { ended = some e } })

  pub data Steps : Link → Link → Type 0 where
    no_step : (s : Link) → Steps s s
    and_step : {r s t : Link} → Steps r s → Step s t → Steps r t
