-- ===== src/Command/Delivery/Laws.antt =====
-- What becomes of the messages that the SDK calls back with, over every order of the steps.
use mathlib.Core.List.{append_assoc}
use mathlib.Core.Path.{subst}
use agent_inference_ethden.Base.{
  ◌≤◌, ◌≡◌, ◌⊎◌, inl, inr, refl, sym, ◌∙◌, ap, true, false, [], ◌∷◌, ◌++◌, length, arith,
}
use agent_inference_ethden.Hcs.{HandlerConfig, Codec}
use agent_inference_ethden.Hcs.Transport.{HcsTransport}
use agent_inference_ethden.Hcs.Transport.Feed as Feed
use agent_inference_ethden.Hcs.Transport.Feed.Laws as FeedLaws
use agent_inference_ethden.Hcs.Transport.Feed.Laws.{holding}
use agent_inference_ethden.Hcs.Subscription as Handler
use agent_inference_ethden.Hcs.Subscription.{Subscription}
use agent_inference_ethden.Hcs.Subscription.Laws as HandlerLaws
use agent_inference_ethden.Hcs.Subscription.Laws.{
  Merge, IsEnded, assignments, assignments-append, in_flight,
}
use agent_inference_ethden.Command.{live}
use agent_inference_ethden.Command.Delivery.{
  Link, new_link, Step, feeds, passes, works, cancels, Steps, no_step, and_step,
}

module _ (codec : Codec) (cfg : HandlerConfig) where
  module _ (t : HcsTransport) where
    -- The handler has read what was taken from the channel, and sees the end of the context.
    record IsLinked (s : Link) : Type 0 where
      feed : FeedLaws.IsOrderly t s.feed
      handler : HandlerLaws.IsOrderly codec cfg s.handler
      read : s.handler.received ≡ s.feed.taken
      same : s.feed.ended ≡ true → IsEnded codec cfg s.handler

    Step-IsLinked : {r s : Link} → Step (live t) codec cfg r s → IsLinked r → IsLinked s
    Step-IsLinked (feeds s f x q e) i = record {
      feed = FeedLaws.Step-IsOrderly t x i.feed;
      handler = i.handler;
      read = i.read ∙ sym q;
      same = λ p. i.same (sym e ∙ p);
    }
    Step-IsLinked (passes s m rest q r) i = record {
      feed = FeedLaws.Step-IsOrderly t (Feed.takes s.feed m rest q) i.feed;
      handler = HandlerLaws.Step-IsOrderly codec cfg (Handler.arrives s.handler m r) i.handler;
      read = ap (λ l. l ++ m ∷ []) i.read;
      same = i.same;
    }
    Step-IsLinked (works s u x q w c) i = record {
      feed = i.feed;
      handler = HandlerLaws.Step-IsOrderly codec cfg x i.handler;
      read = q ∙ i.read;
      same = λ p. let (e, y) = i.same p in (e, w ∙ y);
    }
    Step-IsLinked (cancels s e n) i = record {
      feed = FeedLaws.Step-IsOrderly t (Feed.cancels s.feed) i.feed;
      handler = HandlerLaws.Step-IsOrderly codec cfg (Handler.cancels s.handler e n) i.handler;
      read = i.read;
      same = λ p. (e, refl);
    }

    new_link-IsLinked : IsLinked new_link
    unfolding new_link Feed.new_feed Handler.new_handler
    new_link-IsLinked = record {
      feed = FeedLaws.new_feed-IsOrderly t;
      handler = HandlerLaws.new_handler-IsOrderly codec cfg true;
      read = refl;
      same = λ p. ground (arith, p);
    }

    Steps-IsLinked : {r s : Link} → Steps (live t) codec cfg r s → IsLinked r → IsLinked s
    Steps-IsLinked (no_step s) i = i
    Steps-IsLinked (and_step before step) i = Step-IsLinked step (Steps-IsLinked before i)

  -- Where the messages and the tasks are, from the callback of the SDK to the main loop.
  pub record IsDelivered (t : HcsTransport) (s : Link) : Type 0 where
    pub messages_bounded : length s.feed.messages ≤ t.message_buffer
    pub tasks_bounded : length s.handler.tasks ≤ Handler.capacity
    pub merged : Merge s.handler.forwarded s.handler.handed (s.handler.taken ++ s.handler.tasks)
    pub safe : IsEnded codec cfg s.handler ⊎ (s.feed.panicked ≡ false)
    pub lossless :
        IsEnded codec cfg s.handler
        ⊎ (assignments codec cfg s.feed.called
            ≡ s.handler.forwarded
              ++ (in_flight s.handler.mode
                  ++ assignments codec cfg (s.feed.messages ++ holding s.feed.callback)))

  pub queued :
      (h : Subscription)
      → HandlerLaws.IsOrderly codec cfg h
      → Merge h.forwarded h.handed (h.taken ++ h.tasks)
  queued h i = subst (λ l. Merge h.forwarded h.handed l) i.fifo i.merged

  -- With a live transport, from a subscription that has come up, in every order of the steps of the
  -- SDK, the transport, the handler and the main loop: the message channel holds at most
  -- `messageBuffer` messages and the task channel at most 16 tasks; what the main loop took, with
  -- what is still in the task channel behind it, is an interleaving of what the subscription
  -- forwarded with what `HandleTask` was handed. Until the context ends, no send has panicked, and
  -- the tasks for this agent in the messages that the SDK called back with are, in order, those that
  -- the subscription has forwarded, the one that it is about to send, and those in the message
  -- channel and in a callback that has not ended.
  pub reached-IsDelivered :
      (t : HcsTransport) {s : Link} → Steps (live t) codec cfg new_link s → IsDelivered t s
  reached-IsDelivered t {s} steps =
      let i = Steps-IsLinked t steps (new_link-IsLinked t) in
      let left = assignments codec cfg (s.feed.messages ++ holding s.feed.callback) in
      record {
        messages_bounded = i.feed.bounded;
        tasks_bounded = i.handler.bounded;
        merged = queued s.handler i.handler;
        safe = elim i.feed.safe [ inl e ↦ inl (i.same e) | inr q ↦ inr q ];
        lossless = elim i.feed.lossless [
          | inl e ↦ inl (i.same e)
          | inr c ↦ elim i.handler.lossless [
            | inl e ↦ inl e
            | inr h ↦ inr (
                ap (assignments codec cfg) (
                  c
                  ∙ ap (λ l. l ++ holding s.feed.callback)
                      (i.feed.fifo ∙ ap (λ l. l ++ s.feed.messages) (sym i.read))
                  ∙ append_assoc s.handler.received s.feed.messages (holding s.feed.callback))
                ∙ assignments-append codec cfg s.handler.received
                    (s.feed.messages ++ holding s.feed.callback)
                ∙ ap (λ l. l ++ left) h
                ∙ append_assoc s.handler.forwarded (in_flight s.handler.mode) left)
          ]
        ];
      }
