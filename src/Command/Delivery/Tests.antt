-- ===== src/Command/Delivery/Tests.antt =====
-- A message on its way to the main loop, and a task that the fallback has no part in.
use agent_inference_ethden.Base.{◌≡◌, refl, [], ◌∷◌, ◌++◌, arith}
use agent_inference_ethden.Hcs.{accepted}
use agent_inference_ethden.Hcs.Tests.{cfg, task, task_codec}
use agent_inference_ethden.Hcs.Transport.Tests.{transport}
use agent_inference_ethden.Hcs.Transport.Feed as Feed
use agent_inference_ethden.Hcs.Transport.Feed.Tests as FeedTests
use agent_inference_ethden.Hcs.Subscription as Handler
use agent_inference_ethden.Command.{live, fallback}
use agent_inference_ethden.Command.Delivery.{
  Link, new_link, feeds, passes, works, Steps, no_step, and_step,
}
use agent_inference_ethden.Command.Delivery.Laws
use agent_inference_ethden.Command.Delivery.Silent

abbrev called : Link
called = record new_link { feed = FeedTests.called }

abbrev delivered : Link
delivered = record called { feed = FeedTests.delivered }

abbrev passed : Link
passed = record {
  feed = record delivered.feed { messages = []; taken = delivered.feed.taken ++ (7 ∷ []) ∷ [] };
  handler = record delivered.handler {
    received = delivered.handler.received ++ (7 ∷ []) ∷ [];
    mode = Handler.mode_of (accepted task_codec cfg (7 ∷ []));
  };
}

steps : Steps (live transport) task_codec cfg new_link passed
unfolding new_link Feed.new_feed Handler.new_handler
steps =
    and_step
      (and_step
        (and_step (no_step new_link) (
          feeds new_link FeedTests.called (Feed.calls_back Feed.new_feed (7 ∷ []) refl refl) refl
            refl))
        (feeds called FeedTests.delivered
          (Feed.sends FeedTests.called (7 ∷ []) refl (λ e. ground arith) (omega arith)) refl refl))
      (passes delivered (7 ∷ []) [] refl refl)

reached-IsDelivered_example : Laws.IsDelivered task_codec cfg transport passed
reached-IsDelivered_example = Laws.reached-IsDelivered task_codec cfg transport steps

abbrev handed : Link
handed = record new_link {
  handler = record new_link.handler {
    tasks = new_link.handler.tasks ++ task ∷ [];
    handed = new_link.handler.handed ++ task ∷ [];
    queued = new_link.handler.queued ++ task ∷ [];
  };
}

hands : Steps fallback task_codec cfg new_link handed
unfolding new_link Feed.new_feed Handler.new_handler
hands = and_step (no_step new_link) (
    works new_link handed.handler (Handler.hands new_link.handler task (omega arith)) refl refl
      (λ r e. ground (arith, e)))

fallback-handed_example : handed.handler.handed ≡ handed.handler.taken ++ handed.handler.tasks
fallback-handed_example = Silent.fallback-handed task_codec cfg hands
