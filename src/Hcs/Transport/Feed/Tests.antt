-- ===== src/Hcs/Transport/Feed/Tests.antt =====
-- The message channel along two sequences of steps.
use agent_inference_ethden.Base.{◌≡◌, refl, true, [], ◌∷◌, ◌++◌, arith}
use agent_inference_ethden.Hcs.Transport.Tests.{transport}
use agent_inference_ethden.Hcs.Transport.Feed.{
  Feed, idle, entering, up, new_feed, calls_back, sends, Steps, no_step, and_step,
}
use agent_inference_ethden.Hcs.Transport.Feed.Laws
use agent_inference_ethden.Hcs.Transport.Feed.Laws.{IsOrderly}

abbrev pub called : Feed
called = record new_feed { callback = entering (7 ∷ []); called = new_feed.called ++ (7 ∷ []) ∷ [] }

abbrev pub delivered : Feed
delivered = record called {
  callback = idle;
  messages = called.messages ++ (7 ∷ []) ∷ [];
  delivered = called.delivered ++ (7 ∷ []) ∷ [];
}

delivery : Steps transport new_feed delivered
unfolding new_feed
delivery =
    and_step (and_step (no_step new_feed) (calls_back new_feed (7 ∷ []) refl refl))
      (sends called (7 ∷ []) refl (λ e. ground arith) (omega arith))

still_up : called.stage ≡ up
unfolding new_feed
still_up = refl

panicked-reachable_example : (u : Feed) × Steps transport called u × (u.panicked ≡ true)
panicked-reachable_example = Laws.panicked-reachable transport called (7 ∷ []) still_up refl
