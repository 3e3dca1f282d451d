-- ===== src/Command/Delivery/Silent.antt =====
-- The fallback transport gives the main loop no task, over every order of the steps.
use agent_inference_ethden.Base.{
  ◌≡◌, ◌≢◌, refl, ◌∙◌, ap, true, List, [], ◌∷◌, ◌++◌, length, length-append, arith,
}
use agent_inference_ethden.Hcs.{HandlerConfig, TaskAssignment, Codec}
use agent_inference_ethden.Hcs.Transport.Feed as Feed
use agent_inference_ethden.Hcs.Subscription as Handler
use agent_inference_ethden.Hcs.Subscription.{Subscription, sending}
use agent_inference_ethden.Hcs.Subscription.Laws as HandlerLaws
use agent_inference_ethden.Hcs.Subscription.Laws.{Merge, nothing, from_left, from_right}
use agent_inference_ethden.Command.{fallback}
use agent_inference_ethden.Command.Delivery.{
  Link, new_link, Step, feeds, passes, works, cancels, Steps, no_step, and_step,
}
use agent_inference_ethden.Command.Delivery.Laws.{queued}

longer : {A : Type 0} (l : List A) (a : A) → l ++ a ∷ [] ≢ l
longer l a e = omega (arith, length-append l (a ∷ []), ap (λ x. length x) e)

Merge-right : {A : Type 0} {xs ys zs : List A} → Merge xs ys zs → xs ≡ [] → ys ≡ zs
Merge-right nothing e = refl
Merge-right (from_left {xs} a m) e = ground (arith, length-append xs (a ∷ []), ap (λ x. length x) e)
Merge-right (from_right a m) e = ap (λ l. l ++ a ∷ []) (Merge-right m e)

module _ (codec : Codec) (cfg : HandlerConfig) where
  -- The channel of the fallback has never had a message, and the subscription has no task.
  record IsSilent (s : Link) : Type 0 where
    handler : HandlerLaws.IsOrderly codec cfg s.handler
    empty : s.feed.messages ≡ []
    received : s.handler.received ≡ []
    forwarded : s.handler.forwarded ≡ []
    idle : (task : TaskAssignment) → s.handler.mode ≢ sending task

  HandlerStep-idle :
      {r s : Subscription}
      → Handler.Step codec cfg r s
      → s.received ≡ r.received
      → ((task : TaskAssignment) → r.mode ≢ sending task)
      → (s.forwarded ≡ r.forwarded) × ((task : TaskAssignment) → s.mode ≢ sending task)
  HandlerStep-idle (Handler.arrives r m q) e idle = absurd (longer r.received m e)
  HandlerStep-idle (Handler.sends r task m q) e idle = absurd (idle task m)
  HandlerStep-idle (Handler.gives_up r task f m q) e idle = absurd (idle task m)
  HandlerStep-idle (Handler.hands r task q) e idle = (refl, idle)
  HandlerStep-idle (Handler.takes r task rest q) e idle = (refl, idle)
  HandlerStep-idle (Handler.cancels r f q) e idle = (refl, idle)
  HandlerStep-idle (Handler.stops r f m q) e idle = (refl, λ task p. ground (arith, p))
  HandlerStep-idle (Handler.fails r m) e idle = (refl, λ task p. ground (arith, p))
  HandlerStep-idle (Handler.closes r m) e idle = (refl, λ task p. ground (arith, p))

  Step-IsSilent : {r s : Link} → Step fallback codec cfg r s → IsSilent r → IsSilent s
  Step-IsSilent (feeds s f x q e) i = absurd x
  Step-IsSilent (passes s m rest q r) i = ground (arith, i.empty)
  Step-IsSilent (works s u x q w c) i =
      let (same, idle) = HandlerStep-idle x q i.idle in
      record {
        handler = HandlerLaws.Step-IsOrderly codec cfg x i.handler;
        empty = i.empty;
        received = q ∙ i.received;
        forwarded = same ∙ i.forwarded;
        idle = idle;
      }
  Step-IsSilent (cancels s e n) i = record {
    handler = HandlerLaws.Step-IsOrderly codec cfg (Handler.cancels s.handler e n) i.handler;
    empty = i.empty;
    received = i.received;
    forwarded = i.forwarded;
    idle = i.idle;
  }

  new_link-IsSilent : IsSilent new_link
  unfolding new_link Feed.new_feed Handler.new_handler
  new_link-IsSilent = record {
    handler = HandlerLaws.new_handler-IsOrderly codec cfg true;
    empty = refl;
    received = refl;
    forwarded = refl;
    idle = λ task p. ground (arith, p);
  }

  Steps-IsSilent : {r s : Link} → Steps fallback codec cfg r s → IsSilent r → IsSilent s
  Steps-IsSilent (no_step s) i = i
  Steps-IsSilent (and_step before step) i = Step-IsSilent step (Steps-IsSilent before i)

  -- With the fallback transport, in every order of the steps, what the main loop took, with what is
  -- still in the task channel behind it, is what `HandleTask` was handed, in that order: the network
  -- gives the agent no task.
  pub fallback-handed :
      {s : Link}
      → Steps fallback codec cfg new_link s
      → s.handler.handed ≡ s.handler.taken ++ s.handler.tasks
  fallback-handed {s} steps =
      let i = Steps-IsSilent steps new_link-IsSilent in
      Merge-right (queued codec cfg s.handler i.handler) i.forwarded
