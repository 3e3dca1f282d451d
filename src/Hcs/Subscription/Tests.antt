-- ===== src/Hcs/Subscription/Tests.antt =====
-- The subscription along one sequence of steps.
use agent_inference_ethden.Base.{◌≡◌, refl, ap, true, [], ◌∷◌, ◌++◌, some, arith}
use agent_inference_ethden.Hcs.{accepted}
use agent_inference_ethden.Hcs.Tests.{cfg, task, task_codec, accepts}
use agent_inference_ethden.Hcs.Subscription.{
  Subscription, Mode, new_handler, returned, arrives, sends, takes, Step, Steps, no_step, and_step,
  mode_of,
}
use agent_inference_ethden.Hcs.Subscription.Laws
use agent_inference_ethden.Hcs.Subscription.Progress
use agent_inference_ethden.Hcs.Subscription.Laws.{IsOrderly, report_error}

abbrev first : Subscription
first = new_handler true

abbrev second : Subscription
second = record first {
  received = first.received ++ [] ∷ [];
  mode = mode_of (accepted task_codec cfg []);
}

abbrev third : Subscription
third = record second {
  tasks = second.tasks ++ task ∷ [];
  forwarded = second.forwarded ++ task ∷ [];
  queued = second.queued ++ task ∷ [];
  mode = Mode.receiving;
}

abbrev fourth : Subscription
fourth = record third { tasks = []; taken = third.taken ++ task ∷ [] }

steps : Steps task_codec cfg (new_handler true) fourth
unfolding new_handler
steps =
    and_step
      (and_step (and_step (no_step first) (arrives first [] refl))
        (sends second task (ap mode_of accepts) (omega arith)))
      (takes third task [] refl)

reachable-IsOrderly_example : IsOrderly task_codec cfg fourth
reachable-IsOrderly_example = Laws.reachable-IsOrderly task_codec cfg true steps

at_rest : first.mode ≡ Mode.receiving
unfolding new_handler
at_rest = refl

arrived-taken_example :
    (t : Subscription) × Steps task_codec cfg first t
    × (t.taken ≡ first.taken ++ first.tasks ++ task ∷ [])
    × (t.tasks ≡ [])
    × (t.mode ≡ Mode.receiving)
arrived-taken_example = Progress.arrived-taken task_codec cfg first [] task at_rest accepts

reported-final_example :
    (t : Subscription) × Step task_codec cfg first t
    × (t.mode ≡ returned (some report_error))
    × ((u : Subscription)
        → Steps task_codec cfg t u
        → (u.received ≡ first.received)
          × (u.forwarded ≡ first.forwarded)
          × (u.mode ≡ returned (some report_error)))
reported-final_example = Laws.reported-final task_codec cfg first at_rest
