-- ===== src/Compute/Jobs/Calls/Tests.antt =====
-- A broker that has taken a job and listed its models.
use agent_inference_ethden.Base.{◌≡◌, refl, ap, ok, some, [], ◌∷◌, List}
use agent_inference_ethden.World.Sample.{sample_world}
use agent_inference_ethden.Compute.Types.{JobResult, completed}
use agent_inference_ethden.Compute.Sample.{codec, broker, request, fresh_state}
use agent_inference_ethden.Compute.Jobs.{new_broker, get_result}
use agent_inference_ethden.Compute.Jobs.Tests.{submitted}
use agent_inference_ethden.Compute.Jobs.Laws as JobLaws
use agent_inference_ethden.Compute.Jobs.Calls.{Call, submits, gets_result, lists, call, run_calls}
use agent_inference_ethden.Compute.Jobs.Calls.Laws
use agent_inference_ethden.Compute.Jobs.Calls.Sound.{IsSound}

abbrev calls : List Call
calls = submits request ∷ lists ∷ gets_result 2 "job1" ∷ []

run_calls-IsSound_new_example :
    IsSound sample_world codec
      (new_broker sample_world codec broker.cfg (some 3)).0
      (Laws.reached sample_world codec broker.cfg (some 3) calls)
run_calls-IsSound_new_example =
    Laws.run_calls-IsSound_new sample_world codec broker.cfg (some 3) calls

abbrev found : JobResult
found =
    (JobLaws.get_result-submit_job sample_world codec broker request fresh_state 0
      (submitted request []) refl).2

returned :
    (get_result sample_world codec
      (new_broker sample_world codec broker.cfg (some 3)).0
      0
      "job1"
      (Laws.reached sample_world codec broker.cfg (some 3) (submits request ∷ []))).0
    ≡ ok found
unfolding new_broker run_calls call
returned =
    ap (λ z. z.0)
      (JobLaws.get_result-submit_job sample_world codec broker request fresh_state 0
        (submitted request []) refl).5

get_result-IsOwn_example : (found.job_id ≡ "job1") × (found.status ≡ completed)
get_result-IsOwn_example =
    Laws.get_result-IsOwn sample_world codec broker.cfg (some 3) (submits request ∷ []) 0 "job1"
      returned
