-- ===== src/Compute/Jobs/Tests.antt =====
-- A job at concrete inputs.
use agent_inference_ethden.Base.{
  ◌≡◌, ◌⊎◌, refl, ok, err, wrap, sentinel, canceled, none, some, [], ◌∷◌,
}
use agent_inference_ethden.World.{World, History, Request, Response, requests}
use agent_inference_ethden.World.Sample.{sample_world}
use agent_inference_ethden.Compute.Types.{JobRequest, Session, State}
use agent_inference_ethden.Compute.Sample.{codec, broker, fresh_state, empty_session}
use agent_inference_ethden.Compute.Catalog.Tests.{resolved_endpoint, read_short}
use agent_inference_ethden.Compute.Jobs.{
  submit_job, call_provider, accept, find_result, api_error, authorization, do_with_auth_retry,
  after_answer,
}
use agent_inference_ethden.Compute.Jobs.Laws
use agent_inference_ethden.Compute.Jobs.Retry
use agent_inference_ethden.Compute.Jobs.Retry.{IsSecond}

pub submitted :
    (req : JobRequest) (h : History)
    → (submit_job sample_world codec broker req (record fresh_state { history = h })).0 ≡ ok "job1"
unfolding submit_job call_provider accept api_error authorization do_with_auth_retry after_answer
submitted req h = rw (resolved_endpoint, read_short)

-- A world in which the context has ended.
abbrev pub ended : World
ended = record sample_world { ctx_err = λ h. some (sentinel canceled) }

pub refused :
    (req : JobRequest) (s : State)
    → (submit_job ended codec broker req s).0
      ≡ err (wrap "compute: context cancelled before submit: " (sentinel canceled))
unfolding submit_job
refused req s = refl

nothing_found : find_result "job2" [] ≡ none
unfolding find_result
nothing_found = refl

abbrev refusing : World
refusing = record sample_world {
  http_do = λ h r. ok (record { status = 401; body = []; read_error = none });
}

abbrev after_job : State
after_job = record fresh_state {
  session = some (record empty_session { cached_provider = "0x5"; cached_token = "app-sk-" });
}

-- The fallback endpoint is asked with no token.
abbrev to_fallback : Request
to_fallback = record {
  method = "POST";
  url = "http://fallback/v1/proxy/chat/completions";
  content_type = some "application/json";
  authorization = none;
  body = [];
}

do_with_auth_retry-requests_example :
    let t = (do_with_auth_retry refusing codec broker to_fallback after_job).1 in
    (requests t.history ≡ to_fallback ∷ [])
    ⊎ ((session : Session) × (answer : Response) × (second : Request) × (after_job.session
          ≡ some session)
        × (refusing.http_do [] to_fallback ≡ ok answer)
        × (answer.status ≡ 401)
        × IsSecond refusing codec broker to_fallback session.cached_provider second
        × (requests t.history ≡ second ∷ to_fallback ∷ []))
do_with_auth_retry-requests_example =
    Retry.do_with_auth_retry-requests refusing codec broker to_fallback after_job
