-- ===== src/Da/Keeps.antt =====
-- Frame lemmas of the publisher.
use agent_inference_ethden.Base.{ℕ, ◌≡◌, refl, zero, suc, Bytes, Error, Option, Result, arith}
use agent_inference_ethden.World.{World, History, Effect, sent, amount, make_transact_opts}
use agent_inference_ethden.World.Keeps.{Keeps}
use agent_inference_ethden.Da.{
  Publisher, AuditEvent, submission, submit_to_da, pause, attempt_loop, publish_with_retry, publish,
}

module _ (w : World) (p : Publisher) (Holds : History → Type 0) (Allowed : Effect → Type 0)
    (k : Keeps Holds Allowed)
    (submits : (payload : Bytes) → Allowed (sent (submission w p payload))) where
  submit_to_da-keeps :
      (payload : Bytes) (h : History) → Holds h → Holds (submit_to_da w p payload h).1
  unfolding submit_to_da make_transact_opts submission
  submit_to_da-keeps payload h t = grind (arith, k.grow, k.mines, submits payload)

  pause-keeps :
      (attempt : ℕ) (h : History) → Holds h → Holds (pause w p.cfg.max_retries attempt h).1
  unfolding pause
  pause-keeps attempt h t = grind (arith, k.grow, k.waits)

  attempt_loop-keeps :
      (payload : Bytes) (left attempt : ℕ) (last : Option Error) (h : History)
      → Holds h
      → Holds (attempt_loop w p payload left attempt last h).1
  unfolding attempt_loop
  attempt_loop-keeps payload zero attempt last h t = t
  attempt_loop-keeps payload (suc left) attempt last h t = grind (
    arith,
    k.grow,
    k.checks,
    submit_to_da-keeps payload,
    pause-keeps,
    attempt_loop-keeps payload left,
  )

  pub publish-keeps :
      (marshal : AuditEvent → Result Bytes) (event : AuditEvent) (h : History)
      → Holds h
      → Holds (publish w marshal p event h).1
  unfolding publish publish_with_retry
  publish-keeps marshal event h t = grind (arith, k.grow, k.checks, attempt_loop-keeps)

-- The transaction of `submitToDA` carries no amount.
pub submission-amount :
    (w : World) (p : Publisher) (payload : Bytes) → amount (sent (submission w p payload)) ≡ 0
unfolding submission
submission-amount w p payload = refl
