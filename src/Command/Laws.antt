-- ===== src/Command/Laws.antt =====
-- What `main` has built when it runs the agent, and what the transport that it built confirms.
use agent_inference_ethden.Base.{ℕ, ◌≡◌, inl, inr, String, none, [], ◌∷◌, Bytes, ok, arith}
use agent_inference_ethden.World.{History, publications}
use agent_inference_ethden.Hcs.{TaskAssignment, TaskResult}
use agent_inference_ethden.Hcs.Laws.{result_envelope}
use agent_inference_ethden.Hcs.Sent.{publish_result-IsSent}
use agent_inference_ethden.Hcs.Transport.{HcsTransport, Hiero, executed}
use agent_inference_ethden.Hcs.Transport.Laws.{publish-Published, unsubmitted, submitted, prepared}
use agent_inference_ethden.Agent.{Agent, process_task}
use agent_inference_ethden.Agent.Wiring.{Outside, Parts, Kept, wired}
use agent_inference_ethden.Agent.Wiring.Laws.{process_task-reports, wired-IsSilent}
use agent_inference_ethden.Command.{live, publish, with_transport}

-- The network took the message on the topic, and gave a receipt for it.
pub record IsConfirmed (o : Hiero) (topic : String) (message : Bytes) : Type 0 where
  pub tid : ℕ
  pub response : ℕ
  pub parsed : o.topic_id_from_string topic ≡ ok tid
  pub taken : o.execute (prepared o topic message tid []) tid message ≡ ok response
  pub receipt :
      o.get_receipt (executed tid message ∷ prepared o topic message tid []) response ≡ none

module _ (t : HcsTransport) (hiero : History → Hiero) where
  publish-IsConfirmed :
      (h : History) (topic : String) (message : Bytes)
      → publish (live t) (hiero h) topic message ≡ none
      → IsConfirmed (hiero h) topic message
  unfolding publish
  publish-IsConfirmed h topic message e = elim (publish-Published (hiero h) topic message []) [
    | unsubmitted f r k ↦ ground arith
    | submitted tid p k (inl (f, r)) ↦ ground arith
    | submitted tid p k (inr (response, x, q, r)) ↦ record {
      tid = tid;
      response = response;
      parsed = p;
      taken = x;
      receipt = q;
    }
  ]

-- The outside with a live transport of Hedera.
abbrev pub linked : HcsTransport → (History → Hiero) → Outside → Outside
linked t hiero o = record o { world = with_transport (live t) hiero o.world }

-- The agent that `main` wires, with a live transport: a task that is processed without an error has a
-- completed result for it, and the network of Hedera took an envelope with this result as its payload
-- on the result topic and gave a receipt for it.
pub process_task-IsConfirmed :
    (t : HcsTransport) (hiero : History → Hiero) (o : Outside) (p : Parts) (agent_id : String)
    (task : TaskAssignment) (a : Agent Kept)
    → (process_task (wired (linked t hiero o) p) agent_id task a).0 ≡ ok tt
    → (answer : TaskResult) × (h : History) × (n : ℕ) × (at : ℕ) × (payload : Bytes)
      × (message : Bytes) × (answer.task_id ≡ task.task_id)
      × (answer.status ≡ "completed")
      × (o.hcs_codec.marshal_result answer ≡ ok payload)
      × (o.hcs_codec.marshal_envelope (result_envelope p.handler answer n at payload) ≡ ok message)
      × IsConfirmed (hiero h) p.handler.result_topic_id message
unfolding with_transport
process_task-IsConfirmed t hiero o p agent_id task a e =
    let v = linked t hiero o in
    let (answer, s, id, status, kept, sent, ended) =
      process_task-reports (wired v p) (λ (s : Kept). publications s.broker_state.history)
        (wired-IsSilent v p) agent_id task a e in
    let i =
      publish_result-IsSent v.world o.hcs_codec p.handler answer
        (record { history = s.broker_state.history; seq_num = s.seq_num }) sent in
    (
      answer,
      i.before,
      i.number,
      i.at,
      i.payload,
      i.message,
      id,
      status,
      i.encoded,
      i.written,
      publish-IsConfirmed t hiero i.before p.handler.result_topic_id i.message i.taken,
    )
