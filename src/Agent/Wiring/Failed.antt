-- ===== src/Agent/Wiring/Failed.antt =====
-- What a task that failed has left on the topic of the results.
use agent_inference_ethden.Base.{ℕ, ◌≡◌, ◌⊎◌, String, Bytes, ok, List, ◌∷◌}
use agent_inference_ethden.World.{publications}
use agent_inference_ethden.Hcs.{TaskAssignment, TaskResult, Sender}
use agent_inference_ethden.Hcs.Laws.{result_envelope}
use agent_inference_ethden.Agent.{Agent}
use agent_inference_ethden.Agent.Wiring.{Outside, Parts, Kept}

abbrev pub sender_of : Kept → Sender
sender_of s = record { history = s.broker_state.history; seq_num = s.seq_num }

abbrev pub messages : Kept → List (String × Bytes)
messages s = publications s.broker_state.history

module _ (o : Outside) (p : Parts) (agent_id : String) (task : TaskAssignment) where
  -- Nothing was handed to the transport between two states, or one envelope whose payload is a
  -- completed result for the task.
  abbrev pub AtMostCompleted : Kept → Kept → Type 0
  AtMostCompleted s t =
      (messages t ≡ messages s)
      ⊎ ((answer : TaskResult) × (n : ℕ) × (at : ℕ) × (payload : Bytes) × (message : Bytes)
          × (answer.task_id ≡ task.task_id)
          × (answer.status ≡ "completed")
          × (o.hcs_codec.marshal_result answer ≡ ok payload)
          × (o.hcs_codec.marshal_envelope (result_envelope p.handler answer n at payload)
              ≡ ok message)
          × (messages t ≡ (p.handler.result_topic_id, message) ∷ messages s))
