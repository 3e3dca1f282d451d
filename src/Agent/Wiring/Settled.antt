-- ===== src/Agent/Wiring/Settled.antt =====
-- What a task that went well has left on the chain and on the topic of the results.
use agent_inference_ethden.Base.{ℕ, ◌≡◌, String, Bytes, to_bytes, ok, List, ◌∷◌}
use agent_inference_ethden.Base.Decimal.{decimal}
use agent_inference_ethden.Base.Encoding.{hex_encode}
use agent_inference_ethden.World.{History, Effect, publications}
use agent_inference_ethden.World.Past.{Past}
use agent_inference_ethden.Hcs.{TaskAssignment, TaskResult}
use agent_inference_ethden.Hcs.Laws.{result_envelope}
use agent_inference_ethden.World.Keeps.{Keeps}
use agent_inference_ethden.Inft.Laws.{Minted}
use agent_inference_ethden.Storage.Laws.{Anchored}
use agent_inference_ethden.Compute.{JobResult}
use agent_inference_ethden.Agent.{Agent, mint_request}
use agent_inference_ethden.Agent.Laws.{minted, report}
use agent_inference_ethden.Agent.Wiring.{Outside, Parts, Kept, wired}

abbrev Any : Effect → Type 0
Any e = Unit

module _ (o : Outside) (p : Parts) (agent_id : String) (task : TaskAssignment) where
  abbrev done : Kept → History
  done s = s.broker_state.history

  abbrev sent_messages : Kept → List (String × Bytes)
  sent_messages s = publications (done s)

  -- The trail of a task between two states of the clients.
  pub record IsSettled (s t : Kept) : Type 0 where
    pub job : String
    pub result : JobResult
    pub token : ℕ
    pub answer : TaskResult
    pub anchored_at : History
    pub minted_at : History
    pub anchored : Anchored o.world o.storage_codec p.client (to_bytes result.output) anchored_at
    pub minted :
        Minted o.world o.inft_codec p.minter
          (mint_request agent_id task job
            (hex_encode (o.storage_codec.sha256 (to_bytes result.output))))
          token
          minted_at
    pub anchored_first : Past anchored_at minted_at
    pub minted_first : Past minted_at (done t)
    pub of_task : (answer.task_id ≡ task.task_id) × (answer.status ≡ "completed")
    pub of_result :
        (answer.output ≡ result.output)
        × (answer.storage_content_id ≡ hex_encode (o.storage_codec.sha256 (to_bytes result.output)))
        × (answer.inft_token_id ≡ decimal token)
    pub number : ℕ
    pub at : ℕ
    pub payload : Bytes
    pub message : Bytes
    pub written : o.hcs_codec.marshal_result answer ≡ ok payload
    pub encoded :
        o.hcs_codec.marshal_envelope (result_envelope p.handler answer number at payload)
        ≡ ok message
    pub published : sent_messages t ≡ (p.handler.result_topic_id, message) ∷ sent_messages s

  module _ (s : Kept) (job : String) (result : JobResult) (content token_id : String) where
    abbrev before_report : Kept
    before_report = (report (wired o p) agent_id task s job result content token_id).1

    abbrev answer : TaskResult
    answer = (report (wired o p) agent_id task s job result content token_id).0

    abbrev minted_history : History
    minted_history = done (minted (wired o p) agent_id task s job result content)
