-- ===== src/Da/Tests.antt =====
-- The publisher at concrete inputs.
use agent_inference_ethden.Base.{
  ◌≡◌, ◌⊎◌, refl, ok, err, wrap, String, Error, Bytes, [], ◌∷◌, Bool, true, All, ok-injective, sym,
  ◌∙◌, str_eq, if◌then◌else◌, Result, new,
}
use agent_inference_ethden.Base.Int.{pos}
use agent_inference_ethden.World.{
  World, make_transact_opts, View, Receipt, word, address, flag, ctx_check,
}
use agent_inference_ethden.World.Sample.{sample_world}
use agent_inference_ethden.Da.{
  Publisher, AuditEvent, task_received, publish, parse_data_submit_event, is_data_submit,
  find_data_root, root_text, serialized, attempt_loop, publish_with_retry, submit_to_da,
  serialize_event, verify,
}
use agent_inference_ethden.Da.Submit.{Submitted}
use agent_inference_ethden.Da.Laws
use agent_inference_ethden.Da.Events
use agent_inference_ethden.Da.Events.{IsComplete, id_text}
use agent_inference_ethden.Da.Answers
use agent_inference_ethden.Da.Answers.{IsDecoded}
use agent_inference_ethden.Abi.{is_event, count_indexed, decode, results_fit, is_of_type, is_of}
use agent_inference_ethden.Abi.Contracts.{da_data_submit}

abbrev pub publisher : Publisher
publisher = record {
  cfg = record {
    chain_rpc = "";
    chain_id = pos 16_602;
    da_contract_address = "0xE7";
    private_key = "";
    namespace = "inference-audit";
    max_retries = pos 2;
    endpoint = "";
  };
  contract = 9;
  key = 3;
}

abbrev event : AuditEvent
event = record {
  type = task_received;
  agent_id = "agent";
  task_id = "t1";
  job_id = "";
  input_hash = "";
  output_hash = "";
  storage_ref = "";
  inft_ref = "";
  details = [];
  timestamp = 0;
}

abbrev pub marshal : AuditEvent → Result Bytes
marshal e = ok (1 ∷ 2 ∷ [])

-- A world in which every transaction is refused.
abbrev down : World
down = record sample_world { transact = λ h tx. err (new "no funds") }

published : (publish sample_world marshal publisher event []).0 ≡ ok "0x4d"
unfolding publish serialize_event serialized publish_with_retry attempt_loop submit_to_da
    parse_data_submit_event find_data_root is_data_submit root_text make_transact_opts
published = refl

abbrev topic_text : String
topic_text = "da: publish event task_received: "

abbrev no_funds : Error
no_funds = wrap "submit tx: " (new "no funds")

publish-Submitted_example :
    (payload : Bytes) × (marshal event ≡ ok payload)
    × Submitted sample_world publisher payload "0x4d"
        (publish sample_world marshal publisher event []).1
publish-Submitted_example = Laws.publish-Submitted sample_world marshal publisher event [] published

abbrev sample_receipt : Receipt
sample_receipt = record {
  status = 1;
  logs = record { topics = 11 ∷ [] } ∷ record { topics = 11 ∷ 77 ∷ [] } ∷ [];
}

-- A receipt with all the topics of the event: the id, the sender and the data root.
abbrev full_receipt : Receipt
full_receipt = record { status = 1; logs = record { topics = 11 ∷ 5 ∷ 77 ∷ [] } ∷ [] }

full_logs : All (IsComplete 11) full_receipt.logs
unfolding is_data_submit is_event count_indexed
full_logs = (refl, tt)

parse_data_submit_event-sender_example :
    parse_data_submit_event sample_world full_receipt
    ≡ id_text sample_world (decode 11 da_data_submit "sender" full_receipt.logs)
parse_data_submit_event-sender_example =
    Events.parse_data_submit_event-sender sample_world full_receipt full_logs

abbrev availability : View
availability = record { contract = 9; method = "isDataAvailable"; args = word 77 ∷ [] }

-- What the sample world answers.
answered :
    (method : String)
    → method ≡ "isDataAvailable"
    → ok (if str_eq method "isDataAvailable" then flag true ∷ [] else address 5 ∷ [])
      ≡ ok (flag true ∷ [])
answered method m = rw m refl

sample_world-IsDecoded : IsDecoded sample_world
unfolding results_fit is_of_type is_of
sample_world-IsDecoded h v results m q =
    rw (← ok-injective _ _ (sym (answered v.method m) ∙ q)) refl

verify-answer_example :
    ((b : Bool) × (sample_world.view (ctx_check ∷ []) availability ≡ ok (flag b ∷ []))
      × ((verify sample_world publisher "0x4d" []).0 ≡ ok b))
    ⊎ ((e : Error) × (sample_world.view (ctx_check ∷ []) availability ≡ err e)
        × ((verify sample_world publisher "0x4d" []).0 ≡ err (wrap "da: verify call for 0x4d: " e)))
verify-answer_example =
    Answers.verify-answer sample_world publisher "0x4d" [] sample_world-IsDecoded refl
