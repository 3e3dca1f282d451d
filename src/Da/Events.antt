-- ===== src/Da/Events.antt =====
-- `parseDataSubmitEvent` of internal/zerog/da/publisher.go beside the event that its ABI declares.
use agent_inference_ethden.Base.{
  ℕ, ◌≡◌, refl, none, some, List, [], ◌∷◌, new, ok, err, get_or, arith, get_elem?_lem, All, true,
  Option, Result, String,
}
use agent_inference_ethden.World.{World, Log, Receipt}
use agent_inference_ethden.Abi.{topic_at, is_event, read_topic, decode}
use agent_inference_ethden.Abi.Contracts.{da_data_submit}
use agent_inference_ethden.Da.{is_data_submit, find_data_root, parse_data_submit_event}

-- A log that the code takes for a `DataSubmit` has all the topics of the declared event.
abbrev pub IsComplete : ℕ → Log → Type 0
IsComplete id log = is_data_submit id log ≡ is_event id da_data_submit log

is_data_submit-topic :
    (id : ℕ) (log : Log)
    → is_data_submit id log ≡ true
    → read_topic da_data_submit "sender" log ≡ some (get_or log.topics 1 0)
unfolding is_data_submit read_topic topic_at
is_data_submit-topic id log e = ground (arith, get_elem?_lem log.topics 1 0)

find_data_root_lem :
    (id : ℕ) (logs : List Log)
    → All (IsComplete id) logs
    → find_data_root id logs ≡ decode id da_data_submit "sender" logs
unfolding find_data_root decode
find_data_root_lem id [] a = refl
find_data_root_lem id (log ∷ logs) (c, a) =
    ground (arith, c, is_data_submit-topic id log, find_data_root_lem id logs a)

module _ (w : World) where
  -- The text that the code gives for what a `DataSubmit` was found to say.
  abbrev pub id_text : Option ℕ → Result String
  id_text none = err (new "da: DataSubmit event not found in receipt")
  id_text (some topic) = ok (w.hash_hex topic)

  -- When every `DataSubmit` log has all the topics of the declared event, the id that is returned is
  -- the text of the first one's `sender`, and not of its `dataRoot`.
  pub parse_data_submit_event-sender :
      (receipt : Receipt)
      → All (IsComplete (w.event_id "DataSubmit")) receipt.logs
      → parse_data_submit_event w receipt
        ≡ id_text (decode (w.event_id "DataSubmit") da_data_submit "sender" receipt.logs)
  unfolding parse_data_submit_event
  parse_data_submit_event-sender receipt a =
      let found = find_data_root_lem (w.event_id "DataSubmit") receipt.logs a in ground arith
