-- ===== src/Inft/Events.antt =====
-- `parseTransferEvent` of internal/zerog/inft/minter.go beside the event that its ABI declares.
use agent_inference_ethden.Base.{
  ℕ, ◌≡◌, refl, some, List, [], ◌∷◌, new, ok_or, get_or, arith, get_elem?_lem, true,
}
use agent_inference_ethden.World.{World, Log, Receipt}
use agent_inference_ethden.Abi.{count_indexed, topic_at, is_event, read_topic, decode}
use agent_inference_ethden.Abi.Contracts.{transfer_event}
use agent_inference_ethden.Inft.{Codec, is_transfer, find_token, parse_transfer_event}

is_transfer_lem : (id : ℕ) (log : Log) → is_transfer id log ≡ is_event id transfer_event log
unfolding is_transfer is_event count_indexed
is_transfer_lem id log = ground (arith, get_elem?_lem log.topics 0 0)

is_transfer-topic :
    (id : ℕ) (log : Log)
    → is_transfer id log ≡ true
    → read_topic transfer_event "tokenId" log ≡ some (get_or log.topics 3 0)
unfolding is_transfer read_topic topic_at
is_transfer-topic id log e = ground (arith, get_elem?_lem log.topics 3 0)

find_token_lem :
    (id : ℕ) (logs : List Log) → find_token id logs ≡ decode id transfer_event "tokenId" logs
unfolding find_token decode
find_token_lem id [] = refl
find_token_lem id (log ∷ logs) =
    ground (arith, is_transfer_lem id log, is_transfer-topic id log, find_token_lem id logs)

-- The token of a receipt is what the declared event says: the code finds the `tokenId` of the first
-- log with the id and all the topics of the ABI's `Transfer`, or fails if there is none.
pub parse_transfer_event-decode :
    (w : World) (codec : Codec) (receipt : Receipt)
    → parse_transfer_event w codec receipt
      ≡ ok_or
          (decode (w.event_id "Transfer") transfer_event "tokenId" receipt.logs)
          (new "inft: Transfer event not found in receipt")
unfolding parse_transfer_event
parse_transfer_event-decode w codec receipt =
    let found = find_token_lem (w.event_id "Transfer") receipt.logs in ground arith
