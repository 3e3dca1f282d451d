-- ===== src/Abi/Tests.antt =====
-- The check of calls and the topics of events at concrete inputs.
use agent_inference_ethden.Base.{◌≡◌, refl, none, some, true, false, [], ◌∷◌}
use agent_inference_ethden.Base.Int.{pos}
use agent_inference_ethden.World.{Tx, Log, address, uint, text}
use agent_inference_ethden.Abi.{
  service_layout, has_layout, same_type, find_method, is_of, fit, takes_amount, accepts_tx,
  topic_at, read_topic,
}
use agent_inference_ethden.Abi.Contracts.{
  service_fields, ledger_abi, flow_abi, transfer_event, da_data_submit,
}

-- The tuple that the Go code asserts is the one that the ABI declares.
layout : has_layout service_fields service_layout ≡ true
unfolding has_layout same_type
layout = refl

abbrev transfer : Tx
transfer = record {
  contract = 9;
  opts = record { key = 3; chain_id = pos 16_602; value = none };
  method = "transferFund";
  args = address 5 ∷ text "inference-v1.0" ∷ uint 1 ∷ [];
}

accepted : accepts_tx ledger_abi transfer ≡ true
unfolding accepts_tx find_method fit is_of takes_amount
accepted = refl

-- Not with an amount, nor with two arguments swapped, nor with one missing, nor elsewhere.
refused :
    (accepts_tx ledger_abi
        (record transfer { opts = record { key = 3; chain_id = pos 16_602; value = some 1 } })
      ≡ false)
    × (accepts_tx ledger_abi
          (record transfer { args = text "inference-v1.0" ∷ address 5 ∷ uint 1 ∷ [] })
        ≡ false)
    × (accepts_tx ledger_abi (record transfer { args = address 5 ∷ text "" ∷ [] }) ≡ false)
    × (accepts_tx flow_abi transfer ≡ false)
unfolding accepts_tx find_method fit is_of takes_amount
refused = (refl, refl, refl, refl)

abbrev log : Log
log = record { topics = 11 ∷ 5 ∷ 77 ∷ 42 ∷ [] }

topics :
    (read_topic transfer_event "tokenId" log ≡ some 42)
    × (read_topic da_data_submit "sender" log ≡ some 5)
    × (read_topic da_data_submit "dataRoot" log ≡ some 77)
    × (read_topic da_data_submit "epoch" log ≡ none)
unfolding read_topic topic_at
topics = (refl, refl, refl, refl)
