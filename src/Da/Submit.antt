-- ===== src/Da/Submit.antt =====
-- One submission: what it has done when it succeeds, and what it may send.
use agent_inference_ethden.Base.{suc, ◌≤◌, ◌≡◌, ok, String, Bytes, ◌∷◌, length, arith}
use agent_inference_ethden.World.{
  World, History, Receipt, sent, mined, transactions, make_transact_opts,
}
use agent_inference_ethden.Da.{Publisher, submission, submit_to_da, parse_data_submit_event}

-- The submission that ended in the history `h'` with the id `id`: its transaction was mined with
-- status 1, and the receipt holds the id.
pub record Submitted (w : World) (p : Publisher) (payload : Bytes) (id : String) (h' : History)
    : Type 0 where
  pub before : History
  pub hash : String
  pub receipt : Receipt
  pub accepted : w.transact before (submission w p payload) ≡ ok hash
  pub mined_ok : w.wait_mined (sent (submission w p payload) ∷ before) hash ≡ ok receipt
  pub succeeded : receipt.status ≡ 1
  pub parsed : parse_data_submit_event w receipt ≡ ok id
  pub done : h' ≡ mined hash ∷ sent (submission w p payload) ∷ before

module _ (w : World) (p : Publisher) (payload : Bytes) where
  pub submit_to_da-sends :
      (h : History)
      → length (transactions (submit_to_da w p payload h).1) ≤ suc (length (transactions h))
  unfolding submit_to_da make_transact_opts
  submit_to_da-sends h = ground arith

  pub submit_to_da-Submitted :
      (h : History) {id : String}
      → (submit_to_da w p payload h).0 ≡ ok id
      → Submitted w p payload id (submit_to_da w p payload h).1
  unfolding submit_to_da make_transact_opts submission
  submit_to_da-Submitted h e = ground arith
