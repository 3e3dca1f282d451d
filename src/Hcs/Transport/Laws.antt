-- ===== src/Hcs/Transport/Laws.antt =====
-- `NewHCSTransport` and `Publish` of internal/hcs/transport.go.
use agent_inference_ethden.Base.{
  ℕ, ◌<◌, ◌≡◌, ◌⊎◌, inl, inr, String, ◌<>◌, none, List, [], ◌∷◌, Bytes, Error, wrap, Result, ok,
  err, arith, Option-cases, Result-cases,
}
use agent_inference_ethden.Hcs.Transport.{
  HcsTransportConfig, new_transport, Journal, executed, frozen, checked, Hiero, publish,
}

-- The messages that were submitted to the network, with their topics, the newest first.
abbrev pub submissions : Journal → List (ℕ × Bytes)
submissions [] = []
submissions (executed topic message ∷ j) = (topic, message) ∷ submissions j
submissions (_ ∷ j) = submissions j

module _ (o : Hiero) (topic : String) (message : Bytes) where
  -- The journal when the message is submitted.
  abbrev pub prepared : ℕ → Journal → Journal
  prepared tid j = frozen tid message ∷ checked ∷ j

  -- How a publication may end.
  pub data Published (j : Journal) (r : Result {0} Unit) (j' : Journal) : Type 0 where
    -- the context, the topic or the node list stopped it
    unsubmitted : (e : Error) → r ≡ err e → submissions j' ≡ submissions j → Published j r j'
    -- one submission, which the network did not take, or gave no receipt for, or confirmed
    submitted :
        (tid : ℕ)
        → o.topic_id_from_string topic ≡ ok tid
        → submissions j' ≡ (tid, message) ∷ submissions j
        → ((e : Error) × (r ≡ err e))
          ⊎ ((response : ℕ) × (o.execute (prepared tid j) tid message ≡ ok response)
              × (o.get_receipt (executed tid message ∷ prepared tid j) response ≡ none)
              × (r ≡ ok tt))
        → Published j r j'

  -- `Publish` submits the message at most once, to the topic that its argument names. It succeeds
  -- only if the network took this submission and gave a receipt for it, and fails otherwise.
  pub publish-Published :
      (j : Journal) → Published j (publish o topic message j).0 (publish o topic message j).1
  unfolding publish
  publish-Published j =
      let to_topic = "hcs transport: publish to " <> topic in
      elim (Option-cases (o.ctx_err j)) [
        | inr (e, q) ↦ unsubmitted (wrap (to_topic <> ": ") e) (ground arith) (ground arith)
        | inl live ↦ elim (Result-cases (o.topic_id_from_string topic)) [
          | inr (e, q) ↦
              unsubmitted (wrap ("hcs transport: parse topic " <> topic <> ": ") e) (ground arith)
                (ground arith)
          | inl (tid, t) ↦ elim (Option-cases (o.freeze (checked ∷ j) tid message)) [
            | inr (e, q) ↦
                unsubmitted (wrap (to_topic <> ": freeze: ") e) (ground arith) (ground arith)
            | inl f ↦
                let before = prepared tid j in
                elim (Result-cases (o.execute before tid message)) [
                  | inr (e, q) ↦
                      submitted tid t (ground arith)
                        (inl (wrap (to_topic <> ": execute: ") e, ground arith))
                  | inl (response, x) ↦
                      elim (Option-cases (o.get_receipt (executed tid message ∷ before) response)) [
                        | inr (e, q) ↦
                            submitted tid t (ground arith)
                              (inl (wrap (to_topic <> ": receipt: ") e, ground arith))
                        | inl q ↦
                            submitted tid t (ground arith) (inr (response, x, q, ground arith))
                      ]
                ]
          ]
        ]
      ]

-- Whatever the configuration holds, a transport has a channel with room for a message, a delay, and
-- at least one reconnection.
pub new_transport-positive :
    (cfg : HcsTransportConfig)
    → (0 < (new_transport cfg).message_buffer)
      × (0 < (new_transport cfg).reconnect_delay)
      × (0 < (new_transport cfg).max_reconnects)
unfolding new_transport
new_transport-positive cfg = (ground arith, ground arith, ground arith)
