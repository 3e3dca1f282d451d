-- ===== src/Hcs/Race.antt =====
-- `PublishResult` and `PublishHealth` of internal/hcs/handler.go from several goroutines, as the main
-- loop and the health loop call them: each takes its number in one atomic step, and publishes in a
-- later one, so the steps of others come between.
pub mod Laws
mod Tests
use agent_inference_ethden.Base.{ℕ, ◌+◌, ◌%◌, ◌^◌, ◌≡◌, List, [], ◌∷◌, ◌++◌, suc}
use agent_inference_ethden.Hcs.Types.{Envelope}

-- `numbered` counts the calls of `seqNum.Add(1)`; the counter is that modulo 2 ^ 64. `in_flight` has
-- the envelopes that have a number and are not published, `published` those handed to the transport,
-- the oldest first.
pub record Race : Type 0 where
  pub numbered : ℕ
  pub in_flight : List Envelope
  pub published : List Envelope

pub new_race : Race
new_race = record { numbered = 0; in_flight = []; published = [] }

pub data Step : Race → Race → Type 0 where
  numbers :
      (s : Race) (e : Envelope)
      → e.sequence_num ≡ (s.numbered + 1) % 2 ^ 64
      → Step s (record s { numbered = s.numbered + 1; in_flight = e ∷ s.in_flight })
  -- `json.Marshal` of the envelope fails
  drops :
      (s : Race) (e : Envelope) (before after : List Envelope)
      → s.in_flight ≡ before ++ e ∷ after
      → Step s (record s { in_flight = before ++ after })
  publishes :
      (s : Race) (e : Envelope) (before after : List Envelope)
      → s.in_flight ≡ before ++ e ∷ after
      → Step s (record s { in_flight = before ++ after; published = s.published ++ e ∷ [] })

pub data Steps : Race → Race → Type 0 where
  no_step : (s : Race) → Steps s s
  and_step : {r s t : Race} → Steps r s → Step s t → Steps r t
