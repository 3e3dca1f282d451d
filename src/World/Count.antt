-- ===== src/World/Count.antt =====
-- Measures of a history.
use agent_inference_ethden.Base.{ℕ, ◌+◌, String, Bytes, none, some, List, [], ◌∷◌}
use agent_inference_ethden.World.Types.{
  Tx, View, Request, Effect, History, sent, http, waited, viewed, published,
}

-- The transactions sent, the newest first.
abbrev pub transactions : History → List Tx
transactions [] = []
transactions (sent tx ∷ h) = tx ∷ transactions h
transactions (_ ∷ h) = transactions h

-- The HTTP requests made, the newest first.
abbrev pub requests : History → List Request
requests [] = []
requests (http r ∷ h) = r ∷ requests h
requests (_ ∷ h) = requests h

-- The time waited, wait by wait, the newest first.
abbrev pub waits : History → List ℕ
waits [] = []
waits (waited d ∷ h) = d ∷ waits h
waits (_ ∷ h) = waits h

-- The contract calls made, the newest first.
abbrev pub views : History → List View
views [] = []
views (viewed v ∷ h) = v ∷ views h
views (_ ∷ h) = views h

-- The messages handed to the transport of Hedera, with their topics, the newest first.
abbrev pub publications : History → List (String × Bytes)
publications [] = []
publications (published topic message ∷ h) = (topic, message) ∷ publications h
publications (_ ∷ h) = publications h

-- What a transaction takes from the agent's account, gas aside.
abbrev pub amount : Effect → ℕ
amount (sent tx) = elim tx.opts.value [ none ↦ 0 | some v ↦ v ]
amount _ = 0

-- What all of them took.
abbrev pub paid : History → ℕ
paid [] = 0
paid (e ∷ h) = amount e + paid h
