-- ===== src/Hcs/Transport/Reports.antt =====
-- What the goroutine of a subscription in internal/hcs/transport.go reports to its reader.
use agent_inference_ethden.Base.{ℕ, ◌≡◌, String, none, some, List, [], ◌∷◌, Error, wrap, length}
use agent_inference_ethden.Base.Int.{ℤ}
use agent_inference_ethden.Hcs.Transport.{
  HcsTransport, Journal, Hiero, Phase, returned, reports, attempt_error, exhausted_error,
}

-- The context never ends, and the network grants no subscription.
pub record IsRefusing (o : Hiero) : Type 0 where
  pub live : (j : Journal) → o.ctx_err j ≡ none
  pub full_wait : (j : Journal) (d : ℕ) → o.wait j d ≡ none
  pub refuses :
      (j : Journal) (tid : ℕ) (start : ℤ) → (e : Error) × (o.subscribe j tid start ≡ some e)

module _ (o : Hiero) (t : HcsTransport) (topic : String) (tid : ℕ) (refusing : IsRefusing o) where
  -- The reports of failed attempts, from their causes, both the newest first.
  abbrev pub attempt_log : List Error → List Error
  attempt_log [] = []
  attempt_log (e ∷ es) =
      attempt_error o t topic (length es) (wrap "start subscription: " e) ∷ attempt_log es

  -- All reports of the goroutine are in the channel, and it has returned.
  pub record IsReported (rounds : ℕ) (r : Phase × Journal) : Type 0 where
    pub causes : List Error
    pub every_attempt : length causes ≡ rounds
    pub in_order : reports r.1 ≡ exhausted_error o t topic ∷ attempt_log causes
    pub ended : r.0 ≡ returned
