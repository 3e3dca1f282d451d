-- ===== src/Compute/Session/Quiet.antt =====
-- The session asks no HTTP server.
use agent_inference_ethden.Base.{◌≡◌, refl, true, false, Bool, String, List, arith}
use agent_inference_ethden.World.{World, Request, Effect, http, requests}
use agent_inference_ethden.World.Keeps.{Keeps}
use agent_inference_ethden.Compute.Types.{Codec}
use agent_inference_ethden.Compute.Session.{Manager, Held, ensure_session}
use agent_inference_ethden.Compute.Session.Keeps.{Admits, ensure_session-keeps}

abbrev is_other : Effect → Bool
is_other (http _) = false
is_other _ = true

requests-Keeps : (rs : List Request) → Keeps (λ h. requests h ≡ rs) (λ e. is_other e ≡ true)
requests-Keeps rs = record {
  grow = λ e h o t. ground arith;
  checks = refl;
  reads = refl;
  polls = refl;
  waits = λ d. refl;
  draws = λ n. refl;
  mines = λ hash. refl;
}

module _ (w : World) (codec : Codec) (m : Manager) where
  other_effects : Admits m (λ e. is_other e ≡ true)
  other_effects = record {
    asks_ledger = λ user. refl;
    asks_account = λ user provider. refl;
    adds = refl;
    funds = λ provider. refl;
    acknowledges = λ provider. refl;
  }

  pub ensure_session-requests :
      (provider : String) (s : Held)
      → requests (ensure_session w codec m provider s).1.history ≡ requests s.history
  ensure_session-requests provider s =
      ensure_session-keeps w codec m (λ h. requests h ≡ requests s.history) (λ e. is_other e ≡ true)
        (requests-Keeps (requests s.history)) other_effects provider s refl
