-- ===== src/Backend/Laws.antt =====
-- The nonces of the double.
use agent_inference_ethden.Base.{◌+◌, ◌%◌, ◌^◌, ◌<◌, ◌≡◌, none, some, Error, ok, err, arith}
use agent_inference_ethden.Backend.{MockBackend, pending_nonce_at}

-- The nonces count up from the counter, around 2 ^ 64, and a global error takes none.
pending_nonce_at_lem :
    (m : MockBackend)
    → m.nonce < 2 ^ 64
    → m.global_err ≡ none
    → ((pending_nonce_at m).0 ≡ ok m.nonce)
      × ((pending_nonce_at m).1.nonce ≡ (m.nonce + 1) % 2 ^ 64)
unfolding pending_nonce_at
pending_nonce_at_lem m h e = (ground arith, ground arith)

pending_nonce_at_broken :
    (m : MockBackend) (e : Error) → m.global_err ≡ some e → pending_nonce_at m ≡ (err e, m)
unfolding pending_nonce_at
pending_nonce_at_broken m e q = ground arith
