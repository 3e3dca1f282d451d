-- ===== src/Compute/Session/Tests.antt =====
-- The session at concrete inputs.
use agent_inference_ethden.Base.{
  ◌≡◌, refl, inl, ok, String, ◌<>◌, true, [], ◌∷◌, replicate, to_bytes,
}
use agent_inference_ethden.Base.Encoding.{hex_encode, base64_encode}
use agent_inference_ethden.Base.Int.{pos}
use agent_inference_ethden.World.Sample.{sample_world}
use agent_inference_ethden.Compute.Sample.{codec, empty_session}
use agent_inference_ethden.Compute.Session.{
  Manager, Held, ensure_session, is_cached, renew, setup_once, build_session_token, token_text,
  is_done, adjust_v,
}
use agent_inference_ethden.Compute.Session.Laws
use agent_inference_ethden.Compute.Session.Laws.{IsTokenFor, IsCoherent}

abbrev manager : Manager
manager = record { key = 3; chain_id = pos 16_602; ledger = 9; serving = 9 }

abbrev held : Held
held = record { session = empty_session; history = [] }

abbrev prepared : Held
prepared = record { session = record empty_session { setup_done = "0x5" ∷ [] }; history = [] }

abbrev token : String
token =
    "app-sk-" <> base64_encode (b'|' ∷ to_bytes ("0x" <> hex_encode (adjust_v (replicate 65 0))))

ensured : (ensure_session sample_world codec manager "0x5" held).0 ≡ ok token
unfolding ensure_session is_cached renew setup_once is_done build_session_token token_text
ensured = refl

was_done : is_done "0x5" prepared.session.setup_done ≡ true
unfolding is_done
was_done = refl

ensure_session-IsTokenFor_example : IsTokenFor sample_world codec manager "0x5" token
ensure_session-IsTokenFor_example =
    Laws.ensure_session-IsTokenFor sample_world codec manager "0x5" held (inl refl) ensured
