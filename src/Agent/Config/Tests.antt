-- ===== src/Agent/Config/Tests.antt =====
-- The configuration of a small environment.
use agent_inference_ethden.Base.{◌≡◌, refl, String, [], ◌∷◌, Result, ok, str_eq, if◌then◌else◌}
use agent_inference_ethden.Base.Int.{ℤ, pos}
use agent_inference_ethden.Base.Encoding.{hex_encode, hex_decode}
use agent_inference_ethden.Agent.Config.{
  Config, config, load_config, health_interval, encryption_key,
}

abbrev pub getenv : String → String
getenv key =
    if str_eq key "INFERENCE_AGENT_ID"
    then "agent"
    else if str_eq key "ZG_ENCRYPTION_KEY"
    then "01ff"
    else ""

abbrev pub parse_duration : String → Result ℤ
parse_duration text = ok (pos 0)

abbrev pub small_config : Config
small_config = config parse_duration getenv (pos 30_000_000_000) (1 ∷ 255 ∷ [])

pub loaded : load_config parse_duration getenv ≡ ok small_config
unfolding load_config health_interval encryption_key hex_decode
loaded = refl

spelled : getenv "ZG_ENCRYPTION_KEY" ≡ hex_encode (1 ∷ 255 ∷ [])
unfolding hex_encode
spelled = refl

-- An environment whose health interval is zero.
abbrev pub idle_getenv : String → String
idle_getenv key = if str_eq key "INFERENCE_HEALTH_INTERVAL" then "0s" else getenv key

abbrev pub idle_config : Config
idle_config = config parse_duration idle_getenv (pos 0) (1 ∷ 255 ∷ [])

pub idle_loaded : load_config parse_duration idle_getenv ≡ ok idle_config
unfolding load_config health_interval encryption_key hex_decode
idle_loaded = refl
