-- ===== src/Chain.antt =====
-- `DialClient`, `LoadKey` and `AddressFromKey` of internal/zerog/chain.go; go-ethereum is a parameter.
use agent_inference_ethden.Base.{
  ℕ, String, ◌<>◌, Bytes, [], ◌∷◌, to_bytes, to_text, Result, annotated, ◌==◌, if◌then◌else◌,
}

-- What a prefix leaves of a text, or the text if it does not start with it: `strings.TrimPrefix`.
cut_prefix : Bytes → Bytes → Bytes → Bytes
cut_prefix whole [] s = s
cut_prefix whole (p ∷ ps) [] = whole
cut_prefix whole (p ∷ ps) (c ∷ cs) = if p == c then cut_prefix whole ps cs else whole

pub trim_prefix : String → String → String
unfolding cut_prefix to_bytes to_text
trim_prefix s prefix = to_text (cut_prefix (to_bytes s) (to_bytes prefix) (to_bytes s))

-- A client is a number, as a key is.
unfoldable pub dial_client : (String → Result ℕ) → String → Result ℕ
dial_client dial_context rpc_url =
    annotated ("zerog: dial " <> rpc_url <> ": ") (dial_context rpc_url)

unfoldable pub load_key : (String → Result ℕ) → String → Result ℕ
unfolding trim_prefix
load_key hex_to_ecdsa hex_key =
    annotated "zerog: invalid private key: " (hex_to_ecdsa (trim_prefix hex_key "0x"))
