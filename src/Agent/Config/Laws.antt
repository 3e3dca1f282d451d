-- ===== src/Agent/Config/Laws.antt =====
-- The configurations that `LoadConfig` in internal/agent/config.go returns.
use mathlib.Core.Path.{subst}
use agent_inference_ethden.Base.{
  ℕ, ◌<◌, ◌≡◌, ◌≢◌, refl, sym, ap, ◌∙◌, false, inl, inr, String, Bytes, [], ◌∷◌, All, Result, ok,
  ok-injective, str_eq, eq_iff, Bool-cases, Result-cases, arith,
}
use agent_inference_ethden.Base.Int.{ℤ}
use agent_inference_ethden.Base.Encoding.{hex_encode, hex_decode, hex_decode-hex_encode}
use agent_inference_ethden.Agent.Config.{
  Config, config, load_config, health_interval, encryption_key,
}

hex_decode-empty : hex_decode "" ≡ ok []
unfolding hex_decode
hex_decode-empty = refl

module _ (parse_duration : String → Result ℤ) (getenv : String → String) where
  -- The four clients of a configuration are on one chain, with one key.
  pub record IsShared (c : Config) : Type 0 where
    pub rpc_storage : c.storage.chain_rpc ≡ c.compute.chain_rpc
    pub rpc_inft : c.inft.chain_rpc ≡ c.compute.chain_rpc
    pub rpc_da : c.da.chain_rpc ≡ c.compute.chain_rpc
    pub id_storage : c.storage.chain_id ≡ c.compute.chain_id
    pub id_inft : c.inft.chain_id ≡ c.compute.chain_id
    pub id_da : c.da.chain_id ≡ c.compute.chain_id
    pub key_storage : c.storage.private_key ≡ c.compute.private_key
    pub key_inft : c.inft.private_key ≡ c.compute.private_key
    pub key_da : c.da.private_key ≡ c.compute.private_key

  config-IsShared :
      (interval : ℤ) (key : Bytes) → IsShared (config parse_duration getenv interval key)
  config-IsShared interval key = record {
    rpc_storage = refl;
    rpc_inft = refl;
    rpc_da = refl;
    id_storage = refl;
    id_inft = refl;
    id_da = refl;
    key_storage = refl;
    key_inft = refl;
    key_da = refl;
  }

  load_config-parts :
      (c : Config)
      → load_config parse_duration getenv ≡ ok c
      → (interval : ℤ) × (key : Bytes) × (str_eq (getenv "INFERENCE_AGENT_ID") "" ≡ false)
        × (health_interval parse_duration getenv ≡ ok interval)
        × (encryption_key parse_duration getenv ≡ ok key)
        × (config parse_duration getenv interval key ≡ c)
  unfolding load_config
  load_config-parts c e = elim (Result-cases (health_interval parse_duration getenv)) [
    | inr (f, q) ↦ ground arith
    | inl (interval, q) ↦ elim (Result-cases (encryption_key parse_duration getenv)) [
      | inr (f, r) ↦ ground arith
      | inl (key, r) ↦ elim (Bool-cases (str_eq (getenv "INFERENCE_AGENT_ID") "")) [
        | inl nobody ↦ ground arith
        | inr somebody ↦
            (interval, key, somebody, q, r, ok-injective _ _ (rw (somebody, q, r) at e))
      ]
    ]
  ]

  -- A configuration that loads names the agent, its four clients share one chain and one key, and
  -- its interval and its encryption key are those that the environment spells.
  pub load_config-IsShared :
      (c : Config)
      → load_config parse_duration getenv ≡ ok c
      → (c.agent_id ≢ "")
        × IsShared c
        × (health_interval parse_duration getenv ≡ ok c.health_interval)
        × (encryption_key parse_duration getenv ≡ ok c.inft.encryption_key)
  load_config-IsShared c e =
      let (interval, key, somebody, q, r, same) = load_config-parts c e in
      subst
        (λ (x : Config).
          (x.agent_id ≢ "")
          × IsShared x
          × (health_interval parse_duration getenv ≡ ok x.health_interval)
          × (encryption_key parse_duration getenv ≡ ok x.inft.encryption_key))
        same
        (
          λ n. ground (arith, (eq_iff (getenv "INFERENCE_AGENT_ID") "").1 n),
          config-IsShared interval key,
          q,
          r,
        )

  -- An encryption key that the environment has in hexadecimal, of whatever length but zero, is the
  -- key of the minter.
  pub load_config-key :
      (c : Config) (b : ℕ) (bs : Bytes)
      → load_config parse_duration getenv ≡ ok c
      → All (λ x. x < 256) (b ∷ bs)
      → getenv "ZG_ENCRYPTION_KEY" ≡ hex_encode (b ∷ bs)
      → c.inft.encryption_key ≡ b ∷ bs
  unfolding encryption_key
  load_config-key c b bs e small spelled =
      let (_, _, _, read) = load_config-IsShared c e in
      let decoded = hex_decode-hex_encode (b ∷ bs) small in
      elim (Bool-cases (str_eq (getenv "ZG_ENCRYPTION_KEY") "")) [
        | inl unset ↦
            let empty = (eq_iff (getenv "ZG_ENCRYPTION_KEY") "").0 unset in
            let nothing : ok [] ≡ ok (b ∷ bs) =
              sym hex_decode-empty ∙ ap (λ t. hex_decode t) (sym empty ∙ spelled) ∙ decoded in
            ground arith
        | inr set ↦
            let whole : hex_decode (getenv "ZG_ENCRYPTION_KEY") ≡ ok (b ∷ bs) =
              ap (λ t. hex_decode t) spelled ∙ decoded in
            ground arith
      ]
