-- ===== src/Compute/Session.antt =====
-- internal/zerog/compute/session.go
pub mod Laws
pub mod Setup
pub mod Spending
pub mod Quiet
pub mod Typed
pub mod Keeps
pub mod Tests
use package.text.Mathlib.Text.{find?}
use agent_inference_ethden.Base.{
  ℕ, ◌+◌, ◌-◌, ◌*◌, ◌/◌, String, ◌<>◌, Option, none, some, Bool, true, false, not, ◌||◌, List, [],
  ◌∷◌, ◌++◌, Bytes, length, get_or, set, to_text, to_bytes, Error, error_text, new, wrap, Result,
  ok, err, Exec, pure, lift, annotate, try, gets, modify, ◌>>=◌, ◌>>◌, raise_if, str_eq, ltb, ◌==◌,
  if◌then◌else◌,
}
use agent_inference_ethden.Base.Int.{ℤ}
use agent_inference_ethden.Base.Decimal.{decimal}
use agent_inference_ethden.Base.Encoding.{hex_encode, base64_encode}
use agent_inference_ethden.World.{
  World, History, Io, Tx, TransactOpts, Value, address, text, uint, flag, now, rand_read, transact,
  wait_mined, view, make_transact_opts, address_from_key,
}
use agent_inference_ethden.Compute.Types.{SessionToken, Session, Codec}

abbrev pub ephemeral_token_id : ℕ
ephemeral_token_id = 255

abbrev pub ephemeral_max_duration_ms : ℕ
ephemeral_max_duration_ms = 24 * 60 * 60 * 1_000

abbrev pub hour : ℕ
hour = 3_600_000_000_000

-- 10 ^ 17, a tenth of a token
abbrev pub tenth : ℕ
tenth = 100_000_000_000_000_000

-- `UnixMilli` of an instant in nanoseconds since the zero time, at or after 1970.
abbrev pub unix_milli : ℕ → ℕ
unix_milli t = t / 1_000_000 - 62_135_596_800_000

-- `strings.Contains`
contains : String → String → Bool
contains s t = elim (find? s t) [ some _ ↦ true | none ↦ false ]

-- `err == nil && len(result) > 0`
abbrev exists : Result (List Value) → Bool
exists (ok (_ ∷ _)) = true
exists _ = false

-- Is the provider in the map `setupDone`?
pub is_done : String → List String → Bool
is_done p [] = false
is_done p (q ∷ qs) = str_eq p q || is_done p qs

-- `signHash`
pub sign_hash : Codec → Bytes → Bytes
sign_hash codec hash =
    codec.keccak256
      (25 ∷ to_bytes "Ethereum Signed Message:" ++ 10 ∷ to_bytes (decimal (length hash)) ++ hash)

-- `if sig[64] < 27 { sig[64] += 27 }`; a signature has 65 bytes.
pub adjust_v : Bytes → Bytes
adjust_v sig = if ltb (get_or sig 64 0) 27 then set sig 64 (get_or sig 64 0 + 27) else sig

-- The text that authenticates: the token's JSON and its signature.
pub token_text : Codec → ℕ → SessionToken → Result String
token_text codec key token =
    let message = codec.marshal_token token in
    elim message [
      | err e ↦ err (wrap "marshal session token: " e)
      | ok bytes ↦ elim (codec.sign (sign_hash codec (codec.keccak256 bytes)) key) [
        | err e ↦ err (wrap "sign session token: " e)
        | ok sig ↦
            let raw = bytes ++ b'|' ∷ to_bytes ("0x" <> hex_encode (adjust_v sig)) in
            ok ("app-sk-" <> base64_encode raw)
      ]
    ]

-- The addresses that `newSessionManager` binds, the key and the chain.
pub record Manager : Type 0 where
  pub key : ℕ
  pub chain_id : ℤ
  pub ledger : ℕ
  pub serving : ℕ

-- The state of a call: the session, and what has been done outside.
pub record Held : Type 0 where
  pub session : Session
  pub history : History

abbrev pub outside : {A : Type 0} → Io A → Exec Held A
outside m s = let (r, h) = m s.history in (r, record s { history = h })

-- `newSessionManager`
unfoldable pub new_manager : World → ℕ → ℤ → Manager
new_manager w key chain_id = record {
  key = key;
  chain_id = chain_id;
  ledger = w.hex_to_address "0xE70830508dAc0A97e6c087c75f402f9Be669E406";
  serving = w.hex_to_address "0xa79F4c8311FF93C06b8CfB403690cc987c93F91E";
}

abbrev pub new_session : Session
new_session = record { cached_token = ""; cached_provider = ""; token_expiry = 0; setup_done = [] }

-- `invalidate`
pub invalidate : Session → Session
invalidate s = record s { cached_token = ""; token_expiry = 0 }

module _ (w : World) (codec : Codec) (m : Manager) where
  pub ensure_ledger : ℕ → TransactOpts → Io Unit
  ensure_ledger user opts = do
    found ←
        try
          (view w (record { contract = m.ledger; method = "getLedger"; args = address user ∷ [] }))
    if exists found then pure tt else do
      hash ← annotate "addLedger tx: " (
          transact w (record {
            contract = m.ledger;
            opts = record opts { value = some tenth };
            method = "addLedger";
            args = text "" ∷ [];
          }))
      receipt ← annotate "addLedger wait: " (wait_mined w hash)
      raise_if (not (receipt.status == 1)) (new ("addLedger reverted (tx: " <> hash <> ")"))

  pub ensure_provider_account : ℕ → ℕ → TransactOpts → Io Unit
  ensure_provider_account user provider opts = do
    found ← try (
        view w (record {
          contract = m.serving;
          method = "getAccount";
          args = address user ∷ address provider ∷ [];
        }))
    if exists found then pure tt else do
      hash ← annotate "transferFund tx: " (
          transact w (record {
            contract = m.ledger;
            opts = record opts { value = none };
            method = "transferFund";
            args = address provider ∷ text "inference-v1.0" ∷ uint tenth ∷ [];
          }))
      receipt ← annotate "transferFund wait: " (wait_mined w hash)
      raise_if (not (receipt.status == 1)) (new ("transferFund reverted (tx: " <> hash <> ")"))

  -- The errors of a transaction that was refused because the signer is acknowledged are forgiven.
  pub ensure_acknowledged : ℕ → ℕ → TransactOpts → Io Unit
  unfolding contains
  ensure_acknowledged user provider opts = do
    try (
          view w (record {
            contract = m.serving;
            method = "getAccount";
            args = address user ∷ address provider ∷ [];
          }))
        >>= λ _.
            try (
              transact w (record {
                contract = m.serving;
                opts = record opts { value = none };
                method = "acknowledgeTEESigner";
                args = address provider ∷ flag true ∷ [];
              }))
            >>= λ r. elim r [
              | err e ↦
                  if contains (error_text e) "already" || contains (error_text e) "reverted"
                  then pure tt
                  else lift (err (wrap "acknowledgeTEESigner tx: " e))
              | ok hash ↦
                  annotate "acknowledgeTEESigner wait: " (wait_mined w hash) >>= λ _. pure tt
            ]

  pub setup_on_chain : String → Io Unit
  setup_on_chain provider_address = do
    let user = address_from_key w m.key
    let provider = w.hex_to_address provider_address
    opts ← lift (make_transact_opts w m.key m.chain_id)
    annotate "ensure ledger: " (ensure_ledger user opts)
    annotate "ensure provider account: " (ensure_provider_account user provider opts)
    annotate "acknowledge TEE signer: " (ensure_acknowledged user provider opts)

  generate_nonce : Io String
  generate_nonce = do random ← rand_read w 16; pure (hex_encode random)

  pub build_session_token : String → Io String
  unfolding generate_nonce
  build_session_token provider_address = do
    t ← now w
    nonce ← annotate "generate nonce: " generate_nonce
    lift (
        token_text codec m.key (record {
          address = w.address_hex (address_from_key w m.key);
          provider = provider_address;
          timestamp = unix_milli t;
          expires_at = unix_milli t + ephemeral_max_duration_ms;
          nonce = nonce;
          generation = 0;
          token_id = ephemeral_token_id;
        }))

  -- Is the cached token for this provider, with more than an hour left? The clock is read only if
  -- the provider is the same.
  pub is_cached : String → Exec Held Bool
  is_cached provider s =
      if str_eq s.session.cached_provider provider
      then (outside (now w) >>= λ t. pure (ltb (t + hour) s.session.token_expiry)) s
      else (ok false, s)

  -- The setup, once for each provider, whether it succeeds or not.
  pub setup_once : String → Exec Held Unit
  setup_once provider s =
      if is_done provider s.session.setup_done
      then (ok tt, s)
      else (outside (try (setup_on_chain provider)) >>= λ _. modify λ (u : Held). record u {
        session = record u.session { setup_done = provider ∷ u.session.setup_done };
      })
          s

  -- A new token, which is cached for 24 hours.
  pub renew : String → Exec Held String
  renew provider = do
    setup_once provider
    token ← outside (build_session_token provider)
    t ← outside (now w)
    modify λ (u : Held). record u {
      session = record u.session {
        cached_token = token;
        cached_provider = provider;
        token_expiry = t + 24 * hour;
      };
    }
    pure token

  pub ensure_session : String → Exec Held String
  ensure_session provider = do
    cached ← is_cached provider
    if cached then gets (λ s. s.session.cached_token) else renew provider
