-- ===== src/Compute/Session/Laws.antt =====
-- The cached token of internal/zerog/compute/session.go and its provider.
use mathlib.Core.Path.{subst, subst₂}
use agent_inference_ethden.Base.{
  ap, sym, ok-injective, ◌∙◌, ℕ, zero, suc, ◌+◌, ◌≡◌, ◌≢◌, ◌⊎◌, refl, inl, inr, ok, err, Error,
  Result, String, true, Bytes, ◌∷◌, arith, Result-cases, eq_iff, eq_refl,
}
use agent_inference_ethden.Base.Encoding.{hex_encode}
use agent_inference_ethden.World.{World, History, clock_read}
use agent_inference_ethden.Compute.Types.{SessionToken, Session, Codec}
use agent_inference_ethden.Compute.Session.{
  Manager, Held, is_done, token_text, invalidate, new_session, build_session_token, is_cached,
  setup_once, unix_milli, renew, ensure_session,
}

abbrev first : Result String × Held → Result String
first r = r.0

abbrev second : Result String × Held → Held
second r = r.1

pub invalidate-provider : (s : Session) → (invalidate s).cached_provider ≡ s.cached_provider
unfolding invalidate
invalidate-provider s = refl

zero-cases : (n : ℕ) → (n ≡ 0) ⊎ (n ≢ 0)
zero-cases zero = inl refl
zero-cases (suc n) = inr λ e. ground arith

module _ (w : World) (codec : Codec) (m : Manager) where
  -- The text is a signed token that names the provider.
  pub record IsTokenFor (provider text : String) : Type 0 where
    pub token : SessionToken
    pub names : token.provider ≡ provider
    pub signed : token_text codec m.key token ≡ ok text

  -- A token that has not been invalidated belongs to the cached provider.
  abbrev pub IsCoherent : Session → Type 0
  IsCoherent s = (s.token_expiry ≡ 0) ⊎ IsTokenFor s.cached_provider s.cached_token

  abbrev IsKept : Session → Type 0
  IsKept s = s.token_expiry ≢ 0 → IsTokenFor s.cached_provider s.cached_token

  IsCoherent-IsKept : (s : Session) → IsCoherent s → IsKept s
  IsCoherent-IsKept s (inl z) n = absurd (n z)
  IsCoherent-IsKept s (inr t) n = t

  IsKept-IsCoherent : (s : Session) → IsKept s → IsCoherent s
  IsKept-IsCoherent s k = elim (zero-cases s.token_expiry) [ inl z ↦ inl z | inr n ↦ inr (k n) ]

  pub new_session-IsCoherent : IsCoherent new_session
  new_session-IsCoherent = inl refl

  pub invalidate-IsCoherent : (s : Session) → IsCoherent (invalidate s)
  unfolding invalidate
  invalidate-IsCoherent s = inl refl

  abbrev token_of : ℕ → String → Bytes → SessionToken
  token_of t provider random = record {
    address = w.address_hex (w.pubkey_to_address m.key);
    provider = provider;
    timestamp = unix_milli t;
    expires_at = unix_milli t + 86_400_000;
    nonce = hex_encode random;
    generation = 0;
    token_id = 255;
  }

  build_session_token-IsTokenFor :
      (provider : String) (h : History) {text : String}
      → (build_session_token w codec m provider h).0 ≡ ok text
      → IsTokenFor provider text
  unfolding build_session_token
  build_session_token-IsTokenFor provider h e =
      elim (Result-cases (w.rand_read (clock_read ∷ h) 16)) [
        | inr (f, q) ↦ ground arith
        | inl (random, q) ↦ record {
          token = token_of (w.now h) provider random;
          names = refl;
          signed = ground arith;
        }
      ]

  pub setup_once-keeps :
      (provider : String) (s : Held)
      → ((setup_once w codec m provider s).0 ≡ ok tt)
        × ((setup_once w codec m provider s).1.session.cached_token ≡ s.session.cached_token)
        × ((setup_once w codec m provider s).1.session.cached_provider ≡ s.session.cached_provider)
        × ((setup_once w codec m provider s).1.session.token_expiry ≡ s.session.token_expiry)
        × (is_done provider (setup_once w codec m provider s).1.session.setup_done ≡ true)
  unfolding setup_once is_done
  setup_once-keeps provider s = ground (arith, eq_refl provider)

  abbrev prepared : String → Held → Held
  prepared provider s = (setup_once w codec m provider s).1

  renew-ok :
      (provider : String) (s : Held) {text : String}
      → (renew w codec m provider s).0 ≡ ok text
      → IsTokenFor provider text
        × ((renew w codec m provider s).1.session.cached_token ≡ text)
        × ((renew w codec m provider s).1.session.cached_provider ≡ provider)
  unfolding renew
  renew-ok provider s e =
      let (done, _, _, _, _) = setup_once-keeps provider s in
      let h = (prepared provider s).history in
      elim (Result-cases (build_session_token w codec m provider h).0) [
        | inr (f, q) ↦ ground arith
        | inl (text, q) ↦ ground (arith, build_session_token-IsTokenFor provider h q)
      ]

  renew-err :
      (provider : String) (s : Held) {e : Error}
      → (renew w codec m provider s).0 ≡ err e
      → ((renew w codec m provider s).1.session.cached_token ≡ s.session.cached_token)
        × ((renew w codec m provider s).1.session.cached_provider ≡ s.session.cached_provider)
        × ((renew w codec m provider s).1.session.token_expiry ≡ s.session.token_expiry)
  unfolding renew
  renew-err provider s e = ground (arith, setup_once-keeps provider s)

  is_cached_lem :
      (provider : String) (s : Held)
      → ((is_cached w codec m provider s).1.session ≡ s.session)
        × (((is_cached w codec m provider s).0 ≡ ok true)
            → (s.session.cached_provider ≡ provider) × (s.session.token_expiry ≢ 0))
  unfolding is_cached
  is_cached_lem provider s =
      (ground arith, λ e. ground (arith, eq_iff s.session.cached_provider provider))

  abbrev looked : String → Held → Held
  looked provider s = (is_cached w codec m provider s).1

  -- `is_cached` never fails, so a call is one of two.
  pub ensure_session-cases :
      (provider : String) (s : Held)
      → (((is_cached w codec m provider s).0 ≡ ok true)
          × (ensure_session w codec m provider s ≡ (ok s.session.cached_token, looked provider s)))
        ⊎ (ensure_session w codec m provider s ≡ renew w codec m provider (looked provider s))
  unfolding ensure_session is_cached
  ensure_session-cases provider s = ground arith

  -- With a coherent session a token that is handed out for a provider, cached or new, is a signed
  -- token that names this provider.
  pub ensure_session-IsTokenFor :
      (provider : String) (s : Held) {text : String}
      → IsCoherent s.session
      → (ensure_session w codec m provider s).0 ≡ ok text
      → IsTokenFor provider text
  ensure_session-IsTokenFor provider s c e = elim (ensure_session-cases provider s) [
    | inl (hit, same) ↦
        let (kept, found) = is_cached_lem provider s in
        let text : s.session.cached_token ≡ _ = ok-injective _ _ (sym (ap first same) ∙ e) in
        subst₂ IsTokenFor (found hit).0 text (IsCoherent-IsKept s.session c (found hit).1)
    | inr same ↦ (renew-ok provider (looked provider s) (sym (ap first same) ∙ e)).0
  ]

  renew-IsKept :
      (provider : String) (s : Held)
      → IsKept s.session
      → IsKept (renew w codec m provider s).1.session
  renew-IsKept provider s c n = elim (Result-cases (renew w codec m provider s).0) [
    | inl (text, e) ↦ let (token, cached, named) = renew-ok provider s e in rw (cached, named) token
    | inr (f, e) ↦
        let (cached, named, expiry) = renew-err provider s e in
        rw (cached, named) (c (λ z. n (expiry ∙ z)))
  ]

  ensure_session-IsKept :
      (provider : String) (s : Held)
      → IsKept s.session
      → IsKept (ensure_session w codec m provider s).1.session
  ensure_session-IsKept provider s c n =
      let (kept, found) = is_cached_lem provider s in
      let before : IsKept (looked provider s).session = subst IsKept (sym kept) c in
      elim (ensure_session-cases provider s) [
        | inl (hit, same) ↦ subst (λ (z : Held). IsKept z.session) (sym (ap second same)) before n
        | inr same ↦
            subst (λ (z : Held). IsKept z.session) (sym (ap second same))
              (renew-IsKept provider (looked provider s) before) n
      ]

  -- Every call leaves the session coherent, whether it succeeds or fails.
  pub ensure_session-IsCoherent :
      (provider : String) (s : Held)
      → IsCoherent s.session
      → IsCoherent (ensure_session w codec m provider s).1.session
  ensure_session-IsCoherent provider s c =
      let after = (ensure_session w codec m provider s).1 in
      IsKept-IsCoherent after.session
        (ensure_session-IsKept provider s (IsCoherent-IsKept s.session c))
