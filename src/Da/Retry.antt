-- ===== src/Da/Retry.antt =====
-- The loop of `publishWithRetry`.
use agent_inference_ethden.Base.{
  ℕ, zero, suc, ◌+◌, ◌≤◌, ◌<◌, ◌≡◌, sym, ◌∙◌, ap, ok, err, Error, String, Bytes, List, [], ◌∷◌,
  ◌++◌, length, arith, some, none, Option, Result-cases, inl, inr,
}
use agent_inference_ethden.Base.Int.{pos}
use agent_inference_ethden.World.{
  World, History, ctx_check, waited, transactions, waits, make_transact_opts,
}
use mathlib.Core.Path.{subst}
use agent_inference_ethden.Da.{Publisher, submit_to_da, attempt_loop, pause, exhausted, backoff}
use agent_inference_ethden.Da.Submit.{Submitted, submit_to_da-sends, submit_to_da-Submitted}

module _ (w : World) (p : Publisher) (payload : Bytes) where
  pause-transactions :
      (attempt : ℕ) (h : History)
      → transactions (pause w p.cfg.max_retries attempt h).1 ≡ transactions h
  unfolding pause
  pause-transactions attempt h = ground arith

  pub attempt_loop-sends :
      (left attempt : ℕ) (last : Option Error) (h : History)
      → length (transactions (attempt_loop w p payload left attempt last h).1)
        ≤ left + length (transactions h)
  unfolding attempt_loop
  attempt_loop-sends zero attempt last h = omega arith
  attempt_loop-sends (suc left) attempt last h =
      grind (arith, submit_to_da-sends w p payload, pause-transactions, attempt_loop-sends left)

  pub attempt_loop-Submitted :
      (left attempt : ℕ) (last : Option Error) (h : History) {id : String}
      → (attempt_loop w p payload left attempt last h).0 ≡ ok id
      → Submitted w p payload id (attempt_loop w p payload left attempt last h).1
  unfolding attempt_loop
  attempt_loop-Submitted zero attempt last h e = ground arith
  attempt_loop-Submitted (suc left) attempt last h e =
      grind (arith, submit_to_da-Submitted w p payload, attempt_loop-Submitted left)

-- The waits behind the attempts 0 to n - 1, the newest first.
abbrev pub schedule : ℕ → List ℕ
schedule zero = []
schedule (suc n) = backoff n ∷ schedule n

-- Neither the context nor a wait is ever ended by a cancellation.
pub record IsLive (w : World) : Type 0 where
  pub no_error : (h : History) → w.ctx_err h ≡ none
  pub full_wait : (h : History) (d : ℕ) → w.wait h d ≡ none

module _ (w : World) (p : Publisher) (payload : Bytes) where
  submit_to_da-waits : (h : History) → waits (submit_to_da w p payload h).1 ≡ waits h
  unfolding submit_to_da make_transact_opts
  submit_to_da-waits h = ground arith

  pause-waits : (max attempt : ℕ) (h : History) → IsLive w → (pause w (pos max) attempt h).0 ≡ ok tt
  unfolding pause
  pause-waits max attempt h live = ground (arith, live.full_wait h (backoff attempt))

  pause-schedule :
      (max attempt : ℕ) (h : History)
      → attempt < max
      → waits (pause w (pos max) attempt h).1 ≡ backoff attempt ∷ waits h
  unfolding pause
  pause-schedule max attempt h live = ground arith

  pause-history :
      (max attempt : ℕ) (h : History)
      → attempt < max
      → (pause w (pos max) attempt h).1 ≡ waited (backoff attempt) ∷ h
  unfolding pause
  pause-history max attempt h live = ground arith

  pause_last : (max attempt : ℕ) (h : History) → max ≤ attempt → (pause w (pos max) attempt h).1 ≡ h
  unfolding pause
  pause_last max attempt h live = ground arith

-- Failed attempts one behind the other from a history on, the last one with this number, counted from
-- 0, this error and this history behind it.
pub data Attempts (w : World) (p : Publisher) (payload : Bytes) (g : History)
    : ℕ → Error → History → Type 0 where
  first_attempt :
      (e : Error)
      → (submit_to_da w p payload (ctx_check ∷ g)).0 ≡ err e
      → Attempts w p payload g 0 e (submit_to_da w p payload (ctx_check ∷ g)).1
  next_attempt :
      {n : ℕ} {before : Error} {h : History} (e : Error)
      → Attempts w p payload g n before h
      → (submit_to_da w p payload (ctx_check ∷ waited (backoff n) ∷ h)).0 ≡ err e
      → Attempts w p payload g
          (suc n)
          e
          (submit_to_da w p payload (ctx_check ∷ waited (backoff n) ∷ h)).1

module _ (w : World) (p : Publisher) (payload : Bytes) (g : History) where
  -- The history in which the attempt of a number begins.
  abbrev IsBegun : ℕ → History → Type 0
  IsBegun zero h = h ≡ g
  IsBegun (suc n) h =
      (e : Error) × (before : History) × Attempts w p payload g n e before
      × (h ≡ waited (backoff n) ∷ before)

  IsBegun-fails :
      (n : ℕ) (h : History) (c : Error)
      → IsBegun n h
      → (submit_to_da w p payload (ctx_check ∷ h)).0 ≡ err c
      → Attempts w p payload g n c (submit_to_da w p payload (ctx_check ∷ h)).1
  IsBegun-fails zero h c b f =
      subst
        (λ x.
          (submit_to_da w p payload (ctx_check ∷ x)).0 ≡ err c
          → Attempts w p payload g 0 c (submit_to_da w p payload (ctx_check ∷ x)).1)
        (sym b) (first_attempt c) f
  IsBegun-fails (suc n) h c (e, before, a, b) f =
      subst
        (λ x.
          (submit_to_da w p payload (ctx_check ∷ x)).0 ≡ err c
          → Attempts w p payload g (suc n) c (submit_to_da w p payload (ctx_check ∷ x)).1)
        (sym b) (next_attempt c a) f

module _ (w : World) (p : Publisher) (payload : Bytes) (max : ℕ) (live : IsLive w) where
  abbrev submitted : History → History
  submitted h = (submit_to_da w p payload (ctx_check ∷ h)).1

  attempt_loop-failed :
      (left attempt : ℕ) (last : Option Error) (h : History) {c : Error}
      → (submit_to_da w p payload (ctx_check ∷ h)).0 ≡ err c
      → p.cfg.max_retries ≡ pos max
      → attempt_loop w p payload (suc left) attempt last h
        ≡ attempt_loop w p payload left
            (suc attempt)
            (some c)
            (pause w (pos max) attempt (submitted h)).1
  unfolding attempt_loop
  attempt_loop-failed left attempt last h f m =
      ground (arith, live.no_error h, pause-waits w p payload max attempt (submitted h) live)

  attempt_loop-ok :
      (left attempt : ℕ) (last : Option Error) (h : History) {id : String}
      → (submit_to_da w p payload (ctx_check ∷ h)).0 ≡ ok id
      → (attempt_loop w p payload (suc left) attempt last h).0 ≡ ok id
  unfolding attempt_loop
  attempt_loop-ok left attempt last h f = ground (arith, live.no_error h)

  -- Every attempt but the last is followed by its wait, and the last error is the cause.
  pub attempt_loop-exhausts :
      (left attempt : ℕ) (last : Option Error) (g h : History) (ws : List ℕ) {e : Error}
      → p.cfg.max_retries ≡ pos max
      → attempt + left ≡ max
      → waits h ≡ schedule attempt ++ ws
      → IsBegun w p payload g attempt h
      → (attempt_loop w p payload (suc left) attempt last h).0 ≡ err e
      → (last_error : Error) × (e ≡ exhausted (pos max) (some last_error))
        × (waits (attempt_loop w p payload (suc left) attempt last h).1 ≡ schedule max ++ ws)
        × Attempts w p payload g max last_error
            (attempt_loop w p payload (suc left) attempt last h).1
  unfolding attempt_loop
  attempt_loop-exhausts zero attempt last g h ws m a v begun f =
      elim (Result-cases (submit_to_da w p payload (ctx_check ∷ h)).0) [
        | inl (id, q) ↦ cc (attempt_loop-ok zero attempt last h q)
        | inr (c, q) ↦
            let same : attempt ≡ max = omega arith in
            let step = attempt_loop-failed zero attempt last h q m in
            let stop = pause_last w p payload max attempt (submitted h) (omega arith) in
            let kept = submit_to_da-waits w p payload (ctx_check ∷ h) in
            let failed = IsBegun-fails w p payload g attempt h c begun q in
            let stopped = ap (λ x. x.1) step ∙ stop in
            (
              c,
              ground arith,
              ground (arith, ap schedule same),
              subst (λ n. Attempts w p payload g n c (attempt_loop w p payload 1 attempt last h).1)
                  same (subst (Attempts w p payload g attempt c) (sym stopped) failed),
            )
      ]
  attempt_loop-exhausts (suc left) attempt last g h ws m a v begun f =
      elim (Result-cases (submit_to_da w p payload (ctx_check ∷ h)).0) [
        | inl (id, q) ↦ cc (attempt_loop-ok (suc left) attempt last h q)
        | inr (c, q) ↦
            let next = (pause w (pos max) attempt (submitted h)).1 in
            let step = attempt_loop-failed (suc left) attempt last h q m in
            rw step (
              attempt_loop-exhausts left (suc attempt) (some c) g next ws m (omega arith)
                (ground (
                  arith,
                  pause-schedule w p payload max attempt (submitted h),
                  submit_to_da-waits w p payload (ctx_check ∷ h),
                ))
                (
                  c,
                  submitted h,
                  IsBegun-fails w p payload g attempt h c begun q,
                  pause-history w p payload max attempt (submitted h) (omega arith),
                )
                (rw step at f))
      ]
