-- ===== src/Hcs/Transport/Loop.antt =====
-- The goroutine of a subscription in internal/hcs/transport.go: how it ends, and what it reports.
use agent_inference_ethden.Base.{
  ℕ, zero, suc, ◌+◌, ◌≤◌, ◌≡◌, ◌⊎◌, inl, inr, refl, ◌∙◌, ap, String, true, false, none, some, List,
  [], ◌∷◌, ◌++◌, Error, wrap, replicate, arith, Option-cases, Bool-cases,
}
use agent_inference_ethden.Base.Int.{ℤ, sub_ℕ}
use agent_inference_ethden.Hcs.Transport.{
  HcsTransport, Journal, Hiero, Phase, up, checked, clock_read, subscribed, unsubscribed, waited,
  reported, subscribe_once, lookback, report, pause, close, attempt_error, exhausted_error,
  reconnect_loop, run_subscription,
}

-- How often the transport asked the network for a subscription.
abbrev pub attempts : Journal → ℕ
attempts [] = 0
attempts (subscribed _ _ ∷ j) = suc (attempts j)
attempts (_ ∷ j) = attempts j

-- The waits between the attempts, the newest first.
abbrev pub waits : Journal → List ℕ
waits [] = []
waits (waited d ∷ j) = d ∷ waits j
waits (_ ∷ j) = waits j

-- The last thing done in `j` showed that the context has ended.
pub data SawEnd (o : Hiero) (j : Journal) : Type 0 where
  by_check : (i : Journal) (e : Error) → o.ctx_err i ≡ some e → j ≡ checked ∷ i → SawEnd o j
  by_wait : (i : Journal) (d : ℕ) (e : Error) → o.wait i d ≡ some e → j ≡ waited d ∷ i → SawEnd o j
  by_end : (i : Journal) → o.ends i ≡ true → j ≡ unsubscribed ∷ i → SawEnd o j

-- The last thing done in `j` started a subscription to the topic, whose context never ends.
pub record IsUp (o : Hiero) (tid : ℕ) (j : Journal) : Type 0 where
  pub before : Journal
  pub start : ℤ
  pub started : o.subscribe before tid start ≡ none
  pub last : j ≡ subscribed tid start ∷ before
  pub endless : o.ends j ≡ false

module _ (o : Hiero) (t : HcsTransport) (topic : String) (tid : ℕ) where
  -- How the goroutine may stand for good when it had `left` rounds left.
  pub data Ending (left : ℕ) (j : Journal) (r : Phase × Journal) : Type 0 where
    stays_up : IsUp o tid r.1 → r.0 ≡ up → attempts r.1 ≤ left + attempts j → Ending left j r
    cancelled :
        (k : Journal)
        → SawEnd o k
        → r ≡ close o t k
        → attempts k ≤ left + attempts j
        → Ending left j r
    exhausted :
        (k : Journal)
        → r ≡ close o t (report o t (exhausted_error o t topic) k)
        → attempts k ≡ left + attempts j
        → waits k ≡ replicate left t.reconnect_delay ++ waits j
        → Ending left j r

  -- A report is in the channel, or it was dropped.
  report-cases :
      (e : Error) (j : Journal) → (report o t e j ≡ j) ⊎ (report o t e j ≡ reported e ∷ j)
  unfolding report
  report-cases e j = ground arith

  abbrev pub start_at : Journal → ℤ
  start_at j = sub_ℕ (o.now (checked ∷ j)) lookback

  -- The journal when an attempt has asked for its subscription.
  abbrev pub asked : Journal → Journal
  asked j = subscribed tid (start_at j) ∷ clock_read ∷ checked ∷ j

  -- The journal behind an attempt that failed and was waited for.
  abbrev pub resumed : ℕ → Error → Journal → Journal
  resumed reconnects e j =
      waited t.reconnect_delay
      ∷ report o t (attempt_error o t topic reconnects (wrap "start subscription: " e))
          (checked ∷ asked j)

  resumed-attempts :
      (reconnects : ℕ) (e : Error) (j : Journal)
      → attempts (resumed reconnects e j) ≡ suc (attempts j)
  resumed-attempts reconnects e j =
      let why = attempt_error o t topic reconnects (wrap "start subscription: " e) in
      ground (arith, report-cases why (checked ∷ asked j))

  resumed-waits :
      (reconnects : ℕ) (e : Error) (j : Journal)
      → waits (resumed reconnects e j) ≡ t.reconnect_delay ∷ waits j
  resumed-waits reconnects e j =
      let why = attempt_error o t topic reconnects (wrap "start subscription: " e) in
      ground (arith, report-cases why (checked ∷ asked j))

  -- One round of the loop: it ends for good, or it comes to the next round behind its wait.
  data Round (left reconnects : ℕ) (j : Journal) : Type 0 where
    last :
        Ending (suc left) j (reconnect_loop o t topic tid (suc left) reconnects j)
        → Round left reconnects j
    next :
        (e : Error)
        → reconnect_loop o t topic tid (suc left) reconnects j
          ≡ reconnect_loop o t topic tid left (suc reconnects) (resumed reconnects e j)
        → Round left reconnects j

  reconnect_loop-Round : (left reconnects : ℕ) (j : Journal) → Round left reconnects j
  unfolding reconnect_loop pause subscribe_once
  reconnect_loop-Round left reconnects j = elim (Option-cases (o.ctx_err j)) [
    | inr (e, q) ↦ last (cancelled (checked ∷ j) (by_check j e q refl) (ground arith) (omega arith))
    | inl q ↦ elim (Option-cases (o.subscribe (clock_read ∷ checked ∷ j) tid (start_at j))) [
      | inl started ↦ elim (Bool-cases (o.ends (asked j))) [
        | inl b ↦ last (
            cancelled (unsubscribed ∷ asked j) (by_end (asked j) b refl) (ground arith)
              (omega arith))
        | inr b ↦ last (
            stays_up
              (record {
                before = clock_read ∷ checked ∷ j;
                start = start_at j;
                started = started;
                last = ground arith;
                endless = ground arith;
              })
              (ground arith) (ground arith))
      ]
      | inr (e, refused) ↦ elim (Option-cases (o.ctx_err (asked j))) [
        | inr (f, r) ↦ last (
            cancelled (checked ∷ asked j) (by_check (asked j) f r refl) (ground arith)
              (omega arith))
        | inl r ↦
            let why = attempt_error o t topic reconnects (wrap "start subscription: " e) in
            let before = report o t why (checked ∷ asked j) in
            elim (Option-cases (o.wait before t.reconnect_delay)) [
              | inr (f, x) ↦ last (
                  cancelled (waited t.reconnect_delay ∷ before)
                    (by_wait before t.reconnect_delay f x refl) (ground arith)
                    (omega (arith, resumed-attempts reconnects e j)))
              | inl x ↦ next e (ground arith)
            ]
      ]
    ]
  ]

  replicate-cons : (n d : ℕ) (ds : List ℕ) → replicate n d ++ d ∷ ds ≡ d ∷ (replicate n d ++ ds)
  replicate-cons zero d ds = refl
  replicate-cons (suc n) d ds = ap (λ l. d ∷ l) (replicate-cons n d ds)

  -- The ending of the later rounds is the ending of all.
  Ending-resumed :
      (left reconnects : ℕ) (e : Error) (j : Journal) {r : Phase × Journal}
      → Ending left (resumed reconnects e j) r
      → Ending (suc left) j r
  Ending-resumed left reconnects e j (stays_up i p n) =
      stays_up i p (omega (arith, resumed-attempts reconnects e j))
  Ending-resumed left reconnects e j (cancelled k i p n) =
      cancelled k i p (omega (arith, resumed-attempts reconnects e j))
  Ending-resumed left reconnects e j (exhausted k p n ws) =
      exhausted k p (omega (arith, resumed-attempts reconnects e j)) (
        ws
        ∙ ap (λ l. replicate left t.reconnect_delay ++ l) (resumed-waits reconnects e j)
        ∙ replicate-cons left t.reconnect_delay (waits j))

  reconnect_loop-Ending :
      (left reconnects : ℕ) (j : Journal)
      → Ending left j (reconnect_loop o t topic tid left reconnects j)
  reconnect_loop-Ending zero reconnects j = exhausted j reconnect_loop_done (omega arith) refl
    where
      reconnect_loop_done :
          reconnect_loop o t topic tid zero reconnects j
          ≡ close o t (report o t (exhausted_error o t topic) j)
      reconnect_loop_done = unfold reconnect_loop in refl
  reconnect_loop-Ending (suc left) reconnects j = elim (reconnect_loop-Round left reconnects j) [
    | last i ↦ i
    | next e same ↦ rw same (
        Ending-resumed left reconnects e j
          (reconnect_loop-Ending left (suc reconnects) (resumed reconnects e j)))
  ]

  -- The goroutine of a subscription asks for one at most as often as `maxReconnects` and once more.
  -- It stands inside the last one, if the network granted it and the context never ends; or it
  -- closes the channels behind the end of the context, or after exactly that many attempts and the
  -- reconnection delay behind each.
  pub run_subscription-Ending : Ending (suc t.max_reconnects) [] (run_subscription o t topic tid [])
  unfolding run_subscription
  run_subscription-Ending = reconnect_loop-Ending (suc t.max_reconnects) 0 []
