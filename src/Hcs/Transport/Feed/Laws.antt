-- ===== src/Hcs/Transport/Feed/Laws.antt =====
-- The invariant of the message channel, over every order of the steps, and where it panics.
use mathlib.Core.List.{append_assoc, append-nil}
use agent_inference_ethden.Base.{
  ◌≤◌, ◌≡◌, ◌⊎◌, inl, inr, refl, sym, ◌∙◌, ap, true, false, List, [], ◌∷◌, ◌++◌, Bytes, length,
  length-append, append_snoc, length-snoc, arith,
}
use agent_inference_ethden.Hcs.Transport.Types.{HcsTransport}
use agent_inference_ethden.Hcs.Transport.Feed.{
  Callback, idle, entering, blocked, Feed, up, unsubscribed, closed, new_feed, freed, settled,
  end_context, Step, calls_back, sends, panics, gives_up, blocks, takes, cancels, unsubscribes,
  closes, Steps, no_step, and_step,
}

abbrev pub holding : Callback → List Bytes
holding idle = []
holding (entering message) = message ∷ []
holding (blocked message) = message ∷ []

-- What is in the channel after a receive, with what the callback holds then, is the same.
freed-holding : (c : Callback) → freed c ++ holding (settled c) ≡ holding c
freed-holding idle = refl
freed-holding (entering message) = refl
freed-holding (blocked message) = refl

length-freed : (c : Callback) → length (freed c) ≤ 1
length-freed idle = omega arith
length-freed (entering message) = omega arith
length-freed (blocked message) = omega arith

module _ (t : HcsTransport) where
  pub record IsOrderly (s : Feed) : Type 0 where
    pub bounded : length s.messages ≤ t.message_buffer
    pub fifo : s.delivered ≡ s.taken ++ s.messages
    pub lossless : (s.ended ≡ true) ⊎ (s.called ≡ s.delivered ++ holding s.callback)
    pub closed_late : (s.stage ≡ up) ⊎ (s.ended ≡ true)
    pub safe : (s.ended ≡ true) ⊎ (s.panicked ≡ false)

  called-on :
      (r : Feed) (m : Bytes)
      → r.callback ≡ idle
      → IsOrderly r
      → (r.ended ≡ true) ⊎ (r.called ++ m ∷ [] ≡ r.delivered ++ m ∷ [])
  called-on r m free i = elim i.lossless [
    | inl e ↦ inl e
    | inr same ↦ inr (
        ap (λ l. l ++ m ∷ [])
          (same ∙ ap (λ h. r.delivered ++ holding h) free ∙ append-nil r.delivered))
  ]

  delivered-on :
      (r : Feed) (m : Bytes)
      → r.callback ≡ entering m
      → IsOrderly r
      → (r.ended ≡ true) ⊎ (r.called ≡ (r.delivered ++ m ∷ []) ++ [])
  delivered-on r m held i = elim i.lossless [
    | inl e ↦ inl e
    | inr same ↦
        inr (
          same ∙ ap (λ h. r.delivered ++ holding h) held ∙ sym (append-nil (r.delivered ++ m ∷ [])))
  ]

  blocked-on :
      (r : Feed) (m : Bytes)
      → r.callback ≡ entering m
      → IsOrderly r
      → (r.ended ≡ true) ⊎ (r.called ≡ r.delivered ++ m ∷ [])
  blocked-on r m held i = elim i.lossless [
    | inl e ↦ inl e
    | inr same ↦ inr (same ∙ ap (λ h. r.delivered ++ holding h) held)
  ]

  settled-on :
      (r : Feed)
      → IsOrderly r
      → (r.ended ≡ true)
        ⊎ (r.called ≡ (r.delivered ++ freed r.callback) ++ holding (settled r.callback))
  settled-on r i = elim i.lossless [
    | inl e ↦ inl e
    | inr same ↦ inr (
        same
        ∙ ap (λ l. r.delivered ++ l) (sym (freed-holding r.callback))
        ∙ sym (append_assoc r.delivered (freed r.callback) (holding (settled r.callback))))
  ]

  taken-on :
      (r : Feed) (m : Bytes) (rest : List Bytes)
      → r.messages ≡ m ∷ rest
      → IsOrderly r
      → r.delivered ++ freed r.callback ≡ (r.taken ++ m ∷ []) ++ (rest ++ freed r.callback)
  taken-on r m rest q i =
      let more = freed r.callback in
      ap (λ l. l ++ more)
        (i.fifo ∙ ap (λ l. r.taken ++ l) q ∙ sym (append_assoc r.taken (m ∷ []) rest))
      ∙ append_assoc (r.taken ++ m ∷ []) rest more

  closed-IsEnded : (r : Feed) → r.stage ≡ closed → IsOrderly r → r.ended ≡ true
  closed-IsEnded r c i = elim i.closed_late [ inl u ↦ ground arith | inr e ↦ e ]

  pub Step-IsOrderly : {r s : Feed} → Step t r s → IsOrderly r → IsOrderly s
  Step-IsOrderly (calls_back r m u free) i = record {
    bounded = i.bounded;
    fifo = i.fifo;
    lossless = called-on r m free i;
    closed_late = i.closed_late;
    safe = i.safe;
  }
  Step-IsOrderly (sends r m held open_yet room) i = record {
    bounded = length-snoc r.messages m room;
    fifo = append_snoc r.taken r.messages m i.fifo;
    lossless = delivered-on r m held i;
    closed_late = i.closed_late;
    safe = i.safe;
  }
  Step-IsOrderly (panics r m held c) i = record {
    bounded = i.bounded;
    fifo = i.fifo;
    lossless = i.lossless;
    closed_late = i.closed_late;
    safe = inl (closed-IsEnded r c i);
  }
  Step-IsOrderly (gives_up r m held e) i = record {
    bounded = i.bounded;
    fifo = i.fifo;
    lossless = inl e;
    closed_late = i.closed_late;
    safe = i.safe;
  }
  Step-IsOrderly (blocks r m held open_yet full live) i = record {
    bounded = i.bounded;
    fifo = i.fifo;
    lossless = blocked-on r m held i;
    closed_late = i.closed_late;
    safe = i.safe;
  }
  Step-IsOrderly (takes r m rest q) i = record {
    bounded = omega (
      arith,
      i.bounded,
      ap (λ (l : List Bytes). length l) q,
      length-append rest (freed r.callback),
      length-freed r.callback,
    );
    fifo = taken-on r m rest q i;
    lossless = settled-on r i;
    closed_late = i.closed_late;
    safe = i.safe;
  }
  Step-IsOrderly (cancels r) i = record {
    bounded = i.bounded;
    fifo = i.fifo;
    lossless = inl refl;
    closed_late = inr refl;
    safe = inl refl;
  }
  Step-IsOrderly (unsubscribes r u e) i = record {
    bounded = i.bounded;
    fifo = i.fifo;
    lossless = i.lossless;
    closed_late = inr e;
    safe = i.safe;
  }
  Step-IsOrderly (closes r u) i = record {
    bounded = i.bounded;
    fifo = i.fifo;
    lossless = i.lossless;
    closed_late = elim i.closed_late [ inl v ↦ ground arith | inr e ↦ inr e ];
    safe = i.safe;
  }

  pub new_feed-IsOrderly : IsOrderly new_feed
  unfolding new_feed
  new_feed-IsOrderly = record {
    bounded = omega arith;
    fifo = refl;
    lossless = inr refl;
    closed_late = inl refl;
    safe = inr refl;
  }

  Steps-IsOrderly : {r s : Feed} → Steps t r s → IsOrderly r → IsOrderly s
  Steps-IsOrderly (no_step s) i = i
  Steps-IsOrderly (and_step before step) i = Step-IsOrderly step (Steps-IsOrderly before i)

  -- In every order of the steps, the message channel holds at most `messageBuffer` messages, and the
  -- reader takes them in the order in which they were put there. Until the context ends, the
  -- channel has got each message that the SDK called back with, once and in order, but for the one
  -- in a callback; the subscription is up, and no send has panicked.
  pub reached-IsOrderly : {s : Feed} → Steps t new_feed s → IsOrderly s
  reached-IsOrderly steps = Steps-IsOrderly steps new_feed-IsOrderly

  -- From every state in which the subscription is up and a callback has begun, but not yet come to its
  -- select, there are steps to a panic: the context ends, `Unsubscribe` returns, the channel is
  -- closed, and then the select chooses the send on it.
  pub panicked-reachable :
      (s : Feed) (message : Bytes)
      → s.stage ≡ up
      → s.callback ≡ entering message
      → (u : Feed) × Steps t s u × (u.panicked ≡ true)
  panicked-reachable s message u held =
      let e : settled s.callback ≡ entering message = ap settled held in
      let over = end_context s in
      let down = record over { stage = unsubscribed } in
      let shut = record down { stage = closed } in
      (
        record shut { panicked = true },
        and_step
            (and_step (and_step (and_step (no_step s) (cancels s)) (unsubscribes over u refl))
              (closes down refl))
            (panics shut message e refl),
        refl,
      )
