-- ===== src/Hcs/Subscription/Laws.antt =====
-- The invariant of the task channel, over every order of the steps.
use mathlib.Core.List.{append_assoc, append-nil}
use agent_inference_ethden.Base.{
  ◌≤◌, ◌≡◌, refl, sym, ◌∙◌, ap, Bool, true, false, Option, none, some, List, [], ◌∷◌, ◌++◌, Bytes,
  Error, sentinel, wrap, subscription_failed, length, append_snoc, length-snoc, arith, ◌⊎◌, inl,
  inr,
}
use agent_inference_ethden.Hcs.{HandlerConfig, TaskAssignment, Codec, accepted}
use agent_inference_ethden.Hcs.Subscription.{
  capacity, Mode, receiving, sending, returned, Subscription, new_handler, Step, arrives, sends,
  gives_up, hands, takes, cancels, stops, fails, closes, Steps, no_step, and_step, mode_of,
}

-- The third list is an interleaving of the other two.
pub data Merge {A : Type 0} : List A → List A → List A → Type 0 where
  nothing : Merge [] [] []
  from_left : {xs ys zs : List A} (a : A) → Merge xs ys zs → Merge (xs ++ a ∷ []) ys (zs ++ a ∷ [])
  from_right : {xs ys zs : List A} (a : A) → Merge xs ys zs → Merge xs (ys ++ a ∷ []) (zs ++ a ∷ [])

abbrev pub in_flight : Mode → List TaskAssignment
in_flight receiving = []
in_flight (sending task) = task ∷ []
in_flight (returned _) = []

-- The error of a subscription that the transport's report has ended.
abbrev pub report_error : Error
report_error = wrap "hcs: subscription error: " (sentinel subscription_failed)

module _ (codec : Codec) (cfg : HandlerConfig) where
  abbrev optional : Option TaskAssignment → List TaskAssignment
  optional none = []
  optional (some task) = task ∷ []

  -- The tasks that a sequence of messages assigns to this agent.
  abbrev pub assignments : List Bytes → List TaskAssignment
  assignments [] = []
  assignments (m ∷ ms) = optional (accepted codec cfg m) ++ assignments ms

  pub assignments-append :
      (xs ys : List Bytes) → assignments (xs ++ ys) ≡ assignments xs ++ assignments ys
  assignments-append [] ys = refl
  assignments-append (x ∷ xs) ys =
      ap (λ l. optional (accepted codec cfg x) ++ l) (assignments-append xs ys)
      ∙ sym (append_assoc (optional (accepted codec cfg x)) (assignments xs) (assignments ys))

  -- The context has ended.
  abbrev pub IsEnded : Subscription → Type 0
  IsEnded s = (e : Error) × (s.ended ≡ some e)

  pub record IsOrderly (s : Subscription) : Type 0 where
    pub bounded : length s.tasks ≤ capacity
    pub fifo : s.queued ≡ s.taken ++ s.tasks
    pub merged : Merge s.forwarded s.handed s.queued
    pub lossless : IsEnded s ⊎ (assignments s.received ≡ s.forwarded ++ in_flight s.mode)

  pub new_handler-IsOrderly : (has_channel : Bool) → IsOrderly (new_handler has_channel)
  unfolding new_handler
  new_handler-IsOrderly true = record {
    bounded = omega arith;
    fifo = refl;
    merged = nothing;
    lossless = inr refl;
  }
  new_handler-IsOrderly false = record {
    bounded = omega arith;
    fifo = refl;
    merged = nothing;
    lossless = inr refl;
  }

  in_flight-mode_of : (o : Option TaskAssignment) → in_flight (mode_of o) ≡ optional o
  in_flight-mode_of none = refl
  in_flight-mode_of (some task) = refl

  at_rest :
      (s : Subscription)
      → s.mode ≡ receiving
      → IsOrderly s
      → IsEnded s ⊎ (assignments s.received ≡ s.forwarded)
  at_rest s m i = elim i.lossless [
    | inl e ↦ inl e
    | inr same ↦ inr (same ∙ ap (λ x. s.forwarded ++ in_flight x) m ∙ append-nil s.forwarded)
  ]

  arrival :
      (s : Subscription) (m : Bytes)
      → s.mode ≡ receiving
      → IsOrderly s
      → IsEnded s
        ⊎ (assignments (s.received ++ m ∷ [])
            ≡ s.forwarded ++ in_flight (mode_of (accepted codec cfg m)))
  arrival s m r i =
      let tasks = optional (accepted codec cfg m) in
      elim (at_rest s r i) [
        | inl e ↦ inl e
        | inr same ↦ inr (
            assignments-append s.received (m ∷ [])
            ∙ ap (λ l. l ++ (tasks ++ [])) same
            ∙ ap (λ l. s.forwarded ++ l)
                (append-nil tasks ∙ sym (in_flight-mode_of (accepted codec cfg m))))
      ]

  to_rest :
      (s : Subscription)
      → s.mode ≡ receiving
      → IsOrderly s
      → IsEnded s ⊎ (assignments s.received ≡ s.forwarded ++ [])
  to_rest s m i = elim (at_rest s m i) [
    | inl e ↦ inl e
    | inr same ↦ inr (same ∙ sym (append-nil s.forwarded))
  ]

  delivery :
      (s : Subscription) (task : TaskAssignment)
      → s.mode ≡ sending task
      → IsOrderly s
      → IsEnded s ⊎ (assignments s.received ≡ (s.forwarded ++ task ∷ []) ++ [])
  delivery s task m i = elim i.lossless [
    | inl e ↦ inl e
    | inr same ↦ inr (
        same ∙ ap (λ x. s.forwarded ++ in_flight x) m ∙ sym (append-nil (s.forwarded ++ task ∷ [])))
  ]

  pub Step-IsOrderly : {s t : Subscription} → Step codec cfg s t → IsOrderly s → IsOrderly t
  Step-IsOrderly (arrives s m r) i = record {
    bounded = i.bounded;
    fifo = i.fifo;
    merged = i.merged;
    lossless = arrival s m r i;
  }
  Step-IsOrderly (sends s task m r) i = record {
    bounded = length-snoc s.tasks task r;
    fifo = append_snoc s.taken s.tasks task i.fifo;
    merged = from_left task i.merged;
    lossless = delivery s task m i;
  }
  Step-IsOrderly (gives_up s task e m f) i = record {
    bounded = i.bounded;
    fifo = i.fifo;
    merged = i.merged;
    lossless = inl (e, f);
  }
  Step-IsOrderly (hands s task r) i = record {
    bounded = length-snoc s.tasks task r;
    fifo = append_snoc s.taken s.tasks task i.fifo;
    merged = from_right task i.merged;
    lossless = i.lossless;
  }
  Step-IsOrderly (takes s task rest q) i = record {
    bounded = omega (arith, i.bounded, ap (λ l. length l) q);
    fifo = i.fifo ∙ ap (λ l. s.taken ++ l) q ∙ sym (append_assoc s.taken (task ∷ []) rest);
    merged = i.merged;
    lossless = i.lossless;
  }
  Step-IsOrderly (cancels s e q) i = record {
    bounded = i.bounded;
    fifo = i.fifo;
    merged = i.merged;
    lossless = inl (e, refl);
  }
  Step-IsOrderly (stops s e m q) i = record {
    bounded = i.bounded;
    fifo = i.fifo;
    merged = i.merged;
    lossless = to_rest s m i;
  }
  Step-IsOrderly (fails s m) i = record {
    bounded = i.bounded;
    fifo = i.fifo;
    merged = i.merged;
    lossless = to_rest s m i;
  }
  Step-IsOrderly (closes s m) i = record {
    bounded = i.bounded;
    fifo = i.fifo;
    merged = i.merged;
    lossless = to_rest s m i;
  }

  Steps-IsOrderly : {s t : Subscription} → Steps codec cfg s t → IsOrderly s → IsOrderly t
  Steps-IsOrderly (no_step s) i = i
  Steps-IsOrderly (and_step before step) i = Step-IsOrderly step (Steps-IsOrderly before i)

  -- In every order of the steps, the channel holds at most 16 tasks, the main loop takes the tasks
  -- in the order in which they were put there, those are an interleaving of what the subscription
  -- forwarded with what `HandleTask` was handed, and until the context ends the subscription has
  -- forwarded each task of a message that is for this agent once and in the order of arrival, but
  -- for the one that it is about to send.
  pub reachable-IsOrderly :
      (has_channel : Bool) {t : Subscription}
      → Steps codec cfg (new_handler has_channel) t
      → IsOrderly t
  reachable-IsOrderly has_channel steps = Steps-IsOrderly steps (new_handler-IsOrderly has_channel)

  Step-returned :
      {s t : Subscription}
      → Step codec cfg s t
      → (r : Option Error) → s.mode ≡ returned r
      → (t.received ≡ s.received) × (t.forwarded ≡ s.forwarded) × (t.mode ≡ returned r)
  Step-returned (arrives s m q) r e = ground arith
  Step-returned (sends s task m q) r e = ground arith
  Step-returned (gives_up s task x m f) r e = ground arith
  Step-returned (hands s task q) r e = (refl, refl, e)
  Step-returned (takes s task rest q) r e = (refl, refl, e)
  Step-returned (cancels s x q) r e = (refl, refl, e)
  Step-returned (stops s x m q) r e = ground arith
  Step-returned (fails s m) r e = ground arith
  Step-returned (closes s m) r e = ground arith

  returned-final :
      {s t : Subscription}
      → Steps codec cfg s t
      → (r : Option Error) → s.mode ≡ returned r
      → (t.received ≡ s.received) × (t.forwarded ≡ s.forwarded) × (t.mode ≡ returned r)
  returned-final (no_step s) r e = (refl, refl, e)
  returned-final (and_step before step) r e =
      let (same, put, mode) = returned-final before r e in
      let (same', put', mode') = Step-returned step r mode in (same' ∙ same, put' ∙ put, mode')

  -- A subscription that waits in its select, whether or not the context has ended, can be ended by an
  -- error of the transport, with `ErrSubscriptionFailed`; and behind that, in no order of the later
  -- steps does it receive or forward anything more, or come back.
  pub reported-final :
      (s : Subscription)
      → s.mode ≡ receiving
      → (t : Subscription) × Step codec cfg s t
        × (t.mode ≡ returned (some report_error))
        × ((u : Subscription)
            → Steps codec cfg t u
            → (u.received ≡ s.received)
              × (u.forwarded ≡ s.forwarded)
              × (u.mode ≡ returned (some report_error)))
  reported-final s m = (
    record s { mode = returned (some report_error) },
    fails s m,
    refl,
    λ u steps. returned-final steps (some report_error) refl,
  )
