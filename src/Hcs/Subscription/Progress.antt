-- ===== src/Hcs/Subscription/Progress.antt =====
-- The main loop can always drain the task channel, so no task of a message is stuck before it.
use mathlib.Core.List.{append_assoc, append-nil}
use agent_inference_ethden.Base.{
  ◌≡◌, refl, sym, ◌∙◌, ap, some, List, [], ◌∷◌, ◌++◌, Bytes, length, arith,
}
use agent_inference_ethden.Hcs.{HandlerConfig, TaskAssignment, Codec, accepted}
use agent_inference_ethden.Hcs.Subscription.{
  receiving, sending, mode_of, Subscription, arrives, sends, takes, Steps, no_step, and_step,
}

module _ (codec : Codec) (cfg : HandlerConfig) where
  Steps-trans :
      {r s t : Subscription} → Steps codec cfg r s → Steps codec cfg s t → Steps codec cfg r t
  Steps-trans before (no_step s) = before
  Steps-trans before (and_step after step) = and_step (Steps-trans before after) step

  -- The main loop has taken all of the channel, and nothing else has happened.
  record IsDrained (s t : Subscription) : Type 0 where
    steps : Steps codec cfg s t
    empty : t.tasks ≡ []
    kept : t.mode ≡ s.mode
    taken : t.taken ≡ s.taken ++ s.tasks

  drain :
      (tasks : List TaskAssignment) (s : Subscription)
      → s.tasks ≡ tasks
      → (t : Subscription) × IsDrained s t
  drain [] s e = (
    s,
    record {
      steps = no_step s;
      empty = e;
      kept = refl;
      taken = sym (ap (λ l. s.taken ++ l) e ∙ append-nil s.taken);
    },
  )
  drain (task ∷ rest) s e =
      let s' : Subscription = record s { tasks = rest; taken = s.taken ++ task ∷ [] } in
      let (t, d) = drain rest s' refl in
      (
        t,
        record {
          steps = Steps-trans (and_step (no_step s) (takes s task rest e)) d.steps;
          empty = d.empty;
          kept = d.kept;
          taken = d.taken ∙ append_assoc s.taken (task ∷ []) rest ∙ sym (ap (λ l. s.taken ++ l) e);
        },
      )

  -- Wherever the channel stands, full or not, a message with a task for this agent that arrives in
  -- the select has a continuation in which the main loop takes all that is queued and then this
  -- task, and the subscription receives again.
  pub arrived-taken :
      (s : Subscription) (message : Bytes) (task : TaskAssignment)
      → s.mode ≡ receiving
      → accepted codec cfg message ≡ some task
      → (t : Subscription) × Steps codec cfg s t
        × (t.taken ≡ s.taken ++ s.tasks ++ task ∷ [])
        × (t.tasks ≡ [])
        × (t.mode ≡ receiving)
  arrived-taken s message task at_rest ours =
      let u : Subscription = record s {
        received = s.received ++ message ∷ [];
        mode = mode_of (accepted codec cfg message);
      } in
      let (v, d) = drain s.tasks u refl in
      let mode : v.mode ≡ sending task = d.kept ∙ ap mode_of ours in
      let x : Subscription = record v {
        tasks = v.tasks ++ task ∷ [];
        forwarded = v.forwarded ++ task ∷ [];
        queued = v.queued ++ task ∷ [];
        mode = receiving;
      } in
      let (t, f) = drain (v.tasks ++ task ∷ []) x refl in
      let room = ap (λ (l : List TaskAssignment). length l) d.empty in
      (
        t,
        Steps-trans (Steps-trans (and_step (no_step s) (arrives s message at_rest)) d.steps)
            (Steps-trans (and_step (no_step v) (sends v task mode (omega (arith, room)))) f.steps),
        f.taken
            ∙ ap (λ l. l ++ (v.tasks ++ task ∷ [])) d.taken
            ∙ ap (λ l. (s.taken ++ s.tasks) ++ (l ++ task ∷ [])) d.empty,
        f.empty,
        f.kept,
      )
