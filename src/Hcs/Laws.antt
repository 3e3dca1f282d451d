-- ===== src/Hcs/Laws.antt =====
-- What the handler publishes on each branch, and its filter.
use agent_inference_ethden.Base.{
  ℕ, ◌+◌, ◌%◌, ◌^◌, ◌≡◌, ◌↔◌, ◌⊎◌, inl, inr, refl, String, some, ◌∷◌, Bytes, Error, sentinel, wrap,
  ◌<>◌, Result, ok, err, cause, publish_failed, arith, Option-cases, Result-cases, Bool-cases,
  eq_iff, str_eq,
}
use agent_inference_ethden.World.{World, publications, ctx_check, clock_read}
use agent_inference_ethden.Hcs.{
  Envelope, TaskAssignment, TaskResult, HealthStatus, HandlerConfig, Codec, Sender, publish_result,
  publish_health, accepted, task_assignment, task_result, heartbeat,
}

-- How a publication from a state may end with a result in another: before it took a sequence
-- number, before its envelope was bytes, or with one message handed to the transport, whose payload
-- is `encoded`.
pub data Outcome (codec : Codec) (topic : String) (encoded : Result Bytes)
    (envelope : ℕ → ℕ → Bytes → Envelope) (s : Sender) (r : Result {0} Unit) (t : Sender)
    : Type 0 where
  unnumbered :
      (e : Error)
      → r ≡ err e
      → t.seq_num ≡ s.seq_num
      → publications t.history ≡ publications s.history
      → Outcome codec topic encoded envelope s r t
  unwritten :
      (e : Error)
      → r ≡ err e
      → t.seq_num ≡ (s.seq_num + 1) % 2 ^ 64
      → publications t.history ≡ publications s.history
      → Outcome codec topic encoded envelope s r t
  handed_over :
      (at : ℕ) (payload message : Bytes)
      → encoded ≡ ok payload
      → codec.marshal_envelope (envelope t.seq_num at payload) ≡ ok message
      → t.seq_num ≡ (s.seq_num + 1) % 2 ^ 64
      → publications t.history ≡ (topic, message) ∷ publications s.history
      → (r ≡ ok tt) ⊎ ((e : Error) × (r ≡ err e) × (cause e ≡ some publish_failed))
      → Outcome codec topic encoded envelope s r t

abbrev pub result_envelope : HandlerConfig → TaskResult → ℕ → ℕ → Bytes → Envelope
result_envelope cfg result n at payload = record {
  type = task_result;
  sender = cfg.agent_id;
  recipient = "";
  task_id = result.task_id;
  sequence_num = n;
  timestamp = at;
  payload = payload;
}

abbrev pub health_envelope : HandlerConfig → ℕ → ℕ → Bytes → Envelope
health_envelope cfg n at payload = record {
  type = heartbeat;
  sender = cfg.agent_id;
  recipient = "";
  task_id = "";
  sequence_num = n;
  timestamp = at;
  payload = payload;
}

module _ (w : World) (codec : Codec) (cfg : HandlerConfig) where
  -- `PublishResult` fails before it takes a sequence number, or takes the next one and fails to encode
  -- the envelope, or hands exactly one message to the transport: the envelope of the result with
  -- this number, and the result as its payload. Then it succeeds, or fails with `ErrPublishFailed`.
  pub publish_result-Outcome :
      (result : TaskResult) (s : Sender)
      → let (r, t) = publish_result w codec cfg result s in
        Outcome codec cfg.result_topic_id
          (codec.marshal_result result)
          (result_envelope cfg result)
          s
          r
          t
  unfolding publish_result
  publish_result-Outcome result s =
      let n = (s.seq_num + 1) % 2 ^ 64 in
      let h = ctx_check ∷ s.history in
      let at = w.now h in
      elim (Option-cases (w.ctx_err s.history)) [
        | inr (e, q) ↦
            unnumbered (wrap "hcs: context cancelled before publish result: " e) (ground arith)
              (ground arith) (ground arith)
        | inl live ↦ elim (Result-cases (codec.marshal_result result)) [
          | inr (e, q) ↦
              unnumbered (wrap "hcs: failed to marshal result: " e) (ground arith) (ground arith)
                (ground arith)
          | inl (payload, q) ↦
              elim (Result-cases
                (codec.marshal_envelope (result_envelope cfg result n at payload))) [
                  | inr (e, r) ↦
                      unwritten (wrap "hcs: failed to marshal envelope: " e) (ground arith)
                        (ground arith) (ground arith)
                  | inl (message, r) ↦
                      handed_over at payload message q (ground arith) (ground arith) (ground arith)
                        (elim (Option-cases
                          (w.hcs_publish (clock_read ∷ h) cfg.result_topic_id message)) [
                            | inl p ↦ inl (ground arith)
                            | inr (e, p) ↦ inr (
                              wrap
                                  ("hcs: failed to publish result for task " <> result.task_id
                                    <> ": ")
                                  (sentinel publish_failed),
                              ground arith,
                              refl,
                            )
                          ])
                ]
        ]
      ]

  -- `PublishHealth` fails before it takes a sequence number, or takes the next one and fails to
  -- encode the envelope, or hands exactly one message to the transport: a heartbeat with this
  -- number, and the status as its payload. Then it succeeds, or fails with `ErrPublishFailed`.
  pub publish_health-Outcome :
      (status : HealthStatus) (s : Sender)
      → let (r, t) = publish_health w codec cfg status s in
        Outcome codec cfg.result_topic_id (codec.marshal_health status) (health_envelope cfg) s r t
  unfolding publish_health
  publish_health-Outcome status s =
      let n = (s.seq_num + 1) % 2 ^ 64 in
      let h = ctx_check ∷ s.history in
      let at = w.now h in
      elim (Option-cases (w.ctx_err s.history)) [
        | inr (e, q) ↦
            unnumbered (wrap "hcs: context cancelled before publish health: " e) (ground arith)
              (ground arith) (ground arith)
        | inl live ↦ elim (Result-cases (codec.marshal_health status)) [
          | inr (e, q) ↦
              unnumbered (wrap "hcs: failed to marshal health status: " e) (ground arith)
                (ground arith) (ground arith)
          | inl (payload, q) ↦
              elim (Result-cases (codec.marshal_envelope (health_envelope cfg n at payload))) [
                | inr (e, r) ↦
                    unwritten (wrap "hcs: failed to marshal envelope: " e) (ground arith)
                      (ground arith) (ground arith)
                | inl (message, r) ↦
                    handed_over at payload message q (ground arith) (ground arith) (ground arith)
                      (elim (Option-cases
                        (w.hcs_publish (clock_read ∷ h) cfg.result_topic_id message)) [
                          | inl p ↦ inl (ground arith)
                          | inr (e, p) ↦ inr (
                            wrap "hcs: failed to publish health: " (sentinel publish_failed),
                            ground arith,
                            refl,
                          )
                        ])
              ]
        ]
      ]

module _ (codec : Codec) (cfg : HandlerConfig) where
  -- The messages that `processMessage` forwards are the envelopes of type task_assignment, to this
  -- agent or to nobody in particular, whose payload is a task; the task is that payload.
  pub accepted_lem :
      (message : Bytes) (task : TaskAssignment)
      → (accepted codec cfg message ≡ some task) ↔ (
          (env : Envelope) × (codec.unmarshal_envelope message ≡ ok env)
          × (env.type ≡ task_assignment)
          × ((env.recipient ≡ "") ⊎ (env.recipient ≡ cfg.agent_id))
          × (codec.unmarshal_task env.payload ≡ ok task))
  unfolding accepted
  accepted_lem message task = (
    λ e. elim (Result-cases (codec.unmarshal_envelope message)) [
      | inr (f, q) ↦ ground arith
      | inl (env, q) ↦ elim (Result-cases (codec.unmarshal_task env.payload)) [
        | inr (f, r) ↦ ground arith
        | inl (t, r) ↦ (
          env,
          q,
          ground (arith, eq_iff env.type task_assignment),
          elim (Bool-cases (str_eq env.recipient "")) [
            | inl b ↦ inl ((eq_iff env.recipient "").0 b)
            | inr b ↦ inr (ground (arith, eq_iff env.recipient cfg.agent_id))
          ],
          ground arith,
        )
      ]
    ],
    λ (env, q, t, for_us, r). elim for_us [
      | inl b ↦ ground (arith, eq_iff env.type task_assignment, eq_iff env.recipient "")
      | inr b ↦ ground (arith, eq_iff env.type task_assignment, eq_iff env.recipient cfg.agent_id)
    ],
  )
