-- ===== src/Hcs/Sent.antt =====
-- What a successful publication of internal/hcs/handler.go handed to the transport.
use agent_inference_ethden.Base.{
  ℕ, ◌+◌, ◌%◌, ◌^◌, ◌<◌, ◌≡◌, inl, inr, ok, none, ◌∷◌, String, Bytes, Result-cases, Option-cases,
  arith,
}
use agent_inference_ethden.World.{World, History, ctx_check, clock_read}
use agent_inference_ethden.Hcs.{HandlerConfig, TaskResult, Codec, Sender, publish_result}
use agent_inference_ethden.Hcs.Laws.{result_envelope}

-- The transport took the envelope of the result.
pub record IsSent (w : World) (codec : Codec) (cfg : HandlerConfig) (result : TaskResult)
    : Type 0 where
  pub before : History
  pub number : ℕ
  pub at : ℕ
  pub payload : Bytes
  pub message : Bytes
  pub encoded : codec.marshal_result result ≡ ok payload
  pub written : codec.marshal_envelope (result_envelope cfg result number at payload) ≡ ok message
  pub taken : w.hcs_publish before cfg.result_topic_id message ≡ none

module _ (w : World) (codec : Codec) (cfg : HandlerConfig) where
  pub publish_result-IsSent :
      (result : TaskResult) (s : Sender)
      → (publish_result w codec cfg result s).0 ≡ ok tt
      → IsSent w codec cfg result
  unfolding publish_result
  publish_result-IsSent result s e =
      let n = (s.seq_num + 1) % 2 ^ 64 in
      let h = ctx_check ∷ s.history in
      elim (Option-cases (w.ctx_err s.history)) [
        | inr (f, q) ↦ ground arith
        | inl live ↦ elim (Result-cases (codec.marshal_result result)) [
          | inr (f, q) ↦ ground arith
          | inl (payload, q) ↦
              elim (Result-cases
                (codec.marshal_envelope (result_envelope cfg result n (w.now h) payload))) [
                  | inr (f, r) ↦ ground arith
                  | inl (message, r) ↦
                      elim (Option-cases
                        (w.hcs_publish (clock_read ∷ h) cfg.result_topic_id message)) [
                          | inr (f, p) ↦ ground arith
                          | inl p ↦ record {
                            before = clock_read ∷ h;
                            number = n;
                            at = w.now h;
                            payload = payload;
                            message = message;
                            encoded = q;
                            written = r;
                            taken = p;
                          }
                        ]
                ]
        ]
      ]

-- The nanoseconds from the zero time to the year 10000, from which on JSON refuses a time.
abbrev pub year_10000 : ℕ
year_10000 = 315_537_897_600_000_000_000

-- The context lives, the clock is before the year 10000, the transport takes each message, and JSON
-- encodes each result, and each result's envelope with such a time.
pub record IsOpen (w : World) (codec : Codec) (cfg : HandlerConfig) : Type 0 where
  pub live : (h : History) → w.ctx_err h ≡ none
  pub results : (r : TaskResult) → (b : Bytes) × (codec.marshal_result r ≡ ok b)
  pub clock : (h : History) → w.now h < year_10000
  pub envelopes :
      (result : TaskResult) (n at : ℕ) (payload : Bytes)
      → codec.marshal_result result ≡ ok payload
      → at < year_10000
      → (b : Bytes) × (codec.marshal_envelope (result_envelope cfg result n at payload) ≡ ok b)
  pub takes :
      (h : History) (topic : String) (message : Bytes) → w.hcs_publish h topic message ≡ none

module _ (w : World) (codec : Codec) (cfg : HandlerConfig) (is_open : IsOpen w codec cfg) where
  pub publish_result-ok :
      (result : TaskResult) (s : Sender) → (publish_result w codec cfg result s).0 ≡ ok tt
  unfolding publish_result
  publish_result-ok result s =
      let n = (s.seq_num + 1) % 2 ^ 64 in
      let h = ctx_check ∷ s.history in
      let (payload, q) = is_open.results result in
      let (message, r) = is_open.envelopes result n (w.now h) payload q (is_open.clock h) in
      ground
        (arith, is_open.live s.history, is_open.takes (clock_read ∷ h) cfg.result_topic_id message)
