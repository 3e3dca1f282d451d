-- ===== src/Hcs/Numbers.antt =====
-- The sequence numbers of what the handler publishes.
use agent_inference_ethden.Base.{
  ℕ, ◌+◌, ◌%◌, ◌^◌, ◌≤◌, ◌<◌, ◌≡◌, ◌∙◌, refl, String, List, [], ◌∷◌, length, Bytes, Result, ok,
  arith,
}
use agent_inference_ethden.World.{World, publications}
use agent_inference_ethden.Hcs.{
  Envelope, TaskResult, HealthStatus, HandlerConfig, Codec, Sender, publish_result, publish_health,
}
use agent_inference_ethden.Hcs.Laws.{
  Outcome, unnumbered, unwritten, handed_over, result_envelope, health_envelope,
  publish_result-Outcome, publish_health-Outcome,
}

-- What package encoding/json promises of the number of an envelope: an envelope that it wrote is read
-- back with the same number.
abbrev pub KeepsNumber : Codec → Type 0
KeepsNumber codec =
    (env : Envelope) (message : Bytes)
    → codec.marshal_envelope env ≡ ok message
    → (read : Envelope) × (codec.unmarshal_envelope message ≡ ok read)
      × (read.sequence_num ≡ env.sequence_num)

-- The sequence numbers of the published messages, from the newest on, start at most at the bound
-- and fall strictly.
abbrev pub IsStamped : Codec → ℕ → List (String × Bytes) → Type 0
IsStamped codec n [] = Unit
IsStamped codec n ((topic, message) ∷ older) =
    (env : Envelope) × (codec.unmarshal_envelope message ≡ ok env)
    × (env.sequence_num ≤ n)
    × ((below : ℕ) × (below < env.sequence_num) × IsStamped codec below older)

module _ (codec : Codec) (faithful : KeepsNumber codec) where
  IsStamped-weaken :
      {m n : ℕ} (ms : List (String × Bytes)) → m ≤ n → IsStamped codec m ms → IsStamped codec n ms
  IsStamped-weaken [] h i = tt
  IsStamped-weaken ((topic, message) ∷ older) h (env, e, b, rest) = (env, e, omega arith, rest)

  mod_small : {n : ℕ} → n < 2 ^ 64 → n % 2 ^ 64 ≡ n
  mod_small h = omega arith

  stamped :
      {topic : String} {encoded : Result Bytes} {envelope : ℕ → ℕ → Bytes → Envelope} {s t : Sender}
      {r : Result {0} Unit}
      → ((n at : ℕ) (payload : Bytes) → (envelope n at payload).sequence_num ≡ n)
      → s.seq_num + 1 < 2 ^ 64
      → IsStamped codec s.seq_num (publications s.history)
      → Outcome codec topic encoded envelope s r t
      → (IsStamped codec t.seq_num (publications t.history))
        × (s.seq_num ≤ t.seq_num)
        × (t.seq_num ≤ s.seq_num + 1)
  stamped {s} {t} numbered small i (unnumbered e f q p) =
      (rw p (IsStamped-weaken (publications s.history) (omega arith) i), omega arith, omega arith)
  stamped {s} {t} numbered small i (unwritten e f q p) =
      let up : t.seq_num ≡ s.seq_num + 1 = q ∙ mod_small small in
      (rw p (IsStamped-weaken (publications s.history) (omega arith) i), omega arith, omega arith)
  stamped {envelope} {s} {t} numbered small i (handed_over at payload message enc m q p r) =
      let up : t.seq_num ≡ s.seq_num + 1 = q ∙ mod_small small in
      let env = envelope t.seq_num at payload in
      let (read, back, same) = faithful env message m in
      let number = same ∙ numbered t.seq_num at payload in
      (
        rw p (read, back, omega (arith, number), (s.seq_num, omega (arith, number), i)),
        omega arith,
        omega arith,
      )

-- What the agent asks of its handler.
pub data Outgoing : Type 0 where
  result : TaskResult → Outgoing
  health : HealthStatus → Outgoing

module _ (w : World) (codec : Codec) (cfg : HandlerConfig) where
  abbrev publish_one : Outgoing → Sender → Result {0} Unit × Sender
  publish_one (result r) = publish_result w codec cfg r
  publish_one (health h) = publish_health w codec cfg h

  -- The publications one after the other, whatever becomes of each.
  pub publish_all : List Outgoing → Sender → Sender
  publish_all [] s = s
  publish_all (x ∷ xs) s = publish_all xs (publish_one x s).1

  publish_one-IsStamped :
      (x : Outgoing) (s : Sender)
      → KeepsNumber codec
      → s.seq_num + 1 < 2 ^ 64
      → IsStamped codec s.seq_num (publications s.history)
      → let t = (publish_one x s).1 in
        (IsStamped codec t.seq_num (publications t.history))
        × (s.seq_num ≤ t.seq_num)
        × (t.seq_num ≤ s.seq_num + 1)
  publish_one-IsStamped (result r) s faithful small i =
      stamped codec faithful {envelope = result_envelope cfg r} (λ n at payload. refl) small i
        (publish_result-Outcome w codec cfg r s)
  publish_one-IsStamped (health h) s faithful small i =
      stamped codec faithful {envelope = health_envelope cfg} (λ n at payload. refl) small i
        (publish_health-Outcome w codec cfg h s)

  -- If JSON reads every envelope that it wrote back with the same sequence number, and fewer than 2^64
  -- numbers were given out: however results and heartbeats follow one another, and whichever of them
  -- fail, the messages handed to the transport are envelopes whose numbers rise strictly.
  pub publish_all-IsStamped :
      (xs : List Outgoing) (s : Sender)
      → KeepsNumber codec
      → s.seq_num + length xs < 2 ^ 64
      → IsStamped codec s.seq_num (publications s.history)
      → let t = publish_all xs s in IsStamped codec t.seq_num (publications t.history)
  unfolding publish_all
  publish_all-IsStamped [] s faithful small i = i
  publish_all-IsStamped (x ∷ xs) s faithful small i =
      let (stamps, low, high) = publish_one-IsStamped x s faithful (omega arith) i in
      publish_all-IsStamped xs (publish_one x s).1 faithful (omega arith) stamps
