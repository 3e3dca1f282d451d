-- ===== src/Da/Laws.antt =====
-- What `Publish`, `Verify` and the parse of the `DataSubmit` event promise.
use native.Mathlib.Nat.{pow-suc, pow-le-pow_right}
use agent_inference_ethden.Base.{
  ℕ, zero, suc, ◌+◌, ◌*◌, ◌^◌, ◌≤◌, ◌<◌, ◌≡◌, refl, ok, err, new, ◌↔◌, ◌⊎◌, Error, Result, String,
  ◌<>◌, Bool, true, false, Bytes, List, [], ◌∷◌, length, get_or, All, arith, some, none, Bool-cases,
  Option-cases, inl, inr, IsFirst, IsFirst-here, IsFirst-there,
}
use agent_inference_ethden.Base.Int.{rounds}
use agent_inference_ethden.World.{
  World, History, View, Log, Receipt, Value, flag, word, ctx_check, transactions,
}
use agent_inference_ethden.Da.{
  Publisher, AuditEvent, event_type_text, publish, publish_with_retry, verify, verify_result,
  backoff, is_data_submit, find_data_root, parse_data_submit_event, serialize_event,
}
use agent_inference_ethden.Da.Submit.{Submitted}
use agent_inference_ethden.Da.Retry.{schedule, attempt_loop-sends, attempt_loop-Submitted}

module _ (w : World) (marshal : AuditEvent → Result Bytes) (p : Publisher)
    (event : AuditEvent) where
  abbrev topic : String
  topic = "da: publish event " <> event_type_text event.type <> ": "

  -- A successful publish has serialized the event, and its last effects are the transaction that
  -- carries these bytes and the wait for a receipt with status 1, whose log holds the id returned.
  pub publish-Submitted :
      (h : History) {id : String}
      → (publish w marshal p event h).0 ≡ ok id
      → (payload : Bytes) × (marshal event ≡ ok payload)
        × Submitted w p payload id (publish w marshal p event h).1
  unfolding publish publish_with_retry serialize_event
  publish-Submitted h e = grind (arith, attempt_loop-Submitted w p)

  -- A publish, successful or not, sends at most one transaction for each round of its loop:
  -- MaxRetries + 1, or none if MaxRetries is negative.
  pub publish-sends :
      (h : History)
      → length (transactions (publish w marshal p event h).1)
        ≤ rounds p.cfg.max_retries + length (transactions h)
  unfolding publish publish_with_retry serialize_event
  publish-sends h = grind (arith, attempt_loop-sends w p)

-- The wait behind attempt n is 2 ^ n seconds up to attempt 33: the int64 does not overflow.
pub backoff_exact : (n : ℕ) → n ≤ 33 → (backoff n ≡ 2 ^ n * 1_000_000_000) × (backoff n < 2 ^ 63)
unfolding backoff
backoff_exact n h =
    let small : 2 ^ n ≤ 8_589_934_592 = pow-le-pow_right (omega arith) h in
    (omega arith, omega arith)

abbrev pub sum : List ℕ → ℕ
sum [] = 0
sum (x ∷ xs) = x + sum xs

-- With up to 34 retries the waits of a publish add up to exactly 2 ^ n - 1 seconds.
pub schedule-total : (n : ℕ) → n ≤ 34 → sum (schedule n) + 1_000_000_000 ≡ 2 ^ n * 1_000_000_000
schedule-total zero h = refl
schedule-total (suc n) h =
    omega (arith, schedule-total n (omega arith), (backoff_exact n (omega arith)).0, pow-suc 2 n)

find_data_root-IsFirst :
    (id : ℕ) (logs : List Log) {root : ℕ}
    → find_data_root id logs ≡ some root
    → (log : Log) × IsFirst (is_data_submit id) log logs × (root ≡ get_or log.topics 1 0)
unfolding find_data_root
find_data_root-IsFirst id [] e = ground arith
find_data_root-IsFirst id (l ∷ logs) e = elim (Bool-cases (is_data_submit id l)) [
  | inl yes_l ↦ (l, IsFirst-here l logs yes_l, ground arith)
  | inr no_l ↦
      let (log, first, same) = find_data_root-IsFirst id logs (ground arith) in
      (log, IsFirst-there l no_l first, same)
]

find_data_root-none :
    (id : ℕ) (logs : List Log)
    → find_data_root id logs ≡ none
    → All (λ l. is_data_submit id l ≡ false) logs
unfolding find_data_root
find_data_root-none id [] e = tt
find_data_root-none id (l ∷ logs) e = ground (arith, find_data_root-none id logs)

-- The id of a receipt is the second topic of its first log that has at least two topics and
-- carries the signature of `DataSubmit`. It fails exactly when there is no such log.
pub parse_data_submit_event_lem :
    (w : World) (receipt : Receipt)
    → ((log : Log) × IsFirst (is_data_submit (w.event_id "DataSubmit")) log receipt.logs
        × (parse_data_submit_event w receipt ≡ ok (w.hash_hex (get_or log.topics 1 0))))
      ⊎ (All (λ l. is_data_submit (w.event_id "DataSubmit") l ≡ false) receipt.logs
          × ((e : Error) × (parse_data_submit_event w receipt ≡ err e)))
unfolding parse_data_submit_event
parse_data_submit_event_lem w receipt =
    let id = w.event_id "DataSubmit" in
    elim (Option-cases (find_data_root id receipt.logs)) [
      | inl e ↦ inr (
        find_data_root-none id receipt.logs e,
        (new "da: DataSubmit event not found in receipt", rw e),
      )
      | inr (root, e) ↦
          let (log, first, same) = find_data_root-IsFirst id receipt.logs e in
          inl (log, first, rw (e, same))
    ]

-- The call returned, and its first value is the Boolean true.
abbrev pub says_true : Result (List Value) → Bool
says_true (ok (flag b ∷ _)) = b
says_true _ = false

-- `Verify` is true exactly when the context is alive and the contract's `isDataAvailable` answers
-- true first for the root that the id spells. It sends no transaction.
pub verify_lem :
    (w : World) (p : Publisher) (id : String) (h : History)
    → let question : View = record {
      contract = p.contract;
      method = "isDataAvailable";
      args = word (w.hex_to_hash id) ∷ [];
    } in
      (((verify w p id h).0 ≡ ok true)
        ↔ ((w.ctx_err h ≡ none) × (says_true (w.view (ctx_check ∷ h) question) ≡ true)))
      × (transactions (verify w p id h).1 ≡ transactions h)
unfolding verify verify_result
verify_lem w p id h = ground arith
