-- ===== src/Mock/Laws.antt =====
-- The ids that the mocks of internal/zerog/zgmock give out.
use text.Mathlib.TextLemmas.{append_cancel_left}
use agent_inference_ethden.Base.{
  ℕ, ◌+◌, ◌^◌, ◌<◌, ◌≡◌, ◌≢◌, refl, sym, ◌∙◌, ap, String, ◌<>◌, List, [], ◌∷◌, Result, ok, err,
  length, arith, lt→ltb,
}
use agent_inference_ethden.Base.Int.{pos, signed}
use agent_inference_ethden.Base.Decimal.{decimal, decimal_ℤ, set_string, set_string-decimal}
use agent_inference_ethden.Compute.{JobRequest}
use agent_inference_ethden.Mock.{ComputeBroker, increment, submit_job}

-- Submissions one after another, whose ids nobody looks at.
pub submit_all : List JobRequest → ComputeBroker → ComputeBroker
submit_all [] m = m
submit_all (r ∷ rs) m = submit_all rs (submit_job r m).1

decimal-injective : (a b : ℕ) → decimal a ≡ decimal b → a ≡ b
decimal-injective a b e =
    let same = sym (set_string-decimal a) ∙ ap set_string e ∙ set_string-decimal b in cc same

signed_small : (n : ℕ) → n < 2 ^ 63 → signed n ≡ pos n
signed_small n h = rw (lt→ltb n (2 ^ 63) h) refl

job_counter-submit_all :
    (rs : List JobRequest) (m : ComputeBroker)
    → m.job_counter + length rs < 2 ^ 63
    → (submit_all rs m).job_counter ≡ m.job_counter + length rs
unfolding submit_all submit_job
job_counter-submit_all [] m h = omega arith
job_counter-submit_all (r ∷ rs) m h =
    omega (arith, job_counter-submit_all rs (submit_job r m).1 (omega arith))

id_number : (n : ℕ) → n < 2 ^ 63 → decimal_ℤ (signed n) ≡ decimal n
unfolding decimal_ℤ
id_number n h = rw (signed_small n h) refl

text_of : Result String → String
text_of (ok s) = s
text_of (err e) = ""

-- The id that the counter gives when it stands at `n`.
submit_job-id :
    (r : JobRequest) (m : ComputeBroker)
    → m.job_counter + 1 < 2 ^ 63
    → text_of (submit_job r m).0 ≡ "mock-job-" <> decimal (m.job_counter + 1)
unfolding submit_job text_of
submit_job-id r m h =
    let small : increment m.job_counter ≡ m.job_counter + 1 = omega arith in
    ap (λ n. "mock-job-" <> decimal_ℤ (signed n)) small
    ∙ ap (λ s. "mock-job-" <> s) (id_number (m.job_counter + 1) h)

job_counter-submit_job :
    (r : JobRequest) (m : ComputeBroker)
    → m.job_counter + 1 < 2 ^ 63
    → (submit_job r m).1.job_counter ≡ m.job_counter + 1
unfolding submit_job
job_counter-submit_job r m h = omega arith

-- Two jobs that a mock broker takes get different ids, whatever it takes between them, as long as its
-- counter fits an int.
pub submit_job-distinct :
    (first second : JobRequest) (between : List JobRequest) (m : ComputeBroker)
    → m.job_counter + length between + 2 < 2 ^ 63
    → let (a, m') = submit_job first m in a ≢ (submit_job second (submit_all between m')).0
submit_job-distinct first second between m h same =
    let m' = (submit_job first m).1 in
    let later = submit_all between m' in
    let one = job_counter-submit_job first m (omega arith) in
    let far = job_counter-submit_all between m' (omega arith) in
    let ids =
      sym (submit_job-id first m (omega arith))
      ∙ ap text_of same
      ∙ submit_job-id second later (omega arith) in
    let number = decimal-injective (m.job_counter + 1) (later.job_counter + 1) (
      append_cancel_left "mock-job-" (decimal (m.job_counter + 1)) (decimal (later.job_counter + 1))
        ids) in
    omega (arith, number, one, far)
