-- ===== src/Compute/Jobs/Calls/Laws.antt =====
-- The invariant of the broker.
use agent_inference_ethden.Base.{
  ℕ, zero, suc, ◌≡◌, inl, inr, ok, String, List, Option, none, some, [], ◌∷◌, All, Bool-cases,
  Option-cases, str_eq, eq_iff, arith,
}
use agent_inference_ethden.World.{World, polled}
use agent_inference_ethden.Compute.Types.{JobResult, completed, State, Broker, BrokerConfig, Codec}
use agent_inference_ethden.Compute.Session.Laws.{new_session-IsCoherent}
use agent_inference_ethden.Compute.Jobs.{new_broker, find_result, poll_result, get_result}
use agent_inference_ethden.Compute.Jobs.Laws.{started, Poll-cases}
use agent_inference_ethden.Compute.Jobs.Calls.{Call, submits, gets_result, lists, call, run_calls}
use agent_inference_ethden.Compute.Jobs.Calls.Sound.{
  IsOwn, IsSound, list_models-IsSound, submit_job-IsSound, get_result-IsSound,
}

module _ (w : World) (codec : Codec) (b : Broker) where
  call-IsSound :
      (c : Call) (s : State) → IsSound w codec b s → IsSound w codec b (call w codec b c s)
  unfolding call
  call-IsSound (submits req) s i = submit_job-IsSound w codec b req s i
  call-IsSound (gets_result rounds id) s i = get_result-IsSound w codec b rounds id s i
  call-IsSound lists s i = list_models-IsSound w codec b s i

  run_calls-IsSound :
      (cs : List Call) (s : State)
      → IsSound w codec b s
      → IsSound w codec b (run_calls w codec b cs s)
  unfolding run_calls
  run_calls-IsSound [] s i = i
  run_calls-IsSound (c ∷ cs) s i = run_calls-IsSound cs (call w codec b c s) (call-IsSound c s i)

  find_result-IsOwn :
      (id : String) (rs : List (String × JobResult)) {r : JobResult}
      → All IsOwn rs
      → find_result id rs ≡ some r
      → IsOwn (id, r)
  unfolding find_result
  find_result-IsOwn id [] own f = cc f
  find_result-IsOwn id ((k, x) ∷ rs) {r} own f = elim (Bool-cases (str_eq k id)) [
    | inl b ↦ ground (arith, eq_iff k id)
    | inr b ↦
        let rest : find_result id rs ≡ some r = ground arith in find_result-IsOwn id rs own.1 rest
  ]

  poll_result-found :
      (rounds : ℕ) (id : String) (s : State) {r : JobResult}
      → (poll_result w codec b rounds id s).0 ≡ ok r
      → find_result id s.results ≡ some r
  unfolding poll_result
  poll_result-found zero id s e = ground arith
  poll_result-found (suc rounds) id s e =
      let s' : State = record s { history = polled ∷ s.history } in
      elim (Poll-cases w codec b (w.poll s.history)) [
        | inl p ↦ elim (Option-cases (find_result id s.results)) [
          | inl none_yet ↦ poll_result-found rounds id s' (ground arith)
          | inr (r, f) ↦ ground arith
        ]
        | inr (inl p) ↦ ground arith
        | inr (inr (c, p)) ↦ ground arith
      ]

  get_result-found :
      (rounds : ℕ) (id : String) (s : State) {r : JobResult}
      → (get_result w codec b rounds id s).0 ≡ ok r
      → find_result id s.results ≡ some r
  unfolding get_result
  get_result-found rounds id s e = elim (Option-cases (w.ctx_err s.history)) [
    | inr (f, q) ↦ ground arith
    | inl live ↦ elim (Option-cases (find_result id s.results)) [
      | inr (r, f) ↦ ground arith
      | inl unknown ↦ poll_result-found rounds id (started w codec b s) (ground arith)
    ]
  ]

module _ (w : World) (codec : Codec) where
  pub new_broker-IsSound :
      (cfg : BrokerConfig) (key : Option ℕ)
      → IsSound w codec (new_broker w codec cfg key).0 (new_broker w codec cfg key).1
  unfolding new_broker
  new_broker-IsSound cfg none = record { filled = λ e. ground arith; held = tt; own = tt }
  new_broker-IsSound cfg (some k) = record {
    filled = λ e. ground arith;
    held = new_session-IsCoherent w codec _;
    own = tt;
  }

  -- The state of a new broker after some calls.
  abbrev pub reached : BrokerConfig → Option ℕ → List Call → State
  reached cfg key calls =
      run_calls w codec (new_broker w codec cfg key).0 calls (new_broker w codec cfg key).1

  -- Whatever calls a new broker has answered, and however they ended: the cache of models is never
  -- an empty list, the session's token is invalidated or names the cached provider and is signed, and
  -- each stored result is complete and stands under its own id.
  pub run_calls-IsSound_new :
      (cfg : BrokerConfig) (key : Option ℕ) (calls : List Call)
      → IsSound w codec (new_broker w codec cfg key).0 (reached cfg key calls)
  run_calls-IsSound_new cfg key calls =
      let (b, s) = new_broker w codec cfg key in
      run_calls-IsSound w codec b calls s (new_broker-IsSound cfg key)

  -- Whatever calls a new broker has answered, a result that `GetResult` then returns is complete, and
  -- is the result of the job that was asked for.
  pub get_result-IsOwn :
      (cfg : BrokerConfig) (key : Option ℕ) (calls : List Call) (rounds : ℕ) (id : String)
      {r : JobResult}
      → (get_result w codec (new_broker w codec cfg key).0 rounds id (reached cfg key calls)).0
        ≡ ok r
      → (r.job_id ≡ id) × (r.status ≡ completed)
  get_result-IsOwn cfg key calls rounds id e =
      let b = (new_broker w codec cfg key).0 in
      find_result-IsOwn w codec b id (reached cfg key calls).results
        (run_calls-IsSound_new cfg key calls).own
        (get_result-found w codec b rounds id (reached cfg key calls) e)
