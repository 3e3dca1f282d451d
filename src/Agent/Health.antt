-- ===== src/Agent/Health.antt =====
-- `healthLoop` of internal/agent/agent.go with the interval that internal/agent/config.go lets through.
use agent_inference_ethden.Base.{
  ℕ, zero, suc, ◌≡◌, ◌≢◌, ◌⊎◌, refl, ◌∙◌, inl, inr, String, none, some, true, false, Result, ok,
  replicate, str_eq, eq_iff, Bool-cases, arith,
}
use agent_inference_ethden.Base.Int.{ℤ, is_nonpos}
use agent_inference_ethden.Agent.{
  Services, Agent, ticked, run_loop, health_tick, health_ticks, health_loop,
}
use agent_inference_ethden.Agent.Counts.{health_tick-counts}
use agent_inference_ethden.Agent.Config.{Config, load_config, health_interval}
use agent_inference_ethden.Agent.Config.Laws.{load_config-IsShared}

module _ {S : Type 0} (v : Services S) (agent_id : String) where
  health_ticks-counts :
      (n : ℕ) (a : Agent S)
      → let b = health_ticks v agent_id n a in
        (b.completed_tasks ≡ a.completed_tasks) × (b.failed_tasks ≡ a.failed_tasks)
  unfolding health_ticks
  health_ticks-counts zero a = (refl, refl)
  health_ticks-counts (suc n) a =
      let (c, f) = health_tick-counts v agent_id a in
      let (c', f') = health_ticks-counts n (health_tick v agent_id a).1 in (c' ∙ c, f' ∙ f)

  -- The ticks are those of the loop of the agent that gets no task.
  health_ticks-run_loop :
      (n : ℕ) (a : Agent S)
      → health_ticks v agent_id n a ≡ run_loop v agent_id (replicate n ticked) a
  unfolding health_ticks run_loop
  health_ticks-run_loop zero a = refl
  health_ticks-run_loop (suc n) a = health_ticks-run_loop n (health_tick v agent_id a).1

  -- An interval that is set, and that parses to zero or less, passes `LoadConfig`, and then the
  -- health loop panics before its first tick; with any other that is loaded it ends in the state in
  -- which the agent is behind as many ticks and no task, and the counters of tasks stay as they are.
  pub health_loop_loaded :
      (parse_duration : String → Result ℤ) (getenv : String → String) (cfg : Config) (d : ℤ)
      (ticks : ℕ) (a : Agent S)
      → load_config parse_duration getenv ≡ ok cfg
      → getenv "INFERENCE_HEALTH_INTERVAL" ≢ ""
      → parse_duration (getenv "INFERENCE_HEALTH_INTERVAL") ≡ ok d
      → ((is_nonpos d ≡ true) × (health_loop v agent_id cfg.health_interval ticks a ≡ none))
        ⊎ ((is_nonpos d ≡ false)
            × (let b = run_loop v agent_id (replicate ticks ticked) a in
                (health_loop v agent_id cfg.health_interval ticks a ≡ some b)
                × (b.completed_tasks ≡ a.completed_tasks)
                × (b.failed_tasks ≡ a.failed_tasks)))
  unfolding health_loop health_interval
  health_loop_loaded parse_duration getenv cfg d ticks a loaded set parsed =
      let (_, _, spelled, _) = load_config-IsShared parse_duration getenv cfg loaded in
      let text = getenv "INFERENCE_HEALTH_INTERVAL" in
      let same : d ≡ cfg.health_interval = elim (Bool-cases (str_eq text "")) [
        | inl b ↦ absurd (set ((eq_iff text "").0 b))
        | inr b ↦ ground arith
      ] in
      let (c, f) = health_ticks-counts ticks a in
      elim (Bool-cases (is_nonpos d)) [
        | inl b ↦ inl (b, ground arith)
        | inr b ↦ inr (b, rw (← health_ticks-run_loop ticks a) (ground arith, c, f))
      ]
