-- ===== src/Agent/Run/Loop.antt =====
-- `run_loop`, in which each task and each tick is one step, is one of the interleavings.
use mathlib.Core.Path.{subst}
use agent_inference_ethden.Base.{
  ℕ, ◌+◌, ◌%◌, ◌^◌, ◌≡◌, refl, inl, inr, none, String, List, [], ◌∷◌, arith,
}
use agent_inference_ethden.Base.Int.{ℤ, signed}
use agent_inference_ethden.Hcs.{TaskAssignment}
use agent_inference_ethden.Agent.{
  Services, Agent, Event, assigned, ticked, handle_task, health_tick, run_loop,
}
use agent_inference_ethden.Agent.Counts.{handle_task-counts, health_tick-counts, tasks_of}
use agent_inference_ethden.Agent.Run.{
  waiting, processing, failing, resting, beating, half, Run, takes, completes, fails,
  counts_failure, ticks, loads_completed, loads_failed, beats, Steps, no_step, and_step,
}
use agent_inference_ethden.Agent.Run

-- Between two events: both loops wait in their select.
abbrev pub at_rest : ℕ → ℕ → ℕ → List (ℤ × ℤ) → Run
at_rest completed failed taken reported = record {
  main = waiting;
  beat = resting;
  ended = none;
  completed_tasks = completed;
  failed_tasks = failed;
  taken = taken;
  reported = reported;
}

Steps-trans : {r s t : Run} → Steps r s → Steps s t → Steps r t
Steps-trans before (no_step _) = before
Steps-trans before (and_step steps step) = and_step (Steps-trans before steps) step

module _ (c f n : ℕ) (ps : List (ℤ × ℤ)) where
  abbrev rest : Run
  rest = at_rest c f n ps

  abbrev busy : Run
  busy = record rest { main = processing; taken = n + 1 }

  completed : Steps rest (at_rest ((c + 1) % 2 ^ 64) f (n + 1) ps)
  completed = and_step (and_step (no_step rest) (takes rest refl)) (completes busy refl)

  failed : Steps rest (at_rest c ((f + 1) % 2 ^ 64) (n + 1) ps)
  failed =
      and_step (and_step (and_step (no_step rest) (takes rest refl)) (fails busy refl))
        (counts_failure (record busy { main = failing }) refl)

  abbrev loaded : Run
  loaded = record rest { beat = half (signed c) }

  told : Steps rest (at_rest c f n ((signed c, signed f) ∷ ps))
  told =
      and_step
        (and_step
          (and_step (and_step (no_step rest) (ticks rest refl))
            (loads_completed (record rest { beat = Run.ticked }) refl))
          (loads_failed loaded (signed c) refl))
        (beats (record rest { beat = beating; reported = (signed c, signed f) ∷ ps }) refl)

module _ {S : Type 0} (v : Services S) (agent_id : String) where
  handled :
      (task : TaskAssignment) (a : Agent S) (n : ℕ) (ps : List (ℤ × ℤ))
      → let b = handle_task v agent_id task a in
        Steps
          (at_rest a.completed_tasks a.failed_tasks n ps)
          (at_rest b.completed_tasks b.failed_tasks (n + 1) ps)
  handled task a n ps = elim (handle_task-counts v agent_id task a) [
    | inl (c, f) ↦ rw (c, f) (completed a.completed_tasks a.failed_tasks n ps)
    | inr (c, f) ↦ rw (c, f) (failed a.completed_tasks a.failed_tasks n ps)
  ]

  ticked_once :
      (a : Agent S) (n : ℕ) (ps : List (ℤ × ℤ))
      → let b = (health_tick v agent_id a).1 in
        Steps (at_rest a.completed_tasks a.failed_tasks n ps) (
          at_rest b.completed_tasks b.failed_tasks n
            ((signed a.completed_tasks, signed a.failed_tasks) ∷ ps))
  ticked_once a n ps =
      let (c, f) = health_tick-counts v agent_id a in
      rw (c, f) (told a.completed_tasks a.failed_tasks n ps)

  reach :
      (events : List Event) (a : Agent S) (n m : ℕ) (ps : List (ℤ × ℤ))
      → m ≡ tasks_of v agent_id events + n
      → let b = run_loop v agent_id events a in
        (qs : List (ℤ × ℤ)) × Steps
          (at_rest a.completed_tasks a.failed_tasks n ps)
          (at_rest b.completed_tasks b.failed_tasks m qs)
  unfolding run_loop
  reach [] a n m ps e =
      let same : n ≡ m = omega arith in
      (
        ps,
        subst
            (λ k.
              Steps (at_rest a.completed_tasks a.failed_tasks n ps)
                (at_rest a.completed_tasks a.failed_tasks k ps))
            same (no_step _),
      )
  reach (assigned task ∷ events) a n m ps e =
      let (qs, steps) = reach events (handle_task v agent_id task a) (n + 1) m ps (omega arith) in
      (qs, Steps-trans (handled task a n ps) steps)
  reach (ticked ∷ events) a n m ps e =
      let (qs, steps) =
        reach events (health_tick v agent_id a).1 n m
          ((signed a.completed_tasks, signed a.failed_tasks) ∷ ps) e in
      (qs, Steps-trans (ticked_once a n ps) steps)

  -- Each run of `run_loop` is a sequence of the finer steps between two states at rest, with the same
  -- counters, that takes as many tasks as there are among the events.
  pub run_loop-Steps :
      (events : List Event) (a : Agent S)
      → let b = run_loop v agent_id events a in
        (qs : List (ℤ × ℤ)) × Steps
          (at_rest a.completed_tasks a.failed_tasks 0 [])
          (at_rest b.completed_tasks b.failed_tasks (tasks_of v agent_id events) qs)
  run_loop-Steps events a = reach events a 0 (tasks_of v agent_id events) [] (omega arith)
