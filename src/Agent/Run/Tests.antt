-- ===== src/Agent/Run/Tests.antt =====
-- A heartbeat that loads one counter before and one behind the end of a task.
use agent_inference_ethden.Base.{refl, [], ◌∷◌, arith}
use agent_inference_ethden.Base.Int.{pos}
use agent_inference_ethden.Agent.Run.{
  waiting, processing, failing, beating, half, Run, new_run, takes, completes, fails,
  counts_failure, ticks, loads_completed, loads_failed, Steps, no_step, and_step,
}
use agent_inference_ethden.Agent.Run
use agent_inference_ethden.Agent.Run.Laws
use agent_inference_ethden.Agent.Run.Laws.{IsCounted}

abbrev taken : Run
taken = record new_run { main = processing; taken = 1 }

abbrev halfway : Run
halfway = record taken { beat = half (pos 0) }

abbrev failed : Run
failed = record halfway { main = waiting; failed_tasks = 1 }

abbrev told : Run
told = record failed { beat = beating; reported = (pos 0, pos 1) ∷ [] }

-- The task fails between the two loads.
steps : Steps new_run told
unfolding new_run
steps =
    and_step
      (and_step
        (and_step
          (and_step (and_step (and_step (no_step new_run) (takes new_run refl)) (ticks taken refl))
            (loads_completed (record taken { beat = Run.ticked }) refl))
          (fails halfway refl))
        (counts_failure (record halfway { main = failing }) refl))
      (loads_failed failed (pos 0) refl)

reached-IsCounted_example : IsCounted told
unfolding new_run
reached-IsCounted_example = Laws.reached-IsCounted steps (omega arith)
