-- ===== src/Agent/Run.antt =====
-- The main loop of `Run` and the `healthLoop` beside it, internal/agent/agent.go, as steps that the
-- runtime may take in any order: a tick may come in the middle of a task, and a task may end between
-- the two loads of a heartbeat.
pub mod Laws
pub mod Loop
mod Tests
use agent_inference_ethden.Base.{ℕ, ◌+◌, ◌%◌, ◌^◌, ◌≡◌, Option, none, some, List, [], ◌∷◌, Error}
use agent_inference_ethden.Base.Int.{ℤ, signed}

-- Where the main loop stands: in its select, in `processTask`, behind a failed one up to the count
-- of it, or behind the return.
pub data Main : Type 0 where
  waiting processing failing : Main
  returned : Error → Main

-- Where the health loop stands: in its select, behind a tick, behind the load of the completed tasks,
-- in the heartbeat to the daemon, or behind its return.
pub data Beat : Type 0 where
  resting ticked beating stopped : Beat
  half : ℤ → Beat

-- The two counters are int64, as the 64 bits that stand for them, and a status has them as int.
-- `taken` counts the tasks that the main loop received; `reported` has the counters of each health
-- status, the newest first. Nothing in the code keeps either.
pub record Run : Type 0 where
  pub main : Main
  pub beat : Beat
  pub ended : Option Error
  pub completed_tasks : ℕ
  pub failed_tasks : ℕ
  pub taken : ℕ
  pub reported : List (ℤ × ℤ)

pub new_run : Run
new_run = record {
  main = waiting;
  beat = resting;
  ended = none;
  completed_tasks = 0;
  failed_tasks = 0;
  taken = 0;
  reported = [];
}

pub data Step : Run → Run → Type 0 where
  -- the context ends
  ends : (r : Run) (e : Error) → r.ended ≡ none → Step r (record r { ended = some e })
  takes :
      (r : Run) → r.main ≡ waiting → Step r (record r { main = processing; taken = r.taken + 1 })
  -- `processTask` counts the task and returns nil
  completes :
      (r : Run)
      → r.main ≡ processing
      → Step r (record r { main = waiting; completed_tasks = (r.completed_tasks + 1) % 2 ^ 64 })
  -- `processTask` returns an error
  fails : (r : Run) → r.main ≡ processing → Step r (record r { main = failing })
  -- behind `reportFailure`
  counts_failure :
      (r : Run)
      → r.main ≡ failing
      → Step r (record r { main = waiting; failed_tasks = (r.failed_tasks + 1) % 2 ^ 64 })
  returns :
      (r : Run) (e : Error)
      → r.main ≡ waiting
      → r.ended ≡ some e
      → Step r (record r { main = returned e })
  ticks : (r : Run) → r.beat ≡ resting → Step r (record r { beat = ticked })
  loads_completed :
      (r : Run) → r.beat ≡ ticked → Step r (record r { beat = half (signed r.completed_tasks) })
  -- the load of the failed tasks, with the publication of the status
  loads_failed :
      (r : Run) (completed : ℤ)
      → r.beat ≡ half completed
      → Step r
          (record r { beat = beating; reported = (completed, signed r.failed_tasks) ∷ r.reported })
  beats : (r : Run) → r.beat ≡ beating → Step r (record r { beat = resting })
  stops :
      (r : Run) (e : Error)
      → r.beat ≡ resting
      → r.ended ≡ some e
      → Step r (record r { beat = stopped })

pub data Steps : Run → Run → Type 0 where
  no_step : (r : Run) → Steps r r
  and_step : {r s t : Run} → Steps r s → Step s t → Steps r t
