-- ===== src/Agent/Run/Laws.antt =====
-- What the counters and the health statuses say, however the two loops interleave.
use agent_inference_ethden.Base.{ℕ, ◌+◌, ◌%◌, ◌^◌, ◌≤◌, ◌<◌, ◌≡◌, refl, List, [], ◌∷◌, arith}
use agent_inference_ethden.Base.Int.{
  ℤ, signed, IsAtMost, IsAtMost-refl, IsAtMost-trans, signed-next,
}
use agent_inference_ethden.Agent.Run.{
  Main, waiting, processing, failing, returned, half, Run, new_run, Step, ends, takes, completes,
  fails, counts_failure, returns, ticks, loads_completed, loads_failed, beats, stops, Steps,
  no_step, and_step,
}

-- The task that the main loop has in hand.
abbrev pub in_hand : Main → ℕ
in_hand waiting = 0
in_hand processing = 1
in_hand failing = 1
in_hand (returned _) = 0

-- No count of the list is above these two.
abbrev pub Below : ℤ → ℤ → List (ℤ × ℤ) → Type 0
Below c f [] = Unit
Below c f ((c', f') ∷ ps) = IsAtMost c' c × IsAtMost f' f × Below c f ps

-- The counts of a list, the newest first, never went down.
abbrev pub IsMonotone : List (ℤ × ℤ) → Type 0
IsMonotone [] = Unit
IsMonotone ((c, f) ∷ ps) = Below c f ps × IsMonotone ps

Below-mono :
    (c f d g : ℤ) (ps : List (ℤ × ℤ)) → IsAtMost c d → IsAtMost f g → Below c f ps → Below d g ps
Below-mono c f d g [] m n b = tt
Below-mono c f d g ((c', f') ∷ ps) m n (x, y, b) =
    (IsAtMost-trans c' c d x m, IsAtMost-trans f' f g y n, Below-mono c f d g ps m n b)

-- Every task that was taken is counted once, or in hand; and the statuses follow the counters.
pub record IsCounted (r : Run) : Type 0 where
  pub total : r.completed_tasks + r.failed_tasks + in_hand r.main ≡ r.taken
  pub below : Below (signed r.completed_tasks) (signed r.failed_tasks) r.reported
  pub monotone : IsMonotone r.reported
  pub loaded :
      (c : ℤ)
      → r.beat ≡ half c
      → IsAtMost c (signed r.completed_tasks) × Below c (signed r.failed_tasks) r.reported

Step-taken : {r s : Run} → Step r s → r.taken ≤ s.taken
Step-taken (ends r e q) = omega arith
Step-taken (takes r q) = omega arith
Step-taken (completes r q) = omega arith
Step-taken (fails r q) = omega arith
Step-taken (counts_failure r q) = omega arith
Step-taken (returns r e q p) = omega arith
Step-taken (ticks r q) = omega arith
Step-taken (loads_completed r q) = omega arith
Step-taken (loads_failed r c q) = omega arith
Step-taken (beats r q) = omega arith
Step-taken (stops r e q p) = omega arith

next : (n : ℕ) → n + 1 < 2 ^ 63 → (n + 1) % 2 ^ 64 ≡ n + 1
next n h = omega arith

-- A step that leaves the counters and the statuses as they are, and starts no status.
kept :
    {r s : Run}
    → s.completed_tasks + s.failed_tasks + in_hand s.main ≡ s.taken
    → (r.completed_tasks ≡ s.completed_tasks)
      × (r.failed_tasks ≡ s.failed_tasks)
      × (r.reported ≡ s.reported)
    → ((c : ℤ) → s.beat ≡ half c → r.beat ≡ half c)
    → IsCounted r
    → IsCounted s
kept {r} {s} total (c, f, p) loaded i = record {
  total = total;
  below = rw (← c, ← f, ← p) i.below;
  monotone = rw (← p) i.monotone;
  loaded = λ n q. rw (← c, ← f, ← p) (i.loaded n (loaded n q));
}

completed_more :
    (r : Run)
    → r.main ≡ processing
    → r.taken < 2 ^ 63
    → IsCounted r
    → IsCounted (record r { main = waiting; completed_tasks = (r.completed_tasks + 1) % 2 ^ 64 })
completed_more r q small i =
    let hand : in_hand r.main ≡ 1 = ground arith in
    let more : (r.completed_tasks + 1) % 2 ^ 64 ≡ r.completed_tasks + 1 =
      next r.completed_tasks (omega (arith, hand, i.total)) in
    let up = signed-next r.completed_tasks (omega (arith, hand, i.total)) in
    record {
      total = omega (arith, hand, more, i.total);
      below = Below-mono _ _ _ _ r.reported up (IsAtMost-refl (signed r.failed_tasks)) i.below;
      monotone = i.monotone;
      loaded = λ c p.
          let (m, b) = i.loaded c p in
          (
            IsAtMost-trans c (signed r.completed_tasks) (signed ((r.completed_tasks + 1) % 2 ^ 64))
                m up,
            b,
          );
    }

failed_more :
    (r : Run)
    → r.main ≡ failing
    → r.taken < 2 ^ 63
    → IsCounted r
    → IsCounted (record r { main = waiting; failed_tasks = (r.failed_tasks + 1) % 2 ^ 64 })
failed_more r q small i =
    let hand : in_hand r.main ≡ 1 = ground arith in
    let more : (r.failed_tasks + 1) % 2 ^ 64 ≡ r.failed_tasks + 1 =
      next r.failed_tasks (omega (arith, hand, i.total)) in
    let up = signed-next r.failed_tasks (omega (arith, hand, i.total)) in
    record {
      total = omega (arith, hand, more, i.total);
      below = Below-mono _ _ _ _ r.reported (IsAtMost-refl (signed r.completed_tasks)) up i.below;
      monotone = i.monotone;
      loaded = λ c p.
          let (m, b) = i.loaded c p in (m, Below-mono _ _ _ _ r.reported (IsAtMost-refl c) up b);
    }

Step-IsCounted : {r s : Run} → Step r s → s.taken < 2 ^ 63 → IsCounted r → IsCounted s
Step-IsCounted (ends r e q) small i = kept i.total (refl, refl, refl) (λ c p. p) i
Step-IsCounted (takes r q) small i =
    let t = i.total in kept (ground arith) (refl, refl, refl) (λ c p. p) i
Step-IsCounted (completes r q) small i = completed_more r q small i
Step-IsCounted (fails r q) small i =
    let t = i.total in kept (ground arith) (refl, refl, refl) (λ c p. p) i
Step-IsCounted (counts_failure r q) small i = failed_more r q small i
Step-IsCounted (returns r e q p) small i =
    let t = i.total in kept (ground arith) (refl, refl, refl) (λ c p. p) i
Step-IsCounted (ticks r q) small i = kept i.total (refl, refl, refl) (λ c p. ground arith) i
Step-IsCounted (loads_completed r q) small i = record {
  total = i.total;
  below = i.below;
  monotone = i.monotone;
  loaded = λ c p.
      let same : signed r.completed_tasks ≡ c = ground arith in
      rw (← same) (IsAtMost-refl (signed r.completed_tasks), i.below);
}
Step-IsCounted (loads_failed r c q) small i =
    let (m, b) = i.loaded c q in
    record {
      total = i.total;
      below = (m, IsAtMost-refl (signed r.failed_tasks), i.below);
      monotone = (b, i.monotone);
      loaded = λ d p. ground arith;
    }
Step-IsCounted (beats r q) small i = kept i.total (refl, refl, refl) (λ c p. ground arith) i
Step-IsCounted (stops r e q p) small i = kept i.total (refl, refl, refl) (λ c z. ground arith) i

Steps-IsCounted : {r s : Run} → Steps r s → s.taken < 2 ^ 63 → IsCounted r → IsCounted s
Steps-IsCounted (no_step r) small i = i
Steps-IsCounted (and_step before step) small i =
    Step-IsCounted step small (Steps-IsCounted before (omega (arith, Step-taken step)) i)

-- However the main loop and the health loop interleave, of fewer than 2 ^ 63 tasks each one that was
-- taken is counted exactly once, as completed or failed, or is the one in hand. No status, which
-- has the counters as signed ints, tells more than they hold, and no later status tells less of either
-- count than an earlier one.
pub reached-IsCounted : {r : Run} → Steps new_run r → r.taken < 2 ^ 63 → IsCounted r
unfolding new_run
reached-IsCounted steps small =
    Steps-IsCounted steps small
      (record { total = refl; below = tt; monotone = tt; loaded = λ c p. ground arith })
