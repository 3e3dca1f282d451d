-- ===== src/Hcs/Race/Tests.antt =====
-- Two goroutines that publish in the other order than that of their numbers.
use agent_inference_ethden.Base.{ℕ, ◌≤◌, ◌<◌, ◌≡◌, ◌⊎◌, refl, [], ◌∷◌, arith}
use agent_inference_ethden.Hcs.Types.{Envelope}
use agent_inference_ethden.Hcs.Race.{Race, new_race, numbers, publishes, Steps, no_step, and_step}
use agent_inference_ethden.Hcs.Race.Laws.{count, published_once}

abbrev envelope : ℕ → Envelope
envelope n = record {
  type = "heartbeat";
  sender = "agent";
  recipient = "";
  task_id = "";
  sequence_num = n;
  timestamp = 0;
  payload = [];
}

abbrev both : Race
both = record { numbered = 2; in_flight = envelope 2 ∷ envelope 1 ∷ []; published = [] }

abbrev swapped : Race
swapped = record { numbered = 2; in_flight = []; published = envelope 2 ∷ envelope 1 ∷ [] }

steps : Steps new_race swapped
unfolding new_race
steps =
    and_step
      (and_step
        (and_step (and_step (no_step new_race) (numbers new_race (envelope 1) refl)) (
          numbers (record { numbered = 1; in_flight = envelope 1 ∷ []; published = [] })
            (envelope 2) refl))
        (publishes both (envelope 2) [] (envelope 1 ∷ []) refl))
      (publishes (record { numbered = 2; in_flight = envelope 1 ∷ []; published = envelope 2 ∷ [] })
        (envelope 1) [] [] refl)

published_once_example :
    (count 2 swapped.published ≤ 1)
    × ((count 2 swapped.published ≡ 0) ⊎ ((0 < 2) × (2 ≤ swapped.numbered)))
published_once_example = published_once 2 steps (omega arith)
