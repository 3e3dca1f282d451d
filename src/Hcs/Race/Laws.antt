-- ===== src/Hcs/Race/Laws.antt =====
-- Which sequence numbers are published.
use agent_inference_ethden.Base.{
  ℕ, ◌+◌, ◌%◌, ◌^◌, ◌≤◌, ◌<◌, ◌≡◌, ◌≢◌, ◌⊎◌, refl, ap, List, [], ◌∷◌, ◌++◌, ◌==◌, ==_iff,
  Bool-cases, inl, inr, ltb, ltb→lt, if◌then◌else◌, arith,
}
use agent_inference_ethden.Hcs.Types.{Envelope}
use agent_inference_ethden.Hcs.Race.{
  Race, new_race, Step, numbers, drops, publishes, Steps, no_step, and_step,
}

-- How many envelopes of a list carry the number.
abbrev pub count : ℕ → List Envelope → ℕ
count n [] = 0
count n (e ∷ es) = (if e.sequence_num == n then 1 else 0) + count n es

count-append : (n : ℕ) (xs ys : List Envelope) → count n (xs ++ ys) ≡ count n xs + count n ys
count-append n [] ys = omega arith
count-append n (x ∷ xs) ys = omega (arith, count-append n xs ys)

abbrev occurrences : ℕ → Race → ℕ
occurrences n s = count n s.in_flight + count n s.published

-- No number is carried twice, and none beyond the counter.
record IsUnique (s : Race) : Type 0 where
  once : (n : ℕ) → occurrences n s ≤ 1
  bounded : (n : ℕ) → s.numbered < n → occurrences n s ≡ 0
  positive : occurrences 0 s ≡ 0

taken_out :
    (n : ℕ) (e : Envelope) (before after : List Envelope) {all : List Envelope}
    → all ≡ before ++ e ∷ after
    → count n all ≡ count n (before ++ after) + count n (e ∷ [])
taken_out n e before after same =
    omega (arith, ap (count n) same, count-append n before (e ∷ after), count-append n before after)

Step-numbered : {s t : Race} → Step s t → s.numbered ≤ t.numbered
Step-numbered (numbers s e q) = omega arith
Step-numbered (drops s e before after q) = omega arith
Step-numbered (publishes s e before after q) = omega arith

added :
    (n : ℕ) (e : Envelope) (es : List Envelope)
    → ((n ≡ e.sequence_num) × (count n (e ∷ es) ≡ 1 + count n es))
      ⊎ ((n ≢ e.sequence_num) × (count n (e ∷ es) ≡ count n es))
added n e es = elim (Bool-cases (e.sequence_num == n)) [
  | inl b ↦ inl (ground arith, ground arith)
  | inr b ↦ inr (λ q. ground arith, ground arith)
]

numbers-IsUnique :
    (s : Race) (e : Envelope)
    → e.sequence_num ≡ (s.numbered + 1) % 2 ^ 64
    → s.numbered + 1 < 2 ^ 64
    → IsUnique s
    → IsUnique (record s { numbered = s.numbered + 1; in_flight = e ∷ s.in_flight })
numbers-IsUnique s e q small i = record {
  once = λ n. elim (added n e s.in_flight) [
    | inl (same, c) ↦ omega (arith, c, i.bounded n (omega arith))
    | inr (other, c) ↦ omega (arith, c, i.once n)
  ];
  bounded = λ n h. elim (added n e s.in_flight) [
    | inl (same, c) ↦ absurd (omega arith)
    | inr (other, c) ↦ omega (arith, c, i.bounded n (omega arith))
  ];
  positive = elim (added 0 e s.in_flight) [
    | inl (same, c) ↦ absurd (omega arith)
    | inr (other, c) ↦ omega (arith, c, i.positive)
  ];
}

Step-IsUnique : {s t : Race} → Step s t → t.numbered < 2 ^ 64 → IsUnique s → IsUnique t
Step-IsUnique (numbers s e q) small i = numbers-IsUnique s e q small i
Step-IsUnique (drops s e before after q) small i = record {
  once = λ n. omega (arith, i.once n, taken_out n e before after q);
  bounded = λ n h. omega (arith, i.bounded n h, taken_out n e before after q);
  positive = omega (arith, i.positive, taken_out 0 e before after q);
}
Step-IsUnique (publishes s e before after q) small i = record {
  once = λ n.
      omega (arith, i.once n, taken_out n e before after q, count-append n s.published (e ∷ []));
  bounded = λ n h.
      omega
        (arith, i.bounded n h, taken_out n e before after q, count-append n s.published (e ∷ []));
  positive =
      omega (arith, i.positive, taken_out 0 e before after q, count-append 0 s.published (e ∷ []));
}

Steps-IsUnique : {s t : Race} → Steps s t → t.numbered < 2 ^ 64 → IsUnique s → IsUnique t
Steps-IsUnique (no_step s) small i = i
Steps-IsUnique (and_step before step) small i =
    Step-IsUnique step small (Steps-IsUnique before (omega (arith, Step-numbered step)) i)

-- However the publications of several goroutines interleave, of fewer than 2 ^ 64 no two messages that
-- are handed to the transport carry the same sequence number, and none carries 0 or a number that
-- was not taken yet.
pub published_once :
    {t : Race} (n : ℕ)
    → Steps new_race t
    → t.numbered < 2 ^ 64
    → (count n t.published ≤ 1) × ((count n t.published ≡ 0) ⊎ ((0 < n) × (n ≤ t.numbered)))
unfolding new_race
published_once {t} n steps small =
    let i =
      Steps-IsUnique steps small
        (record { once = λ n. omega arith; bounded = λ n h. refl; positive = refl }) in
    (
      omega (arith, i.once n),
      elim (Bool-cases (ltb t.numbered n)) [
        | inl b ↦ inl (omega (arith, i.bounded n (ltb→lt t.numbered n b)))
        | inr b ↦ elim (Bool-cases (n == 0)) [
          | inl z ↦ inl (ground (arith, i.positive, (==_iff n 0).0 z))
          | inr z ↦ inr (ground arith, ground arith)
        ]
      ],
    )
