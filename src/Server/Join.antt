-- ===== src/Server/Join.antt =====
-- The end of `runProducerConsumer`, internal/taskexec/execution_handler.go.
use a2a_go.Base.{
  Option, some, List, [], ◌∷◌, ◌++◌, map, ◌≡◌, refl, ◌↔◌, ◌∙◌, inl, inr, arith, Option-cases, Fault,
  ok,
}
use a2a_go.TaskExec.Promise.{SendMessageResult}
use a2a_go.Server.Loop.{
  GroupEnd, consumer_stops, other_stops, processor_result, group_error, join_group,
}

processor_result-others :
    (fs : List (Option Fault)) (rest : List GroupEnd)
    → processor_result (map other_stops fs ++ rest) ≡ processor_result rest
unfolding processor_result
processor_result-others [] rest = refl
processor_result-others (f ∷ fs) rest = processor_result-others fs rest

-- The execution ends with a result exactly when its consumer stopped with that result: in whatever
-- order the consumer and the other goroutines end, and whatever errors any of them ends with.
pub join_group-result :
    (before after : List (Option Fault)) (x : Option SendMessageResult) (f : Option Fault)
    (r : SendMessageResult)
    → (join_group (map other_stops before ++ (consumer_stops x f ∷ map other_stops after)) ≡ ok r)
      ↔ (x ≡ some r)
unfolding join_group
join_group-result before after x f r =
    let ends = map other_stops before ++ (consumer_stops x f ∷ map other_stops after) in
    let first : processor_result (consumer_stops x f ∷ map other_stops after) ≡ x =
      unfold processor_result in refl in
    let got : processor_result ends ≡ x =
      processor_result-others before (consumer_stops x f ∷ map other_stops after) ∙ first in
    elim (Option-cases x) [
      | inl n ↦ elim (Option-cases (group_error ends)) [
        | inl g ↦ (λ h. absurd (ground arith), λ h. absurd (ground arith))
        | inr (e, g) ↦ (λ h. absurd (ground arith), λ h. absurd (ground arith))
      ]
      | inr (y, n) ↦ (λ h. ground arith, λ h. ground arith)
    ]
