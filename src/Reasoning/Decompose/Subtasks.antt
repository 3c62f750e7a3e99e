-- ===== src/Reasoning/Decompose/Subtasks.antt =====
-- internal/reasoning/decompose.go: the planner and the subtasks.
use g_lm.Prelude.{
  ℕ, ◌+◌, Bool, true, false, not, Option, none, some, List, [], ◌∷◌, ◌++◌, length, leb,
  if◌then◌else◌,
}
use g_lm.Prelude.Texts.{Text, lit}
use g_lm.Prelude.Results.{ok, err, decimal}
use g_lm.Prelude.Floats.{Float64}
use g_lm.Prelude.Maps.{Map}
use g_lm.Model.Chat.{Json, string, ReasoningOptions, ChatCompletionRequest}
use g_lm.Model.Session.{CognitiveState}
use g_lm.Metareasoning.Signals.{first_content}
use g_lm.Reasoning.Config.{Config}
use g_lm.Reasoning.Records.{World, Node, BranchResult}
use g_lm.Reasoning.Evaluation.{
  MemoryAnchorAccumulator, evaluate_output, add_candidate, estimate_tokens,
}
use g_lm.Reasoning.Messages.{
  json_number, build_decompose_planner_messages, build_decompose_subtask_messages,
  build_decompose_baseline_messages,
}
use g_lm.Reasoning.Start.{Baseline, ask, call_node, baseline_call}
use g_lm.Reasoning.Tot.{branch_result}
use g_lm.Reasoning.Decompose.Planner.{DecomposeConfig, parse_decompose_subtasks, decompose_seed}

-- The variables of the loop over the subtasks.
pub record Subtasks (F S : Type 0) : Type 0 where
  pub world : S
  pub successful : List (BranchResult F)
  pub anchors : MemoryAnchorAccumulator F
  pub nodes : List (Node F)
  pub budget_used : ℕ

-- A flag that the options of a request, if it has any, leave out.
abbrev pub denies : {F : Type 0} → (ReasoningOptions F → Bool) → Option (ReasoningOptions F) → Bool
denies flag none = false
denies flag (some o) = not (flag o)

module _ (fl : Float64) {S : Type 0} (w : World fl.F S) where
  open fl use {F, milli}

  -- planSubtasks
  unfoldable pub plan_subtasks :
      ChatCompletionRequest F → Text → DecomposeConfig → List Text → S → S × List Text × Node F
  unfolding build_decompose_planner_messages decompose_seed parse_decompose_subtasks json_number
  plan_subtasks req model cfg anchors s =
      let messages =
        build_decompose_planner_messages w req.messages cfg.max_subtasks cfg.max_depth anchors in
      let called = ask w req model messages s in
      let node =
        call_node w (milli 0) (lit "decompose-planner") (lit "decompose_planner") model s
          called.0 in
      let synthetic = decompose_seed req.messages ∷ [] in
      let fallback : Map Json =
        (lit "planned_subtasks", json_number 1)
        ∷ (lit "fallback", string (lit "synthetic_single"))
        ∷ [] in
      elim called.1 [
        | err e ↦ (called.0, synthetic, record node { error = e; metadata = fallback })
        | ok resp ↦
            elim (parse_decompose_subtasks w.unmarshal (first_content resp) cfg.max_subtasks) [
              | err e ↦ (
                called.0,
                synthetic,
                record node { metadata = fallback ++ (lit "parse_error", string e) ∷ [] },
              )
              | ok subtasks ↦ (
                called.0,
                subtasks,
                record node {
                  metadata = (lit "planned_subtasks", json_number (length subtasks)) ∷ [];
                },
              )
            ]
      ]

  -- The subtask `i` of `total`.
  unfoldable pub subtask_step :
      Config F
      → ChatCompletionRequest F
      → CognitiveState F
      → Text
      → List Text
      → ℕ
      → ℕ
      → Text
      → Subtasks F S
      → Subtasks F S
  unfolding build_decompose_subtask_messages decimal evaluate_output add_candidate branch_result
      estimate_tokens json_number
  subtask_step cfg req st model anchors total i subtask l =
      let messages = build_decompose_subtask_messages w req.messages i total subtask anchors in
      let called = ask w req model messages l.world in
      let id = lit "decompose-subtask-" ++ decimal (i + 1) in
      let metadata : Map Json =
        (lit "subtask_index", json_number (i + 1)) ∷ (lit "subtask", string subtask) ∷ [] in
      let node =
        record (call_node w (milli 0) id (lit "decompose_subtask") model l.world called.0) {
          metadata = metadata;
        } in
      elim called.1 [
        | err e ↦ record l { world = called.0; nodes = l.nodes ++ record node { error = e } ∷ [] }
        | ok resp ↦
            let output = first_content resp in
            let ev = evaluate_output fl cfg req output st true in
            record {
              world = called.0;
              successful = l.successful ++ branch_result fl w i model output ev ∷ [];
              anchors = add_candidate fl anchors ev l.anchors;
              nodes =
                  l.nodes
                  ++ record node {
                    score = ev.score;
                    metadata = metadata ++ (lit "evaluation_reason", string ev.reason) ∷ [];
                  }
                    ∷ [];
              budget_used =
                  l.budget_used + (estimate_tokens fl subtask + estimate_tokens fl output);
            }
      ]

  -- The loop over the subtasks from the number `i` on.
  unfoldable pub run_subtasks :
      Config F
      → ChatCompletionRequest F
      → CognitiveState F
      → Text
      → List Text
      → ℕ
      → ℕ
      → ℕ
      → List Text
      → Subtasks F S
      → Subtasks F S
  unfolding subtask_step
  run_subtasks cfg req st model anchors budget total i [] l = l
  run_subtasks cfg req st model anchors budget total i (t ∷ ts) l =
      let rest =
        run_subtasks cfg req st model anchors budget total (i + 1) ts
          (subtask_step cfg req st model anchors total i t l) in
      elim (w.context_error l.world) [
        | some e ↦ l
        | none ↦ if leb budget l.budget_used then l else rest
      ]

  -- decomposeBaselineCandidate
  unfoldable pub decompose_baseline :
      Config F → ChatCompletionRequest F → CognitiveState F → Text → List Text → S → Baseline F S
  unfolding baseline_call build_decompose_baseline_messages
  decompose_baseline cfg req st model anchors s =
      let messages = build_decompose_baseline_messages w req.messages anchors in
      baseline_call fl w cfg req st (lit "decompose-baseline") (lit "decompose_baseline") [] model
        (record req { messages = messages }) s
