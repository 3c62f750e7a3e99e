-- ===== src/Reasoning/Messages.antt =====
-- internal/reasoning/executor.go, mcts.go, multiagent.go and decompose.go: the messages that the modes
-- put before those of a request. encoding/json sorts the keys of a map, and leaves out the empty
-- fields of a record that are so marked.
use g_lm.Prelude.{ℕ, ◌+◌, ◌%◌, ◌==◌, List, [], ◌∷◌, ◌++◌, map, take, if◌then◌else◌}
use g_lm.Prelude.Texts.{Text, lit, text_eq, to_lower, trim_space, join}
use g_lm.Prelude.Results.{decimal}
use g_lm.Model.Chat.{Json, bool, number, string, array, Message}
use g_lm.Model.Json.{items, json_object, json_strings, unless_empty, unless_blank, system_message}
use g_lm.Metareasoning.Signals.{ContradictionReport}
use g_lm.Reasoning.Records.{World, BranchResult}

unfoldable pub json_number : ℕ → Json
unfolding decimal
json_number n = number (decimal n)

-- The field of the anchors, if there are any.
abbrev pub anchor_field : List Text → List (Text × Json)
anchor_field [] = []
anchor_field (a ∷ anchors) = (lit "memory_anchors", json_strings (a ∷ anchors)) ∷ []

unfoldable pub json_report : ContradictionReport → Json
json_report r = json_object (
    (lit "detected", bool r.detected) ∷ unless_empty (lit "pairs") r.pairs
    ++ unless_blank (lit "summary") r.summary)

unfoldable pub anchor_hint : List Text → Text
unfolding join
anchor_hint [] = []
anchor_hint (a ∷ anchors) =
    lit " Memory anchors (prioritize if relevant): " ++ (join (a ∷ anchors) (lit ", ") ++ lit ".")

unfoldable pub branch_prompt : ℕ → Text
branch_prompt idx =
    if idx % 3 == 0
    then lit "deductive"
    else if idx % 3 == 1
    then lit "risk-first"
    else lit "cost-performance"

unfoldable pub build_branch_messages : List Message → ℕ → ℕ → List Text → List Message
unfolding decimal branch_prompt anchor_hint
build_branch_messages base i total anchors =
    system_message (
      lit "Reasoning pipeline branch "
      ++ decimal (i + 1)
      ++ lit "/"
      ++ decimal total
      ++ lit ": produce a complete answer with explicit assumptions and checks. Strategy="
      ++ branch_prompt i
      ++ lit "."
      ++ anchor_hint anchors)
    ∷ base

unfoldable pub build_mcts_baseline_messages : List Message → List Text → List Message
unfolding anchor_hint
build_mcts_baseline_messages base anchors =
    system_message (
      lit
        "mcts baseline responder: provide a concise, actionable answer with assumptions and controls."
      ++ anchor_hint anchors)
    ∷ base

unfoldable pub build_multi_agent_baseline_messages : List Message → List Text → List Message
unfolding anchor_hint
build_multi_agent_baseline_messages base anchors =
    system_message (
      lit
        "multi_agent baseline responder: produce one concise, practical answer with explicit assumptions, "
      ++ lit "controls, and residual risk."
      ++ anchor_hint anchors)
    ∷ base

unfoldable pub mcts_instruction : Text → Text
unfolding to_lower trim_space text_eq
mcts_instruction task_mode =
    if text_eq (to_lower (trim_space task_mode)) (lit "coding")
    then lit
        "Produce a concise, testable solution. Include assumptions, validation checks, and explicit test strategy."
    else if text_eq (to_lower (trim_space task_mode)) (lit "extraction")
    then lit
        "Produce an evidence-grounded extraction. Include assumptions, source grounding, and uncertainty markers."
    else lit
        "Produce a concise, verifiable answer. Include assumptions, controls, and residual uncertainty."

module _ {F S : Type 0} (w : World F S) where
  unfoldable pub json_branch : BranchResult F → Json
  unfolding json_number
  json_branch b = json_object (
      (lit "index", json_number b.index)
        ∷ (lit "model", string b.model)
        ∷ (lit "output", string b.output)
        ∷ (lit "evaluation_score", number (w.float_text b.evaluation_score))
        ∷ unless_blank (lit "evaluation_reason") b.evaluation_reason
      ++ unless_empty (lit "warnings") b.warnings)

  unfoldable pub json_branches : List (BranchResult F) → Json
  unfolding json_branch
  json_branches branches = array (items (map json_branch (take 3 branches)))

  unfoldable pub build_synthesis_messages :
      List Message → List (BranchResult F) → ContradictionReport → List Text → List Message
  unfolding json_branches json_report
  build_synthesis_messages base branches contradictions anchors =
      system_message (
        lit
          "Synthesize the strongest final response. Resolve conflicts using evidence and mention residual uncertainty briefly. Branch payload: "
        ++ w.marshal (
            json_object (
              (lit "contradictions", json_report contradictions) ∷ anchor_field anchors
              ++ (lit "top_branches", json_branches branches) ∷ [])))
      ∷ base

  unfoldable pub build_mcts_messages : List Message → List Text → Text → List Text → List Message
  unfolding mcts_instruction
  build_mcts_messages base path task_mode anchors =
      system_message (
        lit "mcts_agent path context: "
        ++ w.marshal (
            json_object (
              (lit "instruction", string (mcts_instruction task_mode)) ∷ anchor_field anchors
              ++ (lit "path", json_strings path) ∷ [])))
      ∷ base

  unfoldable pub build_decompose_planner_messages : List Message → ℕ → ℕ → List Text → List Message
  unfolding json_number
  build_decompose_planner_messages base max_subtasks max_depth anchors =
      system_message (
        lit "decompose planner: break the user request into bounded, actionable subtasks. "
        ++ lit "Return strict JSON only, no prose. Planner config: "
        ++ w.marshal (
            json_object (
              (lit "max_depth", json_number max_depth)
                ∷ (lit "max_subtasks", json_number max_subtasks)
                ∷ anchor_field anchors
              ++ (
                lit "output",
                json_object (
                    (lit "format", string (lit "json"))
                    ∷ (lit "shape", string (lit "{\"subtasks\":[{\"task\":\"...\"}]}"))
                    ∷ []),
              )
                ∷ [])))
      ∷ base

  unfoldable pub build_decompose_subtask_messages :
      List Message → ℕ → ℕ → Text → List Text → List Message
  unfolding json_number
  build_decompose_subtask_messages base i total subtask anchors =
      system_message (
        lit "decompose worker context: "
        ++ w.marshal (
            json_object (
              anchor_field anchors
              ++ (lit "subtask", string subtask)
                ∷ (lit "subtask_index", json_number (i + 1))
                ∷ (lit "subtask_total", json_number total)
                ∷ []))
        ++ lit
            ". Execute only this subtask and produce concrete output with assumptions and checks.")
      ∷ base

  unfoldable pub build_decompose_synthesis_messages :
      List Message
      → List Text
      → List (BranchResult F)
      → ContradictionReport
      → List Text
      → List Message
  unfolding json_branches json_report
  build_decompose_synthesis_messages base subtasks sorted contradictions anchors =
      system_message (
        lit "decompose synthesizer payload: "
        ++ w.marshal (
            json_object (
              (lit "contradictions", json_report contradictions)
                ∷ (
                  lit "instruction",
                  string (
                      lit "Synthesize one final answer grounded in the strongest subtask outputs."),
                )
                ∷ anchor_field anchors
              ++ (lit "subtasks", json_strings subtasks)
                ∷ (lit "top_branches", json_branches sorted)
                ∷ [])))
      ∷ base

  unfoldable pub build_decompose_baseline_messages : List Message → List Text → List Message
  build_decompose_baseline_messages base anchors =
      system_message (
        lit "decompose baseline responder: "
        ++ w.marshal (
            json_object (
              (
                lit "instruction",
                string (
                    lit
                      "Provide one complete response for the original request with assumptions and checks."),
              )
              ∷ anchor_field anchors)))
      ∷ base

  unfoldable pub build_multi_agent_role_messages :
      List Message → Text → Text → ℕ → List Text → List Message
  unfolding json_number
  build_multi_agent_role_messages base name prompt round anchors =
      system_message (
        lit "multi_agent role context: "
        ++ w.marshal (
            json_object (
              anchor_field anchors
              ++ (lit "role", string name) ∷ (lit "round", json_number round) ∷ []))
        ++ lit ". "
        ++ prompt)
      ∷ base
