-- ===== src/Reasoning/Decompose/Synthesis.antt =====
-- internal/reasoning/decompose.go: the synthesis, and executeDecompose.
use g_lm.Prelude.{Bool, true, false, none, some, List, [], ◌∷◌, ◌++◌, length, take, if◌then◌else◌}
use g_lm.Prelude.Int.{pos_part}
use g_lm.Prelude.Texts.{Text, lit, is_empty}
use g_lm.Prelude.Results.{ok, err}
use g_lm.Prelude.Floats.{Float64}
use g_lm.Model.Chat.{ChatCompletionRequest}
use g_lm.Model.Records.{ModelPolicy}
use g_lm.Model.Session.{CognitiveState}
use g_lm.Orchestrator.Router.{Router}
use g_lm.Orchestrator.Lookup.{Order}
use g_lm.Reasoning.Config.{Config}
use g_lm.Reasoning.Records.{World, BranchResult, PruneStats, Trace, new_trace}
use g_lm.Reasoning.Evaluation.{resolve_memory_anchors, new_accumulator, anchor_trace}
use g_lm.Reasoning.Pruning.{no_stats, prune_stable_sort, prune_branches, pruning_trace}
use g_lm.Reasoning.Contradictions.{detect_contradictions}
use g_lm.Reasoning.Geometry.{apply_geometry_and_fusion}
use g_lm.Reasoning.Messages.{json_number, build_decompose_synthesis_messages}
use g_lm.Reasoning.Start.{Execution, failed, started, start, ask, call_node}
use g_lm.Reasoning.Tot.{branch_result}
use g_lm.Reasoning.Decompose.Planner.{resolve_decompose_config}
use g_lm.Reasoning.Decompose.Subtasks.{
  Subtasks, denies, plan_subtasks, run_subtasks, decompose_baseline,
}

module _ (fl : Float64) {S : Type 0} (w : World fl.F S) where
  open fl use {F, milli}

  -- The branches for the synthesis, with the figures of the pruning.
  unfoldable pub decompose_branches :
      Config F → List (BranchResult F) → List (BranchResult F) × PruneStats
  unfolding prune_stable_sort prune_branches
  decompose_branches cfg successful =
      let sorted = prune_stable_sort fl (lit "decompose") successful in
      let top_k = cfg.pruning_tot_synth_top_k in
      let pruned = prune_branches fl (lit "decompose") sorted cfg.pruning_min_score top_k in
      let chosen =
        if cfg.pruning_enabled
        then (if is_empty pruned.0 then take (pos_part top_k) sorted else pruned.0)
        else sorted in
      let stats =
        if cfg.pruning_enabled
        then pruned.1
        else record no_stats { candidates_in = length sorted; candidates_out = length sorted } in
      (if is_empty chosen then take 1 successful else chosen, stats)

  abbrev first_score : List (BranchResult F) → F
  first_score [] = milli 0
  first_score (b ∷ bs) = b.evaluation_score

  -- The call for the synthesis, and the trace of the run.
  unfoldable pub synthesize_decompose :
      Config F
      → ChatCompletionRequest F
      → List Text
      → List Text
      → Router F
      → Trace F
      → Subtasks F S
      → Execution F S
  unfolding decompose_branches detect_contradictions prune_stable_sort
      build_decompose_synthesis_messages anchor_trace apply_geometry_and_fusion json_number
  synthesize_decompose cfg req anchors subtasks r trace l =
      let chosen = decompose_branches cfg l.successful in
      let contradictions = detect_contradictions fl chosen.0 in
      let model = trace.chosen_model in
      let sorted = prune_stable_sort fl (lit "decompose") chosen.0 in
      let messages =
        build_decompose_synthesis_messages w req.messages subtasks sorted contradictions anchors in
      let called = ask w req model messages l.world in
      let node =
        record (call_node w (milli 0) (lit "decompose-synthesis") (lit "decompose_synthesis") model
          l.world called.0) {
            metadata =
                (lit "subtasks_planned", json_number (length subtasks))
                ∷ (lit "subtasks_executed", json_number (length l.successful))
                ∷ [];
          } in
      let traced = record trace {
        contradictions = contradictions;
        branches = sorted;
        pruning =
            some (
              pruning_trace fl (lit "decompose") cfg cfg.pruning_tot_synth_top_k chosen.1 chosen.0);
        memory_anchor =
            some
              (anchor_trace fl cfg.memory_anchored_reasoning_enabled (lit "decompose") l.anchors);
        decompose = some (record {
          subtasks_planned = length subtasks;
          subtasks_executed = length l.successful;
          depth = 1;
          best_score = first_score sorted;
          fallback = [];
        });
      } in
      elim called.1 [
        | err e ↦ record {
          world = called.0;
          router = r;
          trace = record traced { nodes = l.nodes ++ record node { error = e } ∷ [] };
          result = err (lit "decompose synthesis failed: " ++ e);
        }
        | ok resp ↦ record {
          world = called.0;
          router = r;
          trace =
              apply_geometry_and_fusion fl cfg req (record traced { nodes = l.nodes ++ node ∷ [] });
          result = ok resp;
        }
      ]

  -- The subtasks that have answered, or else the baseline; false where that fails too.
  unfoldable pub with_baseline :
      Config F
      → ChatCompletionRequest F
      → CognitiveState F
      → Text
      → List Text
      → Subtasks F S
      → Subtasks F S × Bool
  unfolding decompose_baseline branch_result
  with_baseline cfg req st model anchors l =
      let b = decompose_baseline fl w cfg req st model anchors l.world in
      let m = record l { world = b.world; nodes = l.nodes ++ b.node ∷ [] } in
      if is_empty l.successful
      then elim b.answer [
        | none ↦ (m, false)
        | some (output, ev) ↦
            (record m { successful = branch_result fl w 0 model output ev ∷ [] }, true)
      ]
      else (l, true)

  -- After the choice of the model.
  unfoldable pub run_decompose :
      Config F → ChatCompletionRequest F → CognitiveState F → S → Router F → Trace F → Execution F S
  unfolding resolve_decompose_config resolve_memory_anchors plan_subtasks run_subtasks with_baseline
      synthesize_decompose anchor_trace new_accumulator
  run_decompose cfg req st s r trace =
      let limits = resolve_decompose_config cfg req.reasoning in
      let anchors = resolve_memory_anchors fl cfg req in
      let model = trace.chosen_model in
      let planned = plan_subtasks fl w req model limits anchors s in
      let subtasks = planned.1 in
      let first : Subtasks F S = record {
        world = planned.0;
        successful = [];
        anchors = new_accumulator fl anchors;
        nodes = planned.2 ∷ [];
        budget_used = 0;
      } in
      let done =
        run_subtasks fl w cfg req st model anchors limits.budget_tokens (length subtasks) 0 subtasks
          first in
      let l = with_baseline cfg req st model anchors done in
      if l.1 then synthesize_decompose cfg req anchors subtasks r trace l.0 else record {
        world = l.0.world;
        router = r;
        trace = record trace {
          nodes = l.0.nodes;
          memory_anchor =
              some (
                anchor_trace fl cfg.memory_anchored_reasoning_enabled (lit "decompose")
                  l.0.anchors);
        };
        result = err (lit "decompose failed: no successful subtask executions");
      }

  -- executeDecompose
  unfoldable pub execute_decompose :
      Order
      → Config F
      → ChatCompletionRequest F
      → ModelPolicy
      → CognitiveState F
      → Router F
      → S
      → Execution F S
  unfolding start run_decompose
  execute_decompose order cfg req pol st r s =
      if denies (λ o. o.decompose_enabled) req.reasoning
      then record {
        world = s;
        router = r;
        trace = new_trace (lit "decompose") st.task_mode;
        result = err (lit "decompose_enabled must be true when reasoning.mode=decompose");
      }
      else elim (start w order (lit "decompose model inventory failed: ") (lit "decompose") req pol
          st r s) [ failed x ↦ x | started s' r' trace ↦ run_decompose cfg req st s' r' trace ]
