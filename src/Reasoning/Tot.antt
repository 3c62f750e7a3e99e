-- ===== src/Reasoning/Tot.antt =====
-- internal/reasoning/executor.go: executeToT, the mode of branches and a synthesis.
use g_lm.Prelude.{ℕ, zero, suc, ◌+◌, false, Option, some, List, [], ◌∷◌, ◌++◌, take, if◌then◌else◌}
use g_lm.Prelude.Int.{pos, pos_part}
use g_lm.Prelude.Texts.{Text, lit, is_empty}
use g_lm.Prelude.Results.{ok, err, decimal}
use g_lm.Prelude.Floats.{Float64}
use g_lm.Model.Chat.{ReasoningOptions, ChatCompletionRequest, string}
use g_lm.Model.Records.{ModelPolicy}
use g_lm.Model.Session.{CognitiveState}
use g_lm.Orchestrator.Router.{Router}
use g_lm.Orchestrator.Lookup.{Order}
use g_lm.Metareasoning.Signals.{first_content}
use g_lm.Reasoning.Config.{Config, at_least, at_most}
use g_lm.Reasoning.Records.{World, Node, BranchResult, PruneStats, Trace}
use g_lm.Reasoning.Evaluation.{
  Evaluation, MemoryAnchorAccumulator, evaluate_output, add_candidate, resolve_memory_anchors,
  new_accumulator, anchor_trace, branch_warnings,
}
use g_lm.Reasoning.Pruning.{
  no_stats, merge, prune_branches, prune_tot_accumulated, prune_stable_sort, pruning_trace,
}
use g_lm.Reasoning.Contradictions.{detect_contradictions}
use g_lm.Reasoning.Geometry.{asked_or, apply_geometry_and_fusion}
use g_lm.Reasoning.Messages.{build_branch_messages, build_synthesis_messages}
use g_lm.Reasoning.Start.{Execution, failed, started, safe_mode, start, ask, call_node}

unfoldable pub resolve_branches : {F : Type 0} → Config F → Option (ReasoningOptions F) → ℕ
resolve_branches cfg o = pos_part (
    at_most cfg.max_branches (at_least (pos 2) (asked_or cfg.default_branches (λ o. o.branches) o)))

-- The variables of the loop over the branches.
pub record Branches (F S : Type 0) : Type 0 where
  pub world : S
  pub results : List (BranchResult F)
  pub successful : List (BranchResult F)
  pub anchors : MemoryAnchorAccumulator F
  pub stats : PruneStats
  pub nodes : List (Node F)

module _ (fl : Float64) {S : Type 0} (w : World fl.F S) where
  open fl use {F, milli}

  -- The result of a branch that has answered.
  unfoldable pub branch_result : ℕ → Text → Text → Evaluation F → BranchResult F
  unfolding branch_warnings
  branch_result i model output ev = record {
    index = i + 1;
    model = model;
    output = output;
    evaluation_score = ev.score;
    evaluation_reason = ev.reason;
    warnings = branch_warnings output;
  }

  unfoldable pub keep_branch : Config F → BranchResult F → Branches F S → Branches F S
  unfolding prune_tot_accumulated merge
  keep_branch cfg b l =
      let results = l.results ++ b ∷ [] in
      let pruned = prune_tot_accumulated fl cfg results in
      let next = record l { results = results; successful = l.successful ++ b ∷ [] } in
      if cfg.pruning_enabled
      then record next { results = pruned.0; stats = merge l.stats pruned.1 }
      else next

  unfoldable pub branch_step :
      Config F
      → ChatCompletionRequest F
      → CognitiveState F
      → Text
      → List Text
      → ℕ
      → ℕ
      → Branches F S
      → Branches F S
  unfolding build_branch_messages decimal evaluate_output add_candidate branch_result keep_branch
  branch_step cfg req st model anchors total i l =
      let called = ask w req model (build_branch_messages req.messages i total anchors) l.world in
      let id = lit "branch-" ++ decimal (i + 1) in
      let node = call_node w (milli 0) id (lit "branch") model l.world called.0 in
      elim called.1 [
        | err e ↦ record l { world = called.0; nodes = l.nodes ++ record node { error = e } ∷ [] }
        | ok resp ↦
            let output = first_content resp in
            let ev = evaluate_output fl cfg req output st false in
            let scored = record node {
              score = ev.score;
              metadata = (lit "evaluation_reason", string ev.reason) ∷ [];
            } in
            keep_branch cfg (branch_result i model output ev) (record l {
              world = called.0;
              anchors = add_candidate fl anchors ev l.anchors;
              nodes = l.nodes ++ scored ∷ [];
            })
      ]

  -- The loop from the branch `i` on, with so many left.
  unfoldable pub run_branches :
      Config F
      → ChatCompletionRequest F
      → CognitiveState F
      → Text
      → List Text
      → ℕ
      → ℕ
      → ℕ
      → Branches F S
      → Branches F S
  unfolding branch_step
  run_branches cfg req st model anchors total i zero l = l
  run_branches cfg req st model anchors total i (suc left) l =
      run_branches cfg req st model anchors total (i + 1) left
        (branch_step cfg req st model anchors total i l)

  -- The branches for the synthesis, with the sums of the pruning.
  unfoldable pub synthesis_branches : Config F → Branches F S → List (BranchResult F) × PruneStats
  unfolding prune_stable_sort prune_branches merge
  synthesis_branches cfg l =
      let sorted = prune_stable_sort fl (lit "tot") l.successful in
      let results = if is_empty l.results then sorted else l.results in
      let top_k = cfg.pruning_tot_synth_top_k in
      let pruned = prune_branches fl (lit "tot") results cfg.pruning_min_score top_k in
      if cfg.pruning_enabled
      then (
        if is_empty pruned.0 then take (pos_part top_k) sorted else pruned.0,
        merge l.stats pruned.1,
      )
      else (results, l.stats)

  -- The call for the synthesis, and the trace of the run.
  unfoldable pub synthesize :
      Config F
      → ChatCompletionRequest F
      → List Text
      → Router F
      → Trace F
      → Branches F S
      → Execution F S
  unfolding synthesis_branches detect_contradictions build_synthesis_messages anchor_trace
      apply_geometry_and_fusion
  synthesize cfg req anchors r trace l =
      let chosen = synthesis_branches cfg l in
      let contradictions = detect_contradictions fl chosen.0 in
      let model = trace.chosen_model in
      let messages = build_synthesis_messages w req.messages chosen.0 contradictions anchors in
      let called = ask w req model messages l.world in
      let node =
        call_node w (milli 0) (lit "synthesis-1") (lit "synthesis") model l.world called.0 in
      let traced = record trace {
        contradictions = contradictions;
        branches = chosen.0;
        pruning =
            some (pruning_trace fl (lit "tot") cfg cfg.pruning_tot_synth_top_k chosen.1 chosen.0);
        memory_anchor =
            some (anchor_trace fl cfg.memory_anchored_reasoning_enabled (lit "tot") l.anchors);
      } in
      elim called.1 [
        | err e ↦ record {
          world = called.0;
          router = r;
          trace = record traced { nodes = l.nodes ++ record node { error = e } ∷ [] };
          result = err (lit "pipeline synthesis failed: " ++ e);
        }
        | ok resp ↦ record {
          world = called.0;
          router = r;
          trace =
              apply_geometry_and_fusion fl cfg req (record traced { nodes = l.nodes ++ node ∷ [] });
          result = ok resp;
        }
      ]

  unfoldable pub no_branches : S → List Text → Branches F S
  unfolding new_accumulator
  no_branches s anchors = record {
    world = s;
    results = [];
    successful = [];
    anchors = new_accumulator fl anchors;
    stats = no_stats;
    nodes = [];
  }

  -- After the choice of the model.
  unfoldable pub run_tot :
      Config F → ChatCompletionRequest F → CognitiveState F → S → Router F → Trace F → Execution F S
  unfolding resolve_branches resolve_memory_anchors no_branches run_branches synthesize
  run_tot cfg req st s r trace =
      let n = resolve_branches cfg req.reasoning in
      let anchors = resolve_memory_anchors fl cfg req in
      let l = run_branches cfg req st trace.chosen_model anchors n 0 n (no_branches s anchors) in
      if is_empty l.successful
      then record {
        world = l.world;
        router = r;
        trace = trace;
        result = err (lit "pipeline failed: no successful branches");
      }
      else synthesize cfg req anchors r trace l

  -- executeToT
  unfoldable pub execute_tot :
      Order
      → Config F
      → ChatCompletionRequest F
      → ModelPolicy
      → CognitiveState F
      → Router F
      → S
      → Execution F S
  unfolding start safe_mode run_tot
  execute_tot order cfg req pol st r s =
      elim (start w order (lit "pipeline model inventory failed: ") (safe_mode req.reasoning) req
        pol st r s) [ failed x ↦ x | started s' r' trace ↦ run_tot cfg req st s' r' trace ]
