-- ===== src/Reasoning/Mcts/Synthesis.antt =====
-- internal/reasoning/mcts.go: the synthesis, and executeMCTS.
use g_lm.Prelude.{
  ℕ, ◌+◌, Bool, false, none, some, List, [], ◌∷◌, ◌++◌, length, take, ltb, if◌then◌else◌,
}
use g_lm.Prelude.Texts.{Text, lit, is_empty}
use g_lm.Prelude.Results.{ok, err}
use g_lm.Prelude.Floats.{Float64}
use g_lm.Model.Chat.{ChatCompletionRequest}
use g_lm.Model.Records.{ModelPolicy}
use g_lm.Model.Session.{CognitiveState}
use g_lm.Orchestrator.Router.{Router}
use g_lm.Orchestrator.Lookup.{Order}
use g_lm.Reasoning.Config.{Config}
use g_lm.Reasoning.Records.{World, BranchResult, MctsResult, Trace}
use g_lm.Reasoning.Evaluation.{resolve_memory_anchors, anchor_trace}
use g_lm.Reasoning.Pruning.{sort_candidates, pruning_trace}
use g_lm.Reasoning.Contradictions.{detect_contradictions}
use g_lm.Reasoning.Geometry.{apply_geometry_and_fusion}
use g_lm.Reasoning.Messages.{build_synthesis_messages}
use g_lm.Reasoning.Start.{Execution, failed, started, start, ask}
use g_lm.Reasoning.Mcts.Limits.{resolve_mcts_rollouts}
use g_lm.Reasoning.Mcts.Rollouts.{
  MctsCandidate, Progress, candidate_output, candidate_score, run_rollouts,
}
use g_lm.Reasoning.Mcts.Candidates.{
  search_of, first_progress, with_candidates, synthesis_candidates,
}

module _ (fl : Float64) {S : Type 0} (w : World fl.F S) where
  open fl use {F, milli, inf, neg}

  -- The branch results from the number `i` on.
  unfoldable pub mcts_branches : Text → ℕ → List (MctsCandidate F) → List (BranchResult F)
  mcts_branches model i [] = []
  mcts_branches model i (c ∷ cs) =
      record {
        index = i;
        model = model;
        output = c.output;
        evaluation_score = c.score;
        evaluation_reason = lit "mcts_simulation";
        warnings = [];
      }
      ∷ mcts_branches model (i + 1) cs

  abbrev best_score : List (MctsCandidate F) → F
  best_score [] = milli 0
  best_score (c ∷ cs) = c.score

  abbrev is_baseline : List (MctsCandidate F) → Bool
  is_baseline (c ∷ []) = is_empty c.path
  is_baseline _ = false

  unfoldable pub mcts_result : ℕ → Progress F S → List (MctsCandidate F) → MctsResult F
  mcts_result budget p chosen = record {
    rollouts = budget;
    rollouts_executed = if ltb 1 p.successful then p.successful else 1;
    depth = p.max_visited_depth;
    best_score = best_score chosen;
    early_stop = p.early_stop;
    early_stop_reason = p.early_stop_reason;
    fallback = [];
  }

  unfoldable pub synthesize_mcts :
      Config F
      → ChatCompletionRequest F
      → ℕ
      → Router F
      → Trace F
      → Progress F S
      → List (MctsCandidate F)
      → Execution F S
  unfolding mcts_branches sort_candidates detect_contradictions build_synthesis_messages
      anchor_trace mcts_result resolve_memory_anchors apply_geometry_and_fusion
  synthesize_mcts cfg req budget r trace p unsorted =
      let chosen = sort_candidates fl (candidate_output fl w) (candidate_score fl w) unsorted in
      let model = trace.chosen_model in
      let branches = mcts_branches model 1 (take 3 chosen) in
      let contradictions = detect_contradictions fl branches in
      let anchors = resolve_memory_anchors fl cfg req in
      let messages = build_synthesis_messages w req.messages branches contradictions anchors in
      let called = ask w req model messages p.world in
      let result = mcts_result budget p chosen in
      let reported = record trace {
        nodes = p.nodes;
        memory_anchor =
            some (anchor_trace fl cfg.memory_anchored_reasoning_enabled (lit "mcts") p.anchors);
        mcts = some result;
      } in
      let pruned =
        record (pruning_trace fl (lit "mcts") cfg cfg.pruning_mcts_synth_top_k p.stats []) {
          candidates_out = length chosen;
        } in
      let fallback = if is_baseline p.candidates then lit "direct_baseline" else [] in
      elim called.1 [
        | err e ↦ record {
          world = called.0;
          router = r;
          trace = reported;
          result = err (lit "mcts synthesis failed: " ++ e);
        }
        | ok resp ↦ record {
          world = called.0;
          router = r;
          trace = apply_geometry_and_fusion fl cfg req (record reported {
            contradictions = contradictions;
            branches = branches;
            pruning = some pruned;
            mcts = some (record result { fallback = fallback });
          });
          result = ok resp;
        }
      ]

  abbrev failure : Router F → Trace F → Progress F S → Text → Execution F S
  failure r trace p e = record {
    world = p.world;
    router = r;
    trace = record trace { nodes = p.nodes };
    result = err e;
  }

  -- After the choice of the model.
  unfoldable pub run_mcts :
      Config F → ChatCompletionRequest F → CognitiveState F → S → Router F → Trace F → Execution F S
  unfolding search_of first_progress resolve_mcts_rollouts run_rollouts with_candidates
      synthesis_candidates synthesize_mcts
  run_mcts cfg req st s r trace =
      let model = trace.chosen_model in
      let x = search_of fl w cfg req model in
      let budget = resolve_mcts_rollouts cfg req.reasoning in
      let searched = run_rollouts fl w cfg req st x 0 budget (first_progress fl w x s) in
      let found = with_candidates fl w cfg req st model searched in
      let chosen = synthesis_candidates fl w cfg req st model found.0 in
      if found.1
      then elim chosen.1 [
        | none ↦
            failure r trace chosen.0
              (lit "mcts failed: no pruned candidates and baseline fallback failed")
        | some cs ↦ synthesize_mcts cfg req budget r trace chosen.0 cs
      ]
      else failure r trace found.0 (lit "mcts failed: no successful rollouts")

  -- executeMCTS
  unfoldable pub execute_mcts :
      Order
      → Config F
      → ChatCompletionRequest F
      → ModelPolicy
      → CognitiveState F
      → Router F
      → S
      → Execution F S
  unfolding start run_mcts
  execute_mcts order cfg req pol st r s =
      elim (start w order (lit "mcts model inventory failed: ") (lit "mcts") req pol st r s) [
        | failed x ↦ x
        | started s' r' trace ↦ run_mcts cfg req st s' r' trace
      ]
