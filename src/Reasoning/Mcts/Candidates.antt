-- ===== src/Reasoning/Mcts/Candidates.antt =====
-- internal/reasoning/mcts.go: the search of executeMCTS, and its candidates.
use g_lm.Prelude.{
  ◌==◌, Bool, true, false, Option, none, some, List, [], ◌∷◌, ◌++◌, ltb, if◌then◌else◌,
}
use g_lm.Prelude.Texts.{Text, lit, is_empty}
use g_lm.Prelude.Floats.{Float64}
use g_lm.Model.Chat.{ChatCompletionRequest}
use g_lm.Model.Session.{CognitiveState}
use g_lm.Reasoning.Config.{Config}
use g_lm.Reasoning.Records.{World}
use g_lm.Reasoning.Evaluation.{resolve_memory_anchors, new_accumulator}
use g_lm.Reasoning.Pruning.{no_stats, merge, sort_candidates}
use g_lm.Reasoning.Messages.{build_mcts_baseline_messages}
use g_lm.Reasoning.Start.{Baseline, baseline_call}
use g_lm.Reasoning.Mcts.Limits.{
  resolve_mcts_depth, resolve_mcts_v2_enabled, resolve_mcts_early_stop_window,
  resolve_mcts_exploration, resolve_mcts_early_stop_delta,
}
use g_lm.Reasoning.Mcts.Tree.{new_root}
use g_lm.Reasoning.Mcts.Rollouts.{
  MctsCandidate, Search, Progress, candidate_output, candidate_score, prune_mcts_candidates,
}

module _ (fl : Float64) {S : Type 0} (w : World fl.F S) where
  open fl use {F, milli, inf, neg}

  unfoldable pub search_of : Config F → ChatCompletionRequest F → Text → Search F
  unfolding resolve_mcts_depth resolve_mcts_exploration resolve_mcts_v2_enabled
      resolve_mcts_early_stop_window resolve_mcts_early_stop_delta resolve_memory_anchors
  search_of cfg req model = record {
    model = model;
    max_depth = resolve_mcts_depth cfg req.reasoning;
    exploration = resolve_mcts_exploration fl cfg req.reasoning;
    v2 = resolve_mcts_v2_enabled cfg req.reasoning;
    window = resolve_mcts_early_stop_window cfg req.reasoning;
    delta = resolve_mcts_early_stop_delta fl cfg req.reasoning;
    anchors = resolve_memory_anchors fl cfg req;
  }

  unfoldable pub first_progress : Search F → S → Progress F S
  unfolding new_accumulator
  first_progress x s = record {
    world = s;
    tree = new_root fl;
    candidates = [];
    nodes = [];
    anchors = new_accumulator fl x.anchors;
    stats = no_stats;
    successful = 0;
    max_visited_depth = 0;
    best = neg inf;
    history = [];
    early_stop = false;
    early_stop_reason = [];
  }

  -- mctsBaselineCandidate
  unfoldable pub mcts_baseline :
      Config F → ChatCompletionRequest F → CognitiveState F → Text → S → Baseline F S
  unfolding baseline_call build_mcts_baseline_messages resolve_memory_anchors
  mcts_baseline cfg req st model s =
      let messages =
        build_mcts_baseline_messages req.messages (resolve_memory_anchors fl cfg req) in
      baseline_call fl w cfg req st (lit "mcts-baseline") (lit "mcts_baseline") [] model
        (record req { messages = messages }) s

  abbrev pub add_baseline : Baseline F S → Progress F S → Progress F S
  add_baseline b p = record p { world = b.world; nodes = p.nodes ++ b.node ∷ [] }

  -- The search with candidates, or none where there is none and the baseline fails.
  unfoldable pub with_candidates :
      Config F
      → ChatCompletionRequest F
      → CognitiveState F
      → Text
      → Progress F S
      → Progress F S × Bool
  unfolding mcts_baseline
  with_candidates cfg req st model p =
      let b = mcts_baseline cfg req st model p.world in
      let q = add_baseline b p in
      if is_empty p.candidates
      then elim b.answer [
        | none ↦ (q, false)
        | some (output, ev) ↦ (
          record q {
            candidates = record { path = []; output = output; score = ev.score } ∷ [];
            successful = 1;
            max_visited_depth = if ltb 1 p.max_visited_depth then p.max_visited_depth else 1;
          },
          true,
        )
      ]
      else (p, true)

  -- The candidates for the synthesis, with the search that they leave; none where the pruning takes
  -- all and the baseline fails.
  unfoldable pub synthesis_candidates :
      Config F
      → ChatCompletionRequest F
      → CognitiveState F
      → Text
      → Progress F S
      → Progress F S × Option (List (MctsCandidate F))
  unfolding sort_candidates prune_mcts_candidates merge mcts_baseline
  synthesis_candidates cfg req st model p =
      let sorted = sort_candidates fl (candidate_output fl w) (candidate_score fl w) p.candidates in
      let pruned = prune_mcts_candidates fl w cfg sorted cfg.pruning_mcts_synth_top_k in
      let q = record p { candidates = sorted; stats = merge p.stats pruned.1 } in
      let b = mcts_baseline cfg req st model p.world in
      if cfg.pruning_enabled
      then if is_empty pruned.0
        then elim b.answer [
          | none ↦ (add_baseline b q, none)
          | some (output, ev) ↦
              let c : MctsCandidate F = record { path = []; output = output; score = ev.score } in
              (
                record (add_baseline b q) {
                  candidates = sorted ++ c ∷ [];
                  successful = if p.successful == 0 then 1 else p.successful;
                },
                some (c ∷ []),
              )
        ]
        else (q, some pruned.0)
      else (record p { candidates = sorted }, some sorted)
