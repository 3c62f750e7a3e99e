-- ===== src/Reasoning/Mcts/Rollouts.antt =====
-- internal/reasoning/mcts.go: the loop over the rollouts of executeMCTS.
use g_lm.Prelude.{
  ℕ, zero, suc, ◌+◌, ◌==◌, Bool, true, false, none, some, List, [], ◌∷◌, ◌++◌, leb, ltb,
  if◌then◌else◌,
}
use g_lm.Prelude.Int.{ℤ}
use g_lm.Prelude.Texts.{Text, lit}
use g_lm.Prelude.Results.{ok, err, decimal}
use g_lm.Prelude.Floats.{Float64}
use g_lm.Model.Chat.{ChatCompletionRequest}
use g_lm.Model.Session.{CognitiveState}
use g_lm.Metareasoning.Signals.{first_content}
use g_lm.Reasoning.Config.{Config}
use g_lm.Reasoning.Records.{World, Node, PruneStats}
use g_lm.Reasoning.Evaluation.{Evaluation, MemoryAnchorAccumulator, evaluate_output, add_candidate}
use g_lm.Reasoning.Pruning.{merge, prune_candidates}
use g_lm.Model.Json.{json_strings}
use g_lm.Reasoning.Messages.{build_mcts_messages}
use g_lm.Reasoning.Start.{ask, call_node}
use g_lm.Reasoning.Mcts.Limits.{should_early_stop}
use g_lm.Reasoning.Mcts.Tree.{
  MctsNode, Tree, node, nil, cons, info, update, below, select_mcts_child, select_mcts_leaf,
  expand_mcts_leaf, backpropagate_mcts, mcts_action_priors,
}

pub record MctsCandidate (F : Type 0) : Type 0 where
  pub path : List Text
  pub output : Text
  pub score : F

-- What does not change in a search.
pub record Search (F : Type 0) : Type 0 where
  pub model : Text
  pub max_depth : ℕ
  pub exploration : F
  pub v2 : Bool
  pub window : ℕ
  pub delta : F
  pub anchors : List Text

-- The variables of the loop over the rollouts.
pub record Progress (F S : Type 0) : Type 0 where
  pub world : S
  pub tree : Tree F
  pub candidates : List (MctsCandidate F)
  pub nodes : List (Node F)
  pub anchors : MemoryAnchorAccumulator F
  pub stats : PruneStats
  pub successful : ℕ
  pub max_visited_depth : ℕ
  pub best : F
  pub history : List F
  pub early_stop : Bool
  pub early_stop_reason : Text

abbrev pub has_children : {F : Type 0} → Tree F → Bool
has_children (node n nil) = false
has_children (node n (cons t ts)) = true

abbrev pub set_terminal : {F : Type 0} → Tree F → Tree F
set_terminal (node n cs) = node (record n { terminal = true }) cs

abbrev pub set_output : {F : Type 0} → Text → ℕ → Tree F → Tree F
set_output output max_depth (node n cs) =
    node (record n { output = output; terminal = leb max_depth n.depth }) cs

module _ (fl : Float64) {S : Type 0} (w : World fl.F S) where
  open fl use {F, lt, milli}

  abbrev pub candidate_output : MctsCandidate F → Text
  candidate_output c = c.output

  abbrev pub candidate_score : MctsCandidate F → F
  candidate_score c = c.score

  unfoldable pub prune_mcts_candidates :
      Config F → List (MctsCandidate F) → ℤ → List (MctsCandidate F) × PruneStats
  unfolding prune_candidates
  prune_mcts_candidates cfg cs top_k =
      prune_candidates fl candidate_output candidate_score (lit "mcts") cfg cs top_k

  -- The search after an answer of the node at a place.
  unfoldable pub record_answer :
      Config F → Search F → List ℕ → MctsNode F → Text → Evaluation F → Progress F S → Progress F S
  unfolding add_candidate update should_early_stop prune_mcts_candidates merge backpropagate_mcts
  record_answer cfg x place n output ev p =
      let candidate : MctsCandidate F = record {
        path = n.path;
        output = output;
        score = ev.score;
      } in
      let candidates = p.candidates ++ candidate ∷ [] in
      let best = if lt p.best ev.score then ev.score else p.best in
      let history = p.history ++ best ∷ [] in
      let stop = should_early_stop fl history x.window x.delta in
      let reason =
        if p.stats.candidates_in == 0
        then lit "converged_delta_no_prune"
        else lit "converged_delta" in
      let pruned = prune_mcts_candidates cfg candidates cfg.pruning_mcts_pool_top_k in
      let answered = update place (set_output output x.max_depth) p.tree in
      record p {
        tree = backpropagate_mcts fl ev.score place answered;
        candidates = if cfg.pruning_enabled then pruned.0 else candidates;
        anchors = add_candidate fl x.anchors ev p.anchors;
        stats = if cfg.pruning_enabled then merge p.stats pruned.1 else p.stats;
        successful = p.successful + 1;
        best = best;
        history = history;
        early_stop = stop;
        early_stop_reason = if stop then reason else p.early_stop_reason;
      }

  -- The call for the node at a place, in the rollout `i`.
  unfoldable pub simulate :
      Config F
      → ChatCompletionRequest F
      → CognitiveState F
      → Search F
      → ℕ
      → List ℕ
      → Progress F S
      → Progress F S
  unfolding below build_mcts_messages decimal evaluate_output record_answer
  simulate cfg req st x i place p =
      let n = info (below place p.tree) in
      let messages = build_mcts_messages w req.messages n.path st.task_mode x.anchors in
      let called = ask w req x.model messages p.world in
      let id = lit "mcts-rollout-" ++ decimal (i + 1) in
      let called_node =
        record (call_node w (milli 0) id (lit "mcts_simulation") x.model p.world called.0) {
          metadata = (lit "path", json_strings n.path) ∷ [];
        } in
      let seen = if ltb p.max_visited_depth n.depth then n.depth else p.max_visited_depth in
      elim called.1 [
        | err e ↦ record p {
          world = called.0;
          max_visited_depth = seen;
          nodes = p.nodes ++ record called_node { error = e } ∷ [];
        }
        | ok resp ↦
            let output = first_content resp in
            let ev = evaluate_output fl cfg req output st true in
            record_answer cfg x place n output ev (record p {
              world = called.0;
              max_visited_depth = seen;
              nodes = p.nodes ++ record called_node { score = ev.score } ∷ [];
            })
      ]

  -- The rollout at the leaf of a place, where it may go deeper.
  unfoldable pub explore :
      Config F
      → ChatCompletionRequest F
      → CognitiveState F
      → Search F
      → ℕ
      → List ℕ
      → Progress F S
      → Progress F S
  unfolding below update expand_mcts_leaf mcts_action_priors select_mcts_child simulate
  explore cfg req st x i place p =
      let leaf = below place p.tree in
      let actions = mcts_action_priors fl st.task_mode in
      let expanded =
        if has_children leaf then p.tree else update place (expand_mcts_leaf fl actions) p.tree in
      let q = record p { tree = expanded } in
      elim (select_mcts_child fl x.exploration x.v2 (below place expanded)) [
        | none ↦ q
        | some j ↦ simulate cfg req st x i (place ++ j ∷ []) q
      ]

  -- One turn of the loop, where the context goes on.
  unfoldable pub rollout :
      Config F
      → ChatCompletionRequest F
      → CognitiveState F
      → Search F
      → ℕ
      → Progress F S
      → Progress F S
  unfolding select_mcts_leaf below update explore
  rollout cfg req st x i p =
      let place = select_mcts_leaf fl x.exploration x.v2 p.tree in
      if leb x.max_depth (info (below place p.tree)).depth
      then record p { tree = update place set_terminal p.tree }
      else explore cfg req st x i place p

  -- The loop from the rollout `i` on, with so many left.
  unfoldable pub run_rollouts :
      Config F
      → ChatCompletionRequest F
      → CognitiveState F
      → Search F
      → ℕ
      → ℕ
      → Progress F S
      → Progress F S
  unfolding rollout
  run_rollouts cfg req st x i zero p = p
  run_rollouts cfg req st x i (suc left) p =
      let q = rollout cfg req st x i p in
      let rest = run_rollouts cfg req st x (i + 1) left q in
      elim (w.context_error p.world) [ some e ↦ p | none ↦ if q.early_stop then q else rest ]
