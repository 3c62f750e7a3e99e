-- ===== src/Reasoning/Calls/Search.antt =====
-- internal/reasoning/mcts.go: how often the search calls the model.
use g_lm.Prelude.{
  ℕ, zero, suc, ◌+◌, ◌≡◌, ◌≤◌, inl, inr, List, [], ◌∷◌, ◌++◌, take, leb, arith, Bool-cases,
  Option-cases, if◌then◌else◌,
}
use g_lm.Prelude.Texts.{Text, is_empty, lit}
use g_lm.Prelude.Results.{Result-cases}
use g_lm.Prelude.Floats.{Float64}
use g_lm.Model.Chat.{ChatCompletionRequest}
use g_lm.Model.Records.{ModelPolicy}
use g_lm.Model.Session.{CognitiveState}
use g_lm.Orchestrator.Router.{Router}
use g_lm.Orchestrator.Lookup.{Order}
use g_lm.Reasoning.Config.{Config}
use g_lm.Reasoning.Records.{World, Trace}
use g_lm.Reasoning.Evaluation.{resolve_memory_anchors}
use g_lm.Reasoning.Pruning.{sort_candidates}
use g_lm.Reasoning.Contradictions.{detect_contradictions}
use g_lm.Reasoning.Messages.{
  build_mcts_messages, build_mcts_baseline_messages, build_synthesis_messages,
}
use g_lm.Reasoning.Start.{start}
use g_lm.Reasoning.Mcts.Limits.{resolve_mcts_rollouts}
use g_lm.Reasoning.Mcts.Tree.{
  info, update, below, select_mcts_child, select_mcts_leaf, expand_mcts_leaf, mcts_action_priors,
}
use g_lm.Reasoning.Mcts.Rollouts.{
  MctsCandidate, Search, Progress, has_children, candidate_output, candidate_score,
  prune_mcts_candidates, simulate, explore, rollout, run_rollouts,
}
use g_lm.Reasoning.Mcts.Candidates.{
  search_of, first_progress, mcts_baseline, with_candidates, synthesis_candidates,
}
use g_lm.Reasoning.Mcts.Synthesis.{mcts_branches, synthesize_mcts, run_mcts, execute_mcts}
use g_lm.Reasoning.Calls.{IsCounted, start-Uncalled, started_calls, baseline_call_calls}

module _ (fl : Float64) {S : Type 0} (w : World fl.F S) (calls : S → ℕ) (c : IsCounted w calls)
    (cfg : Config fl.F) (req : ChatCompletionRequest fl.F) (st : CognitiveState fl.F) where
  open fl use {F}

  simulate_calls :
      (x : Search F) (i : ℕ) (place : List ℕ) (p : Progress F S)
      → calls (simulate fl w cfg req st x i place p).world ≡ suc (calls p.world)
  unfolding simulate
  simulate_calls x i place p =
      let path = (info (below place p.tree)).path in
      let messages = build_mcts_messages w req.messages path st.task_mode x.anchors in
      let asked = record req { model = x.model; messages = messages } in
      let once = c.chat_once asked p.world in
      elim (Result-cases (w.chat asked p.world).1) [
        | inr (e, q) ↦ rw (q, simulate) once
        | inl (resp, q) ↦ rw (q, simulate) once
      ]

  explore_calls :
      (x : Search F) (i : ℕ) (place : List ℕ) (p : Progress F S)
      → calls (explore fl w cfg req st x i place p).world ≤ calls p.world + 1
  unfolding explore
  explore_calls x i place p =
      let actions = mcts_action_priors fl st.task_mode in
      let grown = update place (expand_mcts_leaf fl actions) p.tree in
      let expanded = if has_children (below place p.tree) then p.tree else grown in
      let q = record p { tree = expanded } in
      elim (Option-cases (select_mcts_child fl x.exploration x.v2 (below place expanded))) [
        | inl e ↦ rw (e, explore) (omega arith)
        | inr (j, e) ↦ rw (e, explore) (omega (arith, simulate_calls x i (place ++ j ∷ []) q))
      ]

  rollout_calls :
      (x : Search F) (i : ℕ) (p : Progress F S)
      → calls (rollout fl w cfg req st x i p).world ≤ calls p.world + 1
  unfolding rollout
  rollout_calls x i p =
      let place = select_mcts_leaf fl x.exploration x.v2 p.tree in
      elim (Bool-cases (leb x.max_depth (info (below place p.tree)).depth)) [
        | inl e ↦ rw (e, rollout) (omega arith)
        | inr e ↦ rw (e, rollout) (explore_calls x i place p)
      ]

  run_rollouts_calls :
      (x : Search F) (i left : ℕ) (p : Progress F S)
      → calls (run_rollouts fl w cfg req st x i left p).world ≤ calls p.world + left
  unfolding run_rollouts
  run_rollouts_calls x i zero p = omega arith
  run_rollouts_calls x i (suc left) p =
      let q = rollout fl w cfg req st x i p in
      let step = rollout_calls x i p in
      let rest = run_rollouts_calls x (i + 1) left q in
      elim (Option-cases (w.context_error p.world)) [
        | inr (e, o) ↦ rw (o, run_rollouts) (omega arith)
        | inl o ↦ elim (Bool-cases q.early_stop) [
          | inl b ↦ rw (o, b, run_rollouts) (omega (arith, step))
          | inr b ↦ rw (o, b, run_rollouts) (omega (arith, step, rest))
        ]
      ]

  baseline_calls :
      (model : Text) (s : S) → calls (mcts_baseline fl w cfg req st model s).world ≤ calls s + 1
  unfolding mcts_baseline
  baseline_calls model s =
      let anchors = resolve_memory_anchors fl cfg req in
      let asked = record req { messages = build_mcts_baseline_messages req.messages anchors } in
      baseline_call_calls fl w calls c cfg req st _ _ _ model asked s

  with_candidates_calls :
      (model : Text) (p : Progress F S)
      → calls (with_candidates fl w cfg req st model p).0.world ≤ calls p.world + 1
  unfolding with_candidates
  with_candidates_calls model p =
      let b = mcts_baseline fl w cfg req st model p.world in
      let once = baseline_calls model p.world in
      elim (Bool-cases (is_empty p.candidates)) [
        | inr e ↦ rw (e, with_candidates) (omega arith)
        | inl e ↦ elim (Option-cases b.answer) [
          | inl o ↦ rw (e, o, with_candidates) once
          | inr (a, o) ↦ rw (e, o, with_candidates) once
        ]
      ]

  synthesis_candidates_calls :
      (model : Text) (p : Progress F S)
      → calls (synthesis_candidates fl w cfg req st model p).0.world ≤ calls p.world + 1
  unfolding synthesis_candidates
  synthesis_candidates_calls model p =
      let b = mcts_baseline fl w cfg req st model p.world in
      let once = baseline_calls model p.world in
      let sorted = sort_candidates fl (candidate_output fl w) (candidate_score fl w) p.candidates in
      let pruned = (prune_mcts_candidates fl w cfg sorted cfg.pruning_mcts_synth_top_k).0 in
      elim (Bool-cases cfg.pruning_enabled) [
        | inr e ↦ rw (e, synthesis_candidates) (omega arith)
        | inl e ↦ elim (Bool-cases (is_empty pruned)) [
          | inr f ↦ rw (f, e, synthesis_candidates) (omega arith)
          | inl f ↦ elim (Option-cases b.answer) [
            | inl o ↦ rw (f, e, o, synthesis_candidates) once
            | inr (a, o) ↦ rw (f, e, o, synthesis_candidates) once
          ]
        ]
      ]

  synthesize_calls :
      (budget : ℕ) (r : Router F) (trace : Trace F) (p : Progress F S) (cs : List (MctsCandidate F))
      → calls (synthesize_mcts fl w cfg req budget r trace p cs).world ≡ suc (calls p.world)
  unfolding synthesize_mcts
  synthesize_calls budget r trace p cs =
      let chosen = sort_candidates fl (candidate_output fl w) (candidate_score fl w) cs in
      let branches = mcts_branches fl w trace.chosen_model 1 (take 3 chosen) in
      let report = detect_contradictions fl branches in
      let anchors = resolve_memory_anchors fl cfg req in
      let messages = build_synthesis_messages w req.messages branches report anchors in
      let asked = record req { model = trace.chosen_model; messages = messages } in
      let once = c.chat_once asked p.world in
      elim (Result-cases (w.chat asked p.world).1) [
        | inr (e, q) ↦ rw (q, synthesize_mcts) once
        | inl (resp, q) ↦ rw (q, synthesize_mcts) once
      ]

  run_mcts_calls :
      (s : S) (r : Router F) (trace : Trace F)
      → calls (run_mcts fl w cfg req st s r trace).world
        ≤ calls s + (resolve_mcts_rollouts cfg req.reasoning + 3)
  unfolding run_mcts first_progress
  run_mcts_calls s r trace =
      let model = trace.chosen_model in
      let x = search_of fl w cfg req model in
      let budget = resolve_mcts_rollouts cfg req.reasoning in
      let first = first_progress fl w x s in
      let searched = run_rollouts fl w cfg req st x 0 budget first in
      let found = with_candidates fl w cfg req st model searched in
      let chosen = synthesis_candidates fl w cfg req st model found.0 in
      let one = run_rollouts_calls x 0 budget first in
      let two = with_candidates_calls model searched in
      let three = synthesis_candidates_calls model found.0 in
      elim (Bool-cases found.1) [
        | inr e ↦ rw (e, run_mcts) (omega (arith, one, two))
        | inl e ↦ elim (Option-cases chosen.1) [
          | inl o ↦ rw (e, o, run_mcts) (omega (arith, one, two, three))
          | inr (cs, o) ↦
              rw (e, o, run_mcts)
                (omega (arith, one, two, three, synthesize_calls budget r trace chosen.0 cs))
        ]
      ]

  -- A search calls the model at most once for each rollout of its budget and three times more (two
  -- baselines and the synthesis), whether it succeeds or not. `calls` is a measure of the world that a
  -- call raises by one.
  pub execute_mcts_calls :
      (order : Order) (pol : ModelPolicy) (r : Router F) (s : S)
      → calls (execute_mcts fl w order cfg req pol st r s).world
        ≤ calls s + (resolve_mcts_rollouts cfg req.reasoning + 3)
  unfolding execute_mcts
  execute_mcts_calls order pol r s =
      let failure = lit "mcts model inventory failed: " in
      let mode = lit "mcts" in
      started_calls fl w calls c s (resolve_mcts_rollouts cfg req.reasoning + 3)
        (run_mcts fl w cfg req st) run_mcts_calls (start w order failure mode req pol st r s)
        (start-Uncalled fl w calls c order failure mode req pol st r s)
