-- ===== src/Reasoning/Agents/Discussion.antt =====
-- internal/reasoning/multiagent.go: the loop over the rounds.
use g_lm.Prelude.{
  ℕ, zero, suc, ◌+◌, ◌-◌, Bool, true, false, ◌&&◌, none, some, List, ◌++◌, if◌then◌else◌,
}
use g_lm.Prelude.Texts.{Text, lit, text_eq, is_empty}
use g_lm.Prelude.Floats.{Float64}
use g_lm.Model.Chat.{ChatCompletionRequest}
use g_lm.Model.Session.{CognitiveState}
use g_lm.Reasoning.Config.{Config}
use g_lm.Reasoning.Records.{World}
use g_lm.Reasoning.Pruning.{merge}
use g_lm.Reasoning.Agents.Roles.{AgentResult, refinement_roles, by_score, multi_agent_consensus}
use g_lm.Reasoning.Agents.Rounds.{
  Arrival, Discussion, sort_agents, prune_multi_agent_candidates, run_multi_agent_round, fall_back,
}

module _ (fl : Float64) {S : Type 0} (w : World fl.F S) where
  open fl use {F, milli}

  -- The discussion after the results of a round, and whether it goes on.
  unfoldable pub weigh_round :
      Config F
      → ChatCompletionRequest F
      → CognitiveState F
      → Text
      → ℕ
      → ℕ
      → List (AgentResult F)
      → Discussion F S
      → Discussion F S × Bool
  unfolding sort_agents prune_multi_agent_candidates merge fall_back by_score multi_agent_consensus
      refinement_roles text_eq
  weigh_round cfg req st model max_tokens round results d =
      let sorted = sort_agents fl w (d.candidates ++ results) in
      let pruned = prune_multi_agent_candidates fl w cfg sorted cfg.pruning_ma_round_top_k in
      let kept = if cfg.pruning_enabled then pruned.0 else sorted in
      let stats = if cfg.pruning_enabled then merge d.stats pruned.1 else d.stats in
      let e = record d { candidates = kept; stats = stats; rounds_run = round } in
      let failure =
        lit "multi-agent failed: pruning removed all candidates and baseline fallback failed" in
      let ordered = by_score fl kept in
      let next = record e { candidates = ordered; roles = refinement_roles ordered } in
      if cfg.pruning_enabled && is_empty kept
      then (fall_back fl w cfg req st model max_tokens round failure e, false)
      else if text_eq (multi_agent_consensus fl ordered) (lit "low")
      then (next, true)
      else (record e { candidates = ordered }, false)

  -- The loop from a round on, with so many left. A round without an error has results.
  unfoldable pub run_rounds :
      Arrival
      → Config F
      → ChatCompletionRequest F
      → CognitiveState F
      → Text
      → List Text
      → ℕ
      → ℕ
      → ℕ
      → ℕ
      → Discussion F S
      → Discussion F S
  unfolding run_multi_agent_round fall_back weigh_round
  run_rounds arrive cfg req st model anchors max_tokens budget round zero d = d
  run_rounds arrive cfg req st model anchors max_tokens budget round (suc left) d =
      let ran =
        run_multi_agent_round fl w arrive cfg req st model anchors max_tokens
          (budget - d.budget_used) round d in
      let e = record d {
        world = ran.0.world;
        nodes = d.nodes ++ ran.0.nodes;
        anchors = ran.0.anchors;
        budget_used = d.budget_used + ran.0.used;
      } in
      let weighed = weigh_round cfg req st model max_tokens round ran.0.results e in
      let rest =
        run_rounds arrive cfg req st model anchors max_tokens budget (round + 1) left weighed.0 in
      elim (w.context_error d.world) [
        | some c ↦ d
        | none ↦ elim ran.1 [
          | some failure ↦
              if is_empty d.candidates
              then fall_back fl w cfg req st model max_tokens round failure e
              else e
          | none ↦ if weighed.1 then rest else weighed.0
        ]
      ]
