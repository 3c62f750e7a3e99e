-- ===== src/Reasoning/Calls/Every.antt =====
-- internal/reasoning/executor.go: how often Execute calls the model.
use g_lm.Prelude.{ℕ, ◌+◌, ◌*◌, ◌≤◌, inl, inr, none, some, Option, Bool-cases}
use g_lm.Prelude.Int.{pos, ◌≤ℤ◌}
use g_lm.Prelude.Texts.{lit}
use g_lm.Prelude.Floats.{Float64}
use g_lm.Model.Chat.{ReasoningOptions, ChatCompletionRequest}
use g_lm.Model.Records.{ModelPolicy}
use g_lm.Model.Session.{CognitiveState}
use g_lm.Orchestrator.Router.{Router}
use g_lm.Orchestrator.Lookup.{Order}
use g_lm.Reasoning.Config.{Config, mode_is}
use g_lm.Reasoning.Records.{World}
use g_lm.Reasoning.Tot.{resolve_branches}
use g_lm.Reasoning.Mcts.Limits.{resolve_mcts_rollouts}
use g_lm.Reasoning.Decompose.Planner.{resolve_decompose_config}
use g_lm.Reasoning.Agents.Roles.{multi_agent_config}
use g_lm.Reasoning.Agents.Rounds.{Arrival}
use g_lm.Reasoning.Execute.{by_mode, execute}
use g_lm.Reasoning.Start.{Execution}
use g_lm.Reasoning.Tot.{execute_tot}
use g_lm.Reasoning.Mcts.Synthesis.{execute_mcts}
use g_lm.Reasoning.Decompose.Synthesis.{execute_decompose}
use g_lm.Reasoning.Agents.Synthesis.{execute_multi_agent}
use g_lm.Reasoning.Calls.{IsCounted, execute_tot_calls}
use g_lm.Reasoning.Calls.Search.{execute_mcts_calls}
use g_lm.Reasoning.Calls.Plans.{execute_decompose_calls}
use g_lm.Reasoning.Calls.Rounds.{IsArrival}
use g_lm.Reasoning.Calls.Talks.{execute_multi_agent_calls}

-- The most calls that a request may cost.
unfoldable pub call_limit : {F : Type 0} → Config F → Option (ReasoningOptions F) → ℕ
unfolding by_mode
call_limit cfg o =
    by_mode o (3 * (multi_agent_config cfg o).max_rounds + 4) (resolve_mcts_rollouts cfg o + 3)
      ((resolve_decompose_config cfg o).max_subtasks + 3) (resolve_branches cfg o + 1)

module _ (fl : Float64) {S : Type 0} (w : World fl.F S) (calls : S → ℕ)
    (c : IsCounted w calls) where
  open fl use {F}

  by_mode_calls :
      (o : Option (ReasoningOptions F)) (agents search plan branches : Execution F S)
      (s k m n p : ℕ)
      → calls agents.world ≤ s + k
      → calls search.world ≤ s + m
      → calls plan.world ≤ s + n
      → calls branches.world ≤ s + p
      → calls (by_mode o agents search plan branches).world ≤ s + by_mode o k m n p
  unfolding by_mode
  by_mode_calls none agents search plan branches s k m n p a b c d = d
  by_mode_calls (some o) agents search plan branches s k m n p a b c d =
      elim (Bool-cases (mode_is (lit "multi_agent") o)) [
        | inl e ↦ rw (e, by_mode) a
        | inr e ↦ elim (Bool-cases (mode_is (lit "mcts") o)) [
          | inl f ↦ rw (e, f, by_mode) b
          | inr f ↦ elim (Bool-cases (mode_is (lit "decompose") o)) [
            | inl g ↦ rw (e, f, g, by_mode) c
            | inr g ↦ rw (e, f, g, by_mode) d
          ]
        ]
      ]

  -- If each role of a round ends in it once and at least one subtask is configured, a request in any
  -- mode calls the model no more often than its limit says: for the agents three times in each round and
  -- four times more, for a search once in each rollout and three times more, for a decomposition once
  -- for each subtask and three times more, and otherwise once for each branch and once more. `calls` is
  -- a measure of the world that a call raises by one.
  pub execute_calls :
      (arrive : Arrival) (order : Order) (cfg : Config F) (req : ChatCompletionRequest F)
      (pol : ModelPolicy) (st : CognitiveState F) (r : Router F) (s : S)
      → IsArrival arrive
      → pos 1 ≤ℤ cfg.decompose_max_subtasks
      → calls (execute fl w arrive order cfg req pol st r s).world
        ≤ calls s + call_limit cfg req.reasoning
  unfolding execute call_limit
  execute_calls arrive order cfg req pol st r s a h =
      by_mode_calls req.reasoning (execute_multi_agent fl w arrive order cfg req pol st r s)
        (execute_mcts fl w order cfg req pol st r s)
        (execute_decompose fl w order cfg req pol st r s)
        (execute_tot fl w order cfg req pol st r s) (calls s) _ _ _ _
        (execute_multi_agent_calls fl w calls c cfg req st arrive order pol r s a)
        (execute_mcts_calls fl w calls c cfg req st order pol r s)
        (execute_decompose_calls fl w calls c cfg req st order pol r s h)
        (execute_tot_calls fl w calls c order cfg req pol st r s)
