-- ===== src/Reasoning/Execute.antt =====
-- internal/reasoning/executor.go: Execute, which gives a request to the mode that it asks for.
use g_lm.Prelude.{Option, none, some, if◌then◌else◌}
use g_lm.Prelude.Texts.{lit}
use g_lm.Prelude.Floats.{Float64}
use g_lm.Model.Chat.{ReasoningOptions, ChatCompletionRequest}
use g_lm.Model.Records.{ModelPolicy}
use g_lm.Model.Session.{CognitiveState}
use g_lm.Orchestrator.Router.{Router}
use g_lm.Orchestrator.Lookup.{Order}
use g_lm.Reasoning.Config.{Config, mode_is}
use g_lm.Reasoning.Records.{World}
use g_lm.Reasoning.Start.{Execution}
use g_lm.Reasoning.Tot.{execute_tot}
use g_lm.Reasoning.Mcts.Synthesis.{execute_mcts}
use g_lm.Reasoning.Decompose.Synthesis.{execute_decompose}
use g_lm.Reasoning.Agents.Rounds.{Arrival}
use g_lm.Reasoning.Agents.Synthesis.{execute_multi_agent}

-- What the mode of a request asks for, of the choices for the agents, the search, the decomposition and
-- the branches.
unfoldable pub by_mode : {F A : Type 0} → Option (ReasoningOptions F) → A → A → A → A → A
unfolding mode_is
by_mode none agents search plan branches = branches
by_mode (some o) agents search plan branches =
    if mode_is (lit "multi_agent") o
    then agents
    else if mode_is (lit "mcts") o
    then search
    else if mode_is (lit "decompose") o
    then plan
    else branches

module _ (fl : Float64) {S : Type 0} (w : World fl.F S) where
  open fl use {F}

  unfoldable pub execute :
      Arrival
      → Order
      → Config F
      → ChatCompletionRequest F
      → ModelPolicy
      → CognitiveState F
      → Router F
      → S
      → Execution F S
  unfolding by_mode execute_tot execute_mcts execute_decompose execute_multi_agent
  execute arrive order cfg req pol st r s =
      by_mode req.reasoning (execute_multi_agent fl w arrive order cfg req pol st r s)
        (execute_mcts fl w order cfg req pol st r s)
        (execute_decompose fl w order cfg req pol st r s)
        (execute_tot fl w order cfg req pol st r s)
