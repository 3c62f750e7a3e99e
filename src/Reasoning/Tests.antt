-- ===== src/Reasoning/Tests.antt =====
-- The reasoning modes at concrete inputs, in thousandths. The world counts the calls of the model.
mod Runs
use g_lm.Prelude.{
  ℕ, suc, ◌+◌, ◌≡◌, ◌≤◌, refl, Bool, true, false, none, some, List, [], ◌∷◌, length, arith,
}
use g_lm.Prelude.Int.{pos}
use g_lm.Prelude.Texts.{Text, lit, is_empty, trim_space}
use g_lm.Prelude.Results.{ok}
use g_lm.Prelude.Floats.{thousandths}
use g_lm.Model.Chat.{Json, string, array, nil, cons, ChatCompletionRequest, ChatCompletionResponse}
use g_lm.Model.Records.{ModelPolicy}
use g_lm.Model.Samples.{blank_session, blank_request}
use g_lm.Model.Session.{CognitiveState}
use g_lm.Orchestrator.Router.{Router, default_router_config, new_router_with_control}
use g_lm.Orchestrator.Lookup.{Order}
use g_lm.Orchestrator.Choose.{choose_with_state}
use g_lm.Reasoning.Config.{Config, new_executor}
use g_lm.Reasoning.Records.{World, BranchResult, Trace, new_trace}
use g_lm.Reasoning.Start.{start, started, safe_mode}
use g_lm.Reasoning.Pruning.{prune_branches}
use g_lm.Reasoning.Kept.{prune_branches_lem}
use g_lm.Reasoning.Tot.{execute_tot, resolve_branches}
use g_lm.Reasoning.Mcts.Rollouts.{Search, Progress, run_rollouts}
use g_lm.Reasoning.Mcts.Tree.{select_mcts_leaf, below}
use g_lm.Reasoning.Mcts.Candidates.{search_of, first_progress}
use g_lm.Reasoning.Mcts.Limits.{resolve_mcts_rollouts}
use g_lm.Reasoning.Mcts.Idle.{run_rollouts_idle}
use g_lm.Reasoning.Mcts.Synthesis.{execute_mcts}
use g_lm.Reasoning.Decompose.Planner.{parse_decompose_subtasks, resolve_decompose_config}
use g_lm.Reasoning.Decompose.Planned.{AreTasks, parse_decompose_subtasks_lem}
use g_lm.Reasoning.Decompose.Synthesis.{execute_decompose}
use g_lm.Reasoning.Agents.Rounds.{Arrival, Discussion}
use g_lm.Reasoning.Agents.Roles.{multi_agent_config}
use g_lm.Reasoning.Agents.Synthesis.{first_discussion}
use g_lm.Reasoning.Agents.Discussion.{run_rounds}
use g_lm.Reasoning.Calls.{IsCounted, execute_tot_calls}
use g_lm.Reasoning.Calls.Search.{execute_mcts_calls}
use g_lm.Reasoning.Calls.Plans.{execute_decompose_calls}
use g_lm.Reasoning.Calls.Budget.{run_rounds_budget}
use g_lm.Reasoning.Answers.{execute_tot-HasAnswer}

abbrev pub in_order : Order
in_order c m = m

abbrev pub session : CognitiveState ℕ
session = record blank_session { session_id = lit "s1"; task_mode = lit "general" }

abbrev pub question : ChatCompletionRequest ℕ
question = record blank_request {
  model = lit "auto";
  session_id = lit "s1";
  memory_anchor_keys = lit "deploy" ∷ [];
  messages =
      record {
        role = lit "user";
        content = lit "Plan the deploy";
        name = [];
        tool_call_id = [];
        tool_calls = [];
      }
      ∷ [];
}

abbrev pub answer : Text → ChatCompletionResponse
answer content = record {
  id = lit "c1";
  object = lit "chat.completion";
  created = pos 0;
  model = lit "mistral:7b";
  choices =
      record {
        index = pos 0;
        message = record { role = lit "assistant"; content = content; name = []; tool_calls = [] };
        finish_reason = lit "stop";
      }
      ∷ [];
  usage = none;
}

-- Each call is answered with the same text.
abbrev pub world : World ℕ ℕ
world = record {
  list_models = λ n. (n, ok (lit "mistral:7b" ∷ []));
  chat = λ req n. (suc n, ok (answer (lit "Deploy in two steps, then verify each of them.")));
  context_error = λ n. none;
  now = λ n. n;
  marshal = λ j. lit "{}";
  unmarshal = λ t. none;
  float_text = λ n. lit "0";
}

abbrev pub calls : ℕ → ℕ
calls n = n

pub counted : IsCounted world calls
counted = record { chat_once = λ req s. refl; list_none = λ s. refl }

abbrev pub zero_config : Config ℕ
zero_config = record {
  enabled = true;
  default_branches = pos 0;
  max_branches = pos 0;
  pruning_enabled = false;
  pruning_min_score = 0;
  pruning_tot_top_k = pos 0;
  pruning_tot_synth_top_k = pos 0;
  pruning_mcts_pool_top_k = pos 0;
  pruning_mcts_synth_top_k = pos 0;
  pruning_ma_round_top_k = pos 0;
  pruning_ma_synth_top_k = pos 0;
  self_eval_curve_enabled = false;
  self_eval_curve_low_max = 0;
  self_eval_curve_mid_max = 0;
  self_eval_curve_low_weight = 0;
  self_eval_curve_mid_weight = 0;
  self_eval_curve_high_weight = 0;
  self_eval_curve_bias = 0;
  mcts_enabled = true;
  mcts_default_rollouts = pos 0;
  mcts_max_rollouts = pos 0;
  mcts_default_depth = pos 0;
  mcts_max_depth = pos 0;
  mcts_default_exploration = 0;
  mcts_v2_enabled = false;
  mcts_early_stop_window = pos 0;
  mcts_early_stop_delta = 0;
  multi_agent_enabled = true;
  multi_agent_max_agents = pos 0;
  multi_agent_max_rounds = pos 0;
  multi_agent_budget_tokens = pos 0;
  decompose_enabled = true;
  decompose_max_subtasks = pos 0;
  decompose_max_depth = pos 0;
  decompose_budget_tokens = pos 0;
  shape_transform_enabled = false;
  geometry_mode = [];
  worldview_fusion_enabled = false;
  worldview_fusion_stages = pos 0;
  memory_anchored_reasoning_enabled = true;
  memory_anchored_reasoning_max_anchors = pos 0;
  memory_anchored_reasoning_min_coverage = 0;
  memory_anchored_reasoning_score_bonus = 0;
}

unfoldable pub config : Config ℕ
unfolding new_executor
config = new_executor thousandths zero_config

unfoldable pub router : Router ℕ
unfolding new_router_with_control
router =
    new_router_with_control thousandths (lit "mistral:7b") [] (lit "gemma2:2b")
      (default_router_config thousandths) false

abbrev pub policy : ModelPolicy
policy = record {
  id = [];
  tenant_id = lit "acme";
  allowed_models = lit "mistral:7b" ∷ [];
  primary_model = lit "mistral:7b";
  fallback_model = [];
  reasoning_visible = true;
  created_at = 0;
  updated_at = 0;
}

abbrev branch : ℕ → ℕ → BranchResult ℕ
branch i score = record {
  index = i;
  model = lit "mistral:7b";
  output = lit "yes";
  evaluation_score = score;
  evaluation_reason = [];
  warnings = [];
}

abbrev branches : List (BranchResult ℕ)
branches = branch 1 300 ∷ branch 2 700 ∷ branch 3 900 ∷ []

prune_branches_test :
    (prune_branches thousandths (lit "tot") branches 500 (pos 1)).0 ≡ branch 3 900 ∷ []
unfolding prune_branches
prune_branches_test = refl

prune_branches_lem_example :
    length (prune_branches thousandths (lit "tot") branches 500 (pos 1)).0 ≤ 1
prune_branches_lem_example =
    (prune_branches_lem thousandths (lit "tot") branches 500 (pos 1)).1 0 refl

abbrev planned : Text → Json
planned t = array (
    cons (string (lit "test"))
      (cons (string (lit " ")) (cons (string (lit "test ")) (cons (string (lit "ship")) nil))))

parse_decompose_subtasks_lem_example :
    (is_empty (lit "test" ∷ lit "ship" ∷ []) ≡ false) × AreTasks 6 (lit "test" ∷ lit "ship" ∷ [])
unfolding parse_decompose_subtasks
parse_decompose_subtasks_lem_example =
    parse_decompose_subtasks_lem (λ t. some (planned t)) (lit "the plan") 6
      (lit "test" ∷ lit "ship" ∷ []) (omega arith) refl
