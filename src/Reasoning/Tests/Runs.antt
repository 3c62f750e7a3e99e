-- ===== src/Reasoning/Tests/Runs.antt =====
-- Runs of the reasoning modes at concrete inputs.
use g_lm.Reasoning.Execute.{by_mode, execute}
use g_lm.Reasoning.Calls.Every.{call_limit, execute_calls}
use g_lm.Prelude.{ℕ, ◌≡◌, ◌≤◌, refl, none, some, [], ◌∷◌, arith}
use g_lm.Prelude.Texts.{lit}
use g_lm.Prelude.Results.{ok}
use g_lm.Prelude.Floats.{thousandths}
use g_lm.Model.Chat.{ChatCompletionResponse}
use g_lm.Orchestrator.Router.{Router, default_router_config, normalize_config, ideal_models}
use g_lm.Orchestrator.Lookup.{
  to_available_map, lookup_canonical, normalize_model_id, resolve_default,
}
use g_lm.Orchestrator.Choose.{choose_with_state, effective_inventory}
use g_lm.Reasoning.Records.{Trace, new_trace}
use g_lm.Reasoning.Start.{start, safe_mode}
use g_lm.Reasoning.Tot.{execute_tot, resolve_branches}
use g_lm.Reasoning.Mcts.Rollouts.{Search, Progress, run_rollouts}
use g_lm.Reasoning.Mcts.Tree.{select_mcts_leaf, below}
use g_lm.Reasoning.Mcts.Candidates.{search_of, first_progress}
use g_lm.Reasoning.Mcts.Idle.{run_rollouts_idle}
use g_lm.Reasoning.Agents.Rounds.{Arrival, Discussion}
use g_lm.Reasoning.Agents.Roles.{multi_agent_config}
use g_lm.Reasoning.Agents.Synthesis.{first_discussion}
use g_lm.Reasoning.Agents.Discussion.{run_rounds}
use g_lm.Reasoning.Calls.Budget.{EndsWithin, run_rounds_budget}
use g_lm.Reasoning.Answers.{execute_tot-HasAnswer}
use g_lm.Prelude.Maps.{insert, lookup}
use g_lm.Policy.{allowed}
use g_lm.Orchestrator.Candidates.{
  request_class, first_usable, candidates_of, trigger_background_pull,
}
use g_lm.Reasoning.Tests.{
  in_order, session, question, world, calls, counted, config, router, policy,
}

abbrev one_by_one : Arrival
one_by_one n roles = roles

execute_calls_example :
    (execute thousandths world one_by_one in_order config question policy session router 0).world
    ≤ 4
unfolding call_limit by_mode resolve_branches config
execute_calls_example =
    execute_calls thousandths world calls counted one_by_one in_order config question policy session
      router 0 (λ n roles. refl) (omega arith)

abbrev discussion : Discussion ℕ ℕ
unfolding first_discussion multi_agent_config
discussion =
    first_discussion thousandths world (lit "deploy" ∷ []) (multi_agent_config config none) 0

run_rounds_budget_example : EndsWithin thousandths world config question session 700 (
    run_rounds thousandths world one_by_one config question session
      (lit "mistral:7b")
      (lit "deploy" ∷ [])
      48
      700
      1
      2
      discussion)
unfolding discussion
run_rounds_budget_example =
    run_rounds_budget thousandths world config question session one_by_one (lit "mistral:7b")
      (lit "deploy" ∷ []) 48 700 1 2 discussion (omega arith, omega arith)

-- A search whose largest depth is that of the root.
abbrev search : Search ℕ
unfolding search_of
search = record (search_of thousandths world config question (lit "mistral:7b")) { max_depth = 0 }

abbrev progress : Progress ℕ ℕ
unfolding first_progress
progress = first_progress thousandths world search 0

run_rollouts_idle_example :
    record (run_rollouts thousandths world config question session search 0 12 progress) {
      tree = progress.tree;
    }
    ≡ progress
unfolding select_mcts_leaf below search progress
run_rollouts_idle_example =
    run_rollouts_idle thousandths world config question session search 0 12 progress refl

-- The choice for the question, and what it leaves.
abbrev chosen : Router ℕ
unfolding choose_with_state
chosen =
    (choose_with_state in_order question (lit "mistral:7b" ∷ []) policy (some (lit "general")) 0
      router).router

abbrev first_trace : Trace ℕ
unfolding choose_with_state
first_trace =
    let out =
      choose_with_state in_order question (lit "mistral:7b" ∷ []) policy (some (lit "general")) 0
        router in
    record (new_trace (lit "none") (lit "general")) {
      chosen_model = out.decision.chosen_model;
      task_class = out.decision.task_class;
    }

execute_tot-HasAnswer_example :
    (resp : ChatCompletionResponse) × ((execute_tot thousandths world in_order config question
        policy session router 0).result
      ≡ ok resp)
unfolding start choose_with_state safe_mode config router chosen first_trace effective_inventory
    to_available_map insert ideal_models request_class normalize_config default_router_config
    lookup_canonical lookup normalize_model_id first_usable candidates_of trigger_background_pull
    resolve_default allowed
execute_tot-HasAnswer_example =
    execute_tot-HasAnswer thousandths world (λ req s. (_, refl)) config question session in_order
      policy router 0 0 chosen first_trace (omega arith) refl

execute_tot_test :
    (execute_tot thousandths world in_order config question policy session router 0).world ≡ 4
unfolding execute_tot config router effective_inventory to_available_map insert ideal_models
    request_class normalize_config default_router_config lookup_canonical lookup normalize_model_id
    first_usable candidates_of trigger_background_pull resolve_default allowed
execute_tot_test = refl
