-- ===== src/Reasoning/Agents/Synthesis.antt =====
-- internal/reasoning/multiagent.go: executeMultiAgent.
use g_lm.Prelude.{ℕ, ◌+◌, Option, none, some, List, [], ◌∷◌, ◌++◌, length, take, if◌then◌else◌}
use g_lm.Prelude.Texts.{Text, lit, is_empty}
use g_lm.Prelude.Results.{ok, err}
use g_lm.Prelude.Floats.{Float64}
use g_lm.Model.Chat.{string, ChatCompletionRequest}
use g_lm.Model.Records.{ModelPolicy}
use g_lm.Model.Session.{CognitiveState}
use g_lm.Orchestrator.Router.{Router}
use g_lm.Orchestrator.Lookup.{Order}
use g_lm.Reasoning.Config.{Config}
use g_lm.Reasoning.Records.{World, MultiAgentResult, Trace, new_trace}
use g_lm.Reasoning.Evaluation.{resolve_memory_anchors, new_accumulator, anchor_trace}
use g_lm.Reasoning.Pruning.{no_stats, merge, pruning_trace}
use g_lm.Reasoning.Contradictions.{detect_contradictions}
use g_lm.Reasoning.Geometry.{apply_geometry_and_fusion}
use g_lm.Reasoning.Start.{Execution, failed, started, start, ask, call_node}
use g_lm.Reasoning.Decompose.Subtasks.{denies}
use g_lm.Reasoning.Agents.Roles.{
  AgentResult, MultiAgentConfig, max_int, multi_agent_config, multi_agent_roles, role_max_tokens,
  synthesis_max_tokens, agent_branches, by_score, multi_agent_consensus,
  build_multi_agent_synthesis_messages,
}
use g_lm.Reasoning.Agents.Rounds.{
  Arrival, Discussion, with_max_tokens, sort_agents, prune_multi_agent_candidates, fall_back,
}
use g_lm.Reasoning.Agents.Discussion.{run_rounds}

module _ (fl : Float64) {S : Type 0} (w : World fl.F S) where
  open fl use {F, milli}

  -- The discussion with a candidate, if the baseline does not fail.
  unfoldable pub with_agent_baseline :
      Config F
      → ChatCompletionRequest F
      → CognitiveState F
      → Text
      → ℕ
      → Discussion F S
      → Discussion F S
  unfolding fall_back
  with_agent_baseline cfg req st model max_tokens d =
      let failure = lit "multi-agent failed: no successful role outputs" in
      if is_empty d.candidates
      then fall_back fl w cfg req st model max_tokens (max_int 1 d.rounds_run) failure d
      else d

  -- The discussion with the candidates for the synthesis in the place of its own.
  unfoldable pub synthesis_agents :
      Config F
      → ChatCompletionRequest F
      → CognitiveState F
      → Text
      → ℕ
      → Discussion F S
      → Discussion F S
  unfolding sort_agents prune_multi_agent_candidates merge fall_back
  synthesis_agents cfg req st model max_tokens d =
      let sorted = sort_agents fl w d.candidates in
      let pruned = prune_multi_agent_candidates fl w cfg sorted cfg.pruning_ma_synth_top_k in
      let e = record d { candidates = pruned.0; stats = merge d.stats pruned.1 } in
      let failure =
        lit "multi-agent failed: no pruned synthesis candidates and baseline fallback failed" in
      if cfg.pruning_enabled
      then if is_empty pruned.0
        then fall_back fl w cfg req st model max_tokens (max_int 1 d.rounds_run) failure e
        else e
      else record d { candidates = sorted }

  abbrev winner : List (AgentResult F) → Text
  winner [] = []
  winner (c ∷ cs) = c.role

  abbrev winning_score : List (AgentResult F) → F
  winning_score [] = milli 0
  winning_score (c ∷ cs) = c.score

  unfoldable pub multi_agent_result : Discussion F S → MultiAgentResult F
  unfolding by_score multi_agent_consensus
  multi_agent_result d =
      let ordered = by_score fl d.candidates in
      record {
        agents = length d.roles + 1;
        rounds = max_int 1 d.rounds_run;
        winner = winner ordered;
        consensus = multi_agent_consensus fl ordered;
        score = winning_score ordered;
        fallback = [];
      }

  -- The call for the synthesis, and the trace of the run.
  unfoldable pub synthesize_agents :
      Config F
      → ChatCompletionRequest F
      → List Text
      → Router F
      → Trace F
      → Discussion F S
      → Execution F S
  unfolding agent_branches detect_contradictions by_score multi_agent_result
      build_multi_agent_synthesis_messages synthesis_max_tokens anchor_trace
      apply_geometry_and_fusion
  synthesize_agents cfg req anchors r trace d =
      let model = trace.chosen_model in
      let branches =
        agent_branches fl (λ c. lit "multi_agent:" ++ c.role) model 1 (take 3 d.candidates) in
      let contradictions = detect_contradictions fl branches in
      let top = take 3 (by_score fl d.candidates) in
      let result = multi_agent_result d in
      let messages =
        build_multi_agent_synthesis_messages fl w req.messages top contradictions anchors in
      let called = ask w (with_max_tokens (synthesis_max_tokens req) req) model messages d.world in
      let node =
        record (call_node w (milli 0) (lit "multi-agent-synthesizer") (lit "multi_agent_synthesis")
          model d.world called.0) {
            metadata =
                (lit "winner", string result.winner)
                ∷ (lit "consensus", string result.consensus)
                ∷ [];
          } in
      let traced = record trace {
        branches = branches;
        contradictions = contradictions;
        memory_anchor =
            some
              (anchor_trace fl cfg.memory_anchored_reasoning_enabled (lit "multi_agent") d.anchors);
        multi_agent = some result;
      } in
      let pruned =
        record (pruning_trace fl (lit "multi_agent") cfg cfg.pruning_ma_synth_top_k d.stats []) {
          candidates_out = length d.candidates;
        } in
      elim called.1 [
        | err e ↦ record {
          world = called.0;
          router = r;
          trace = record traced { nodes = d.nodes ++ record node { error = e } ∷ [] };
          result = err (lit "multi-agent synthesis failed: " ++ e);
        }
        | ok resp ↦ record {
          world = called.0;
          router = r;
          trace =
              apply_geometry_and_fusion fl cfg req
                (record traced { pruning = some pruned; nodes = d.nodes ++ node ∷ [] });
          result = ok resp;
        }
      ]

  -- A discussion that has failed gives its error; another goes on.
  abbrev pub unless_failed :
      Router F → Trace F → Discussion F S → Option Text → Execution F S → Execution F S
  unless_failed r trace d none next = next
  unless_failed r trace d (some e) next = record {
    world = d.world;
    router = r;
    trace = record trace { nodes = d.nodes };
    result = err e;
  }

  unfoldable pub first_discussion : List Text → MultiAgentConfig → S → Discussion F S
  unfolding multi_agent_roles new_accumulator
  first_discussion anchors limits s = record {
    world = s;
    roles = multi_agent_roles limits.max_agents;
    candidates = [];
    nodes = [];
    anchors = new_accumulator fl anchors;
    stats = no_stats;
    budget_used = 0;
    rounds_run = 0;
    failure = none;
  }

  -- After the choice of the model.
  unfoldable pub run_multi_agent :
      Arrival
      → Config F
      → ChatCompletionRequest F
      → CognitiveState F
      → S
      → Router F
      → Trace F
      → Execution F S
  unfolding multi_agent_config resolve_memory_anchors role_max_tokens first_discussion run_rounds
      with_agent_baseline synthesis_agents synthesize_agents
  run_multi_agent arrive cfg req st s r trace =
      let limits = multi_agent_config cfg req.reasoning in
      let anchors = resolve_memory_anchors fl cfg req in
      let model = trace.chosen_model in
      let tokens = role_max_tokens req limits in
      let d =
        run_rounds fl w arrive cfg req st model anchors tokens limits.budget_tokens 1
          limits.max_rounds (first_discussion anchors limits s) in
      let e = with_agent_baseline cfg req st model tokens d in
      let f = synthesis_agents cfg req st model tokens e in
      let last = synthesize_agents cfg req anchors r trace f in
      unless_failed r trace d d.failure
        (unless_failed r trace e e.failure (unless_failed r trace f f.failure last))

  -- executeMultiAgent
  unfoldable pub execute_multi_agent :
      Arrival
      → Order
      → Config F
      → ChatCompletionRequest F
      → ModelPolicy
      → CognitiveState F
      → Router F
      → S
      → Execution F S
  unfolding start run_multi_agent
  execute_multi_agent arrive order cfg req pol st r s =
      if denies (λ o. o.multi_agent_enabled) req.reasoning
      then record {
        world = s;
        router = r;
        trace = new_trace (lit "multi_agent") st.task_mode;
        result = err (lit "multi_agent_enabled must be true when reasoning.mode=multi_agent");
      }
      else elim (start w order (lit "multi-agent model inventory failed: ") (lit "multi_agent") req
          pol st r s) [
            | failed x ↦ x
            | started s' r' trace ↦ run_multi_agent arrive cfg req st s' r' trace
          ]
