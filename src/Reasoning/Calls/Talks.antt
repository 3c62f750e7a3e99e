-- ===== src/Reasoning/Calls/Talks.antt =====
-- internal/reasoning/multiagent.go: how often the agents call the model.
use g_lm.Prelude.{
  ℕ, suc, ◌+◌, ◌*◌, ◌-◌, ◌≡◌, ◌≤◌, inl, inr, Bool, true, false, Option, none, some, List, ◌++◌,
  length, take, length-take-le, arith, Bool-cases, if◌then◌else◌,
}
use g_lm.Prelude.Texts.{Text, is_empty, lit}
use g_lm.Prelude.Results.{Result-cases}
use g_lm.Prelude.Floats.{Float64}
use g_lm.Model.Chat.{ChatCompletionRequest}
use g_lm.Model.Records.{ModelPolicy}
use g_lm.Model.Session.{CognitiveState}
use g_lm.Orchestrator.Router.{Router}
use g_lm.Orchestrator.Lookup.{Order}
use g_lm.Reasoning.Config.{Config}
use g_lm.Reasoning.Records.{World, Trace}
use g_lm.Reasoning.Pruning.{merge}
use g_lm.Reasoning.Contradictions.{detect_contradictions}
use g_lm.Reasoning.Evaluation.{resolve_memory_anchors}
use g_lm.Reasoning.Start.{Execution, start}
use g_lm.Reasoning.Decompose.Subtasks.{denies}
use g_lm.Reasoning.Agents.Roles.{
  AgentResult, max_int, min_int, workers, by_score, agent_branches, multi_agent_config,
  multi_agent_roles, role_max_tokens, synthesis_max_tokens, build_multi_agent_synthesis_messages,
}
use g_lm.Reasoning.Agents.Rounds.{
  Arrival, Discussion, with_max_tokens, sort_agents, prune_multi_agent_candidates, fall_back,
}
use g_lm.Reasoning.Agents.Discussion.{run_rounds}
use g_lm.Reasoning.Agents.Synthesis.{
  with_agent_baseline, synthesis_agents, synthesize_agents, first_discussion, unless_failed,
  run_multi_agent, execute_multi_agent,
}
use g_lm.Reasoning.Calls.{IsCounted, start-Uncalled, started_calls}
use g_lm.Reasoning.Calls.Rounds.{IsArrival, fall_back_calls, run_rounds_calls}

length-multi_agent_roles : (n : ℕ) → length (multi_agent_roles n) ≤ 3
unfolding multi_agent_roles
length-multi_agent_roles n = ground (arith, length-take-le (min_int (max_int 1 (n - 1)) 3) workers)

module _ (fl : Float64) {S : Type 0} (w : World fl.F S) (calls : S → ℕ) (c : IsCounted w calls)
    (cfg : Config fl.F) (req : ChatCompletionRequest fl.F) (st : CognitiveState fl.F) where
  open fl use {F}

  either_calls :
      (n : ℕ) (b : Bool) (d e : Discussion F S)
      → calls d.world ≤ n
      → calls e.world ≤ n
      → calls (if b then d else e).world ≤ n
  either_calls n true d e h k = h
  either_calls n false d e h k = k

  with_agent_baseline_calls :
      (model : Text) (max_tokens : ℕ) (d : Discussion F S)
      → calls (with_agent_baseline fl w cfg req st model max_tokens d).world ≤ calls d.world + 1
  unfolding with_agent_baseline
  with_agent_baseline_calls model max_tokens d =
      let round = max_int 1 d.rounds_run in
      let failure = lit "multi-agent failed: no successful role outputs" in
      let back = fall_back fl w cfg req st model max_tokens round failure d in
      either_calls (calls d.world + 1) (is_empty d.candidates) back d
        (fall_back_calls fl w calls c cfg req st model max_tokens round failure d) (omega arith)

  synthesis_agents_calls :
      (model : Text) (max_tokens : ℕ) (d : Discussion F S)
      → calls (synthesis_agents fl w cfg req st model max_tokens d).world ≤ calls d.world + 1
  unfolding synthesis_agents
  synthesis_agents_calls model max_tokens d =
      let sorted = sort_agents fl w d.candidates in
      let pruned = prune_multi_agent_candidates fl w cfg sorted cfg.pruning_ma_synth_top_k in
      let e = record d { candidates = pruned.0; stats = merge d.stats pruned.1 } in
      let round = max_int 1 d.rounds_run in
      let failure =
        lit "multi-agent failed: no pruned synthesis candidates and baseline fallback failed" in
      let back = fall_back fl w cfg req st model max_tokens round failure e in
      let kept = if is_empty pruned.0 then back else e in
      let once = fall_back_calls fl w calls c cfg req st model max_tokens round failure e in
      let most = calls d.world + 1 in
      either_calls most cfg.pruning_enabled kept (record d { candidates = sorted })
        (either_calls most (is_empty pruned.0) back e once (omega arith)) (omega arith)

  synthesize_calls :
      (anchors : List Text) (r : Router F) (trace : Trace F) (d : Discussion F S)
      → calls (synthesize_agents fl w cfg req anchors r trace d).world ≡ suc (calls d.world)
  unfolding synthesize_agents
  synthesize_calls anchors r trace d =
      let reason = λ (a : AgentResult F). lit "multi_agent:" ++ a.role in
      let branches = agent_branches fl reason trace.chosen_model 1 (take 3 d.candidates) in
      let report = detect_contradictions fl branches in
      let top = take 3 (by_score fl d.candidates) in
      let messages = build_multi_agent_synthesis_messages fl w req.messages top report anchors in
      let limited = with_max_tokens (synthesis_max_tokens req) req in
      let asked = record limited { model = trace.chosen_model; messages = messages } in
      let once = c.chat_once asked d.world in
      elim (Result-cases (w.chat asked d.world).1) [
        | inr (e, q) ↦ rw (q, synthesize_agents) once
        | inl (resp, q) ↦ rw (q, synthesize_agents) once
      ]

  unless_failed_calls :
      (n : ℕ) (r : Router F) (trace : Trace F) (d : Discussion F S) (o : Option Text)
      (next : Execution F S)
      → calls d.world ≤ n
      → calls next.world ≤ n
      → calls (unless_failed fl w r trace d o next).world ≤ n
  unless_failed_calls n r trace d none next h k = k
  unless_failed_calls n r trace d (some e) next h k = h

  run_multi_agent_calls :
      (arrive : Arrival) (s : S) (r : Router F) (trace : Trace F)
      → IsArrival arrive
      → calls (run_multi_agent fl w arrive cfg req st s r trace).world
        ≤ calls s + (3 * (multi_agent_config cfg req.reasoning).max_rounds + 4)
  unfolding run_multi_agent first_discussion
  run_multi_agent_calls arrive s r trace a =
      let limits = multi_agent_config cfg req.reasoning in
      let anchors = resolve_memory_anchors fl cfg req in
      let model = trace.chosen_model in
      let tokens = role_max_tokens req limits in
      let first = first_discussion fl w anchors limits s in
      let few : length first.roles ≤ 3 = length-multi_agent_roles limits.max_agents in
      let d =
        run_rounds fl w arrive cfg req st model anchors tokens limits.budget_tokens 1
          limits.max_rounds first in
      let e = with_agent_baseline fl w cfg req st model tokens d in
      let f = synthesis_agents fl w cfg req st model tokens e in
      let ran =
        run_rounds_calls fl w calls c cfg req st arrive model anchors tokens limits.budget_tokens 1
          limits.max_rounds first a few in
      let based = with_agent_baseline_calls model tokens d in
      let chosen = synthesis_agents_calls model tokens e in
      let last = synthesize_calls anchors r trace f in
      let most = calls s + (3 * limits.max_rounds + 4) in
      let answer = synthesize_agents fl w cfg req anchors r trace f in
      let third = unless_failed fl w r trace f f.failure answer in
      unless_failed_calls most r trace d d.failure (unless_failed fl w r trace e e.failure third)
        (omega (arith, ran))
        (unless_failed_calls most r trace e e.failure third (omega (arith, ran, based)) (
          unless_failed_calls most r trace f f.failure answer (omega (arith, ran, based, chosen))
            (omega (arith, ran, based, chosen, last))))

  pub execute_multi_agent_calls :
      (arrive : Arrival) (order : Order) (pol : ModelPolicy) (r : Router F) (s : S)
      → IsArrival arrive
      → calls (execute_multi_agent fl w arrive order cfg req pol st r s).world
        ≤ calls s + (3 * (multi_agent_config cfg req.reasoning).max_rounds + 4)
  unfolding execute_multi_agent
  execute_multi_agent_calls arrive order pol r s a =
      let failure = lit "multi-agent model inventory failed: " in
      let mode = lit "multi_agent" in
      let limits = multi_agent_config cfg req.reasoning in
      elim (Bool-cases (denies (λ o. o.multi_agent_enabled) req.reasoning)) [
        | inl e ↦ rw (e, execute_multi_agent) (omega arith)
        | inr e ↦
            rw (e, execute_multi_agent)
              (started_calls fl w calls c s (3 * limits.max_rounds + 4)
                (run_multi_agent fl w arrive cfg req st)
                (λ s' r' trace. run_multi_agent_calls arrive s' r' trace a)
                (start w order failure mode req pol st r s)
                (start-Uncalled fl w calls c order failure mode req pol st r s))
      ]
