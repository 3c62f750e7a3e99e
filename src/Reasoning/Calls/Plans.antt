-- ===== src/Reasoning/Calls/Plans.antt =====
-- internal/reasoning/decompose.go: how often a decomposition calls the model.
use g_lm.Prelude.{
  ℕ, suc, ◌+◌, ◌≡◌, ◌≤◌, inl, inr, List, [], ◌∷◌, length, leb, arith, Bool-cases, Option-cases,
}
use g_lm.Prelude.Texts.{Text, is_empty, lit}
use g_lm.Prelude.Int.{ℤ, pos, negsuc, pos_part, ◌≤ℤ◌}
use g_lm.Prelude.Results.{Result-cases}
use g_lm.Prelude.Floats.{Float64}
use g_lm.Model.Chat.{ChatCompletionRequest}
use g_lm.Model.Records.{ModelPolicy}
use g_lm.Model.Session.{CognitiveState}
use g_lm.Metareasoning.Signals.{first_content}
use g_lm.Orchestrator.Router.{Router}
use g_lm.Orchestrator.Lookup.{Order}
use g_lm.Reasoning.Config.{Config, at_least, at_most}
use g_lm.Reasoning.Records.{World, Trace}
use g_lm.Reasoning.Evaluation.{resolve_memory_anchors, new_accumulator}
use g_lm.Reasoning.Geometry.{asked_or}
use g_lm.Reasoning.Pruning.{prune_stable_sort}
use g_lm.Reasoning.Contradictions.{detect_contradictions}
use g_lm.Reasoning.Messages.{
  build_decompose_planner_messages, build_decompose_subtask_messages,
  build_decompose_synthesis_messages, build_decompose_baseline_messages,
}
use g_lm.Reasoning.Start.{start}
use g_lm.Reasoning.Decompose.Planner.{
  DecomposeConfig, resolve_decompose_config, parse_decompose_subtasks,
}
use g_lm.Reasoning.Decompose.Planned.{parse_decompose_subtasks_lem}
use g_lm.Reasoning.Decompose.Subtasks.{
  Subtasks, denies, plan_subtasks, subtask_step, run_subtasks, decompose_baseline,
}
use g_lm.Reasoning.Decompose.Synthesis.{
  decompose_branches, synthesize_decompose, with_baseline, run_decompose, execute_decompose,
}
use g_lm.Reasoning.Calls.{IsCounted, start-Uncalled, started_calls, baseline_call_calls}

module _ (fl : Float64) {S : Type 0} (w : World fl.F S) (calls : S → ℕ) (c : IsCounted w calls)
    (cfg : Config fl.F) (req : ChatCompletionRequest fl.F) where
  open fl use {F}

  -- The plan takes one call, and holds at least one subtask and at most the number allowed.
  plan_subtasks_calls :
      (model : Text) (limits : DecomposeConfig) (anchors : List Text) (s : S)
      → 1 ≤ limits.max_subtasks
      → let planned = plan_subtasks fl w req model limits anchors s in
        (calls planned.0 ≡ suc (calls s)) × (length planned.1 ≤ limits.max_subtasks)
  unfolding plan_subtasks
  plan_subtasks_calls model limits anchors s one =
      let messages =
        build_decompose_planner_messages w req.messages limits.max_subtasks limits.max_depth
          anchors in
      let asked = record req { model = model; messages = messages } in
      let once = c.chat_once asked s in
      elim (Result-cases (w.chat asked s).1) [
        | inr (e, p) ↦ rw (p, plan_subtasks) (once, one)
        | inl (resp, p) ↦
            let raw = first_content resp in
            let parsed = parse_decompose_subtasks w.unmarshal raw limits.max_subtasks in
            elim (Result-cases parsed) [
              | inr (e, q) ↦ rw (p, q, plan_subtasks) (once, one)
              | inl (ts, q) ↦
                  let (_, tasks) =
                    parse_decompose_subtasks_lem w.unmarshal raw limits.max_subtasks ts one q in
                  rw (p, q, plan_subtasks) (once, tasks.limit)
            ]
      ]

  module _ (st : CognitiveState F) where
    subtask_step_calls :
        (model : Text) (anchors : List Text) (total i : ℕ) (t : Text) (l : Subtasks F S)
        → calls (subtask_step fl w cfg req st model anchors total i t l).world ≡ suc (calls l.world)
    unfolding subtask_step
    subtask_step_calls model anchors total i t l =
        let messages = build_decompose_subtask_messages w req.messages i total t anchors in
        let asked = record req { model = model; messages = messages } in
        let once = c.chat_once asked l.world in
        elim (Result-cases (w.chat asked l.world).1) [
          | inr (e, p) ↦ rw (p, subtask_step) once
          | inl (resp, p) ↦ rw (p, subtask_step) once
        ]

    run_subtasks_calls :
        (model : Text) (anchors : List Text) (budget total i : ℕ) (ts : List Text)
        (l : Subtasks F S)
        → calls (run_subtasks fl w cfg req st model anchors budget total i ts l).world
          ≤ calls l.world + length ts
    unfolding run_subtasks
    run_subtasks_calls model anchors budget total i [] l = omega arith
    run_subtasks_calls model anchors budget total i (t ∷ ts) l =
        let next = subtask_step fl w cfg req st model anchors total i t l in
        let step = subtask_step_calls model anchors total i t l in
        let rest = run_subtasks_calls model anchors budget total (i + 1) ts next in
        elim (Option-cases (w.context_error l.world)) [
          | inr (e, o) ↦ rw (o, run_subtasks) (omega arith)
          | inl o ↦ elim (Bool-cases (leb budget l.budget_used)) [
            | inl b ↦ rw (o, b, run_subtasks) (omega arith)
            | inr b ↦ rw (o, b, run_subtasks) (omega (arith, step, rest))
          ]
        ]

    with_baseline_calls :
        (model : Text) (anchors : List Text) (l : Subtasks F S)
        → calls (with_baseline fl w cfg req st model anchors l).0.world ≤ calls l.world + 1
    unfolding with_baseline decompose_baseline
    with_baseline_calls model anchors l =
        let b = decompose_baseline fl w cfg req st model anchors l.world in
        let asked = record req {
          messages = build_decompose_baseline_messages w req.messages anchors;
        } in
        let once = baseline_call_calls fl w calls c cfg req st _ _ _ model asked l.world in
        elim (Bool-cases (is_empty l.successful)) [
          | inr e ↦ rw (e, with_baseline) (omega arith)
          | inl e ↦ elim (Option-cases b.answer) [
            | inl o ↦ rw (e, o, with_baseline) once
            | inr (a, o) ↦ rw (e, o, with_baseline) once
          ]
        ]

    synthesize_calls :
        (anchors subtasks : List Text) (r : Router F) (trace : Trace F) (l : Subtasks F S)
        → calls (synthesize_decompose fl w cfg req anchors subtasks r trace l).world
          ≡ suc (calls l.world)
    unfolding synthesize_decompose
    synthesize_calls anchors subtasks r trace l =
        let chosen = (decompose_branches fl w cfg l.successful).0 in
        let report = detect_contradictions fl chosen in
        let sorted = prune_stable_sort fl (lit "decompose") chosen in
        let messages =
          build_decompose_synthesis_messages w req.messages subtasks sorted report anchors in
        let asked = record req { model = trace.chosen_model; messages = messages } in
        let once = c.chat_once asked l.world in
        elim (Result-cases (w.chat asked l.world).1) [
          | inr (e, q) ↦ rw (q, synthesize_decompose) once
          | inl (resp, q) ↦ rw (q, synthesize_decompose) once
        ]

    -- The model is called at most max_subtasks + 3 times: for the plan, the subtasks, a baseline and
    -- the synthesis.
    run_decompose_calls :
        (s : S) (r : Router F) (trace : Trace F)
        → 1 ≤ (resolve_decompose_config cfg req.reasoning).max_subtasks
        → calls (run_decompose fl w cfg req st s r trace).world
          ≤ calls s + ((resolve_decompose_config cfg req.reasoning).max_subtasks + 3)
    unfolding run_decompose
    run_decompose_calls s r trace one =
        let limits = resolve_decompose_config cfg req.reasoning in
        let anchors = resolve_memory_anchors fl cfg req in
        let model = trace.chosen_model in
        let planned = plan_subtasks fl w req model limits anchors s in
        let subtasks = planned.1 in
        let first : Subtasks F S = record {
          world = planned.0;
          successful = [];
          anchors = new_accumulator fl anchors;
          nodes = planned.2 ∷ [];
          budget_used = 0;
        } in
        let done =
          run_subtasks fl w cfg req st model anchors limits.budget_tokens (length subtasks) 0
            subtasks first in
        let l = with_baseline fl w cfg req st model anchors done in
        let (plan, short) = plan_subtasks_calls model limits anchors s one in
        let ran =
          run_subtasks_calls model anchors limits.budget_tokens (length subtasks) 0 subtasks
            first in
        let based = with_baseline_calls model anchors done in
        elim (Bool-cases l.1) [
          | inr e ↦ rw (e, run_decompose) (omega (arith, plan, short, ran, based))
          | inl e ↦
              let last = synthesize_calls anchors subtasks r trace l.0 in
              rw (e, run_decompose) (omega (arith, plan, short, ran, based, last))
        ]

    subtasks_limit :
        (limit asked : ℤ) → pos 1 ≤ℤ limit → 1 ≤ pos_part (at_most limit (at_least (pos 1) asked))
    subtasks_limit (pos n) (pos m) h = ground arith
    subtasks_limit (pos n) (negsuc m) h = ground arith
    subtasks_limit (negsuc n) asked h = absurd (omega (arith, h))

    -- If at least one subtask is configured, a decomposition calls the model at most once for each
    -- subtask that the request may have and three times more (the plan, a baseline and the synthesis),
    -- whatever the planner answers. `calls` is a measure of the world that a call raises by one.
    pub execute_decompose_calls :
        (order : Order) (pol : ModelPolicy) (r : Router F) (s : S)
        → pos 1 ≤ℤ cfg.decompose_max_subtasks
        → calls (execute_decompose fl w order cfg req pol st r s).world
          ≤ calls s + ((resolve_decompose_config cfg req.reasoning).max_subtasks + 3)
    unfolding execute_decompose
    execute_decompose_calls order pol r s h =
        let failure = lit "decompose model inventory failed: " in
        let mode = lit "decompose" in
        let limits = resolve_decompose_config cfg req.reasoning in
        let asked =
          asked_or cfg.decompose_max_subtasks (λ o. o.decompose_max_subtasks) req.reasoning in
        let one = subtasks_limit cfg.decompose_max_subtasks asked h in
        elim (Bool-cases (denies (λ o. o.decompose_enabled) req.reasoning)) [
          | inl e ↦ rw (e, execute_decompose) (omega arith)
          | inr e ↦
              rw (e, execute_decompose)
                (started_calls fl w calls c s (limits.max_subtasks + 3)
                  (run_decompose fl w cfg req st)
                  (λ s' r' trace. run_decompose_calls s' r' trace one)
                  (start w order failure mode req pol st r s)
                  (start-Uncalled fl w calls c order failure mode req pol st r s))
        ]
