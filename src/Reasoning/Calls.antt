-- ===== src/Reasoning/Calls.antt =====
-- internal/reasoning: how often the modes call the model.
pub mod Weights
pub mod Search
pub mod Plans
pub mod Counted
pub mod Budget
pub mod Rounds
pub mod Talks
pub mod Every
use g_lm.Prelude.{
  ℕ, zero, suc, ◌+◌, ◌≡◌, ◌≤◌, refl, ap, sym, ◌∙◌, subst, inl, inr, Bool, true, false, Option, none,
  some, List, [], ◌∷◌, arith, Bool-cases, Option-cases, if◌then◌else◌,
}
use g_lm.Prelude.Texts.{Text, is_empty, lit}
use g_lm.Prelude.Maps.{Map}
use g_lm.Prelude.Results.{Result, ok, err, Result-cases}
use g_lm.Prelude.Floats.{Float64}
use g_lm.Model.Chat.{Json, ChatCompletionRequest}
use g_lm.Model.Records.{ModelPolicy}
use g_lm.Model.Session.{CognitiveState}
use g_lm.Orchestrator.Router.{Router}
use g_lm.Orchestrator.Lookup.{Order}
use g_lm.Orchestrator.Choose.{choose_with_state}
use g_lm.Reasoning.Config.{Config}
use g_lm.Reasoning.Records.{World, BranchResult, Trace}
use g_lm.Reasoning.Start.{
  Execution, Started, failed, started, safe_mode, start, ask, Baseline, baseline_call,
}
use g_lm.Reasoning.Messages.{build_branch_messages, build_synthesis_messages}
use g_lm.Reasoning.Contradictions.{detect_contradictions}
use g_lm.Reasoning.Evaluation.{resolve_memory_anchors}
use g_lm.Reasoning.Tot.{
  Branches, resolve_branches, keep_branch, branch_step, run_branches, no_branches,
  synthesis_branches, synthesize, run_tot, execute_tot,
}

-- A figure of the world that counts the calls of the model.
pub record IsCounted {F S : Type 0} (w : World F S) (calls : S → ℕ) : Type 0 where
  pub chat_once : (req : ChatCompletionRequest F) (s : S) → calls (w.chat req s).0 ≡ suc (calls s)
  pub list_none : (s : S) → calls (w.list_models s).0 ≡ calls s

module _ (fl : Float64) {S : Type 0} (w : World fl.F S) (calls : S → ℕ)
    (c : IsCounted w calls) where
  open fl use {F}

  -- What the first steps leave has made no call.
  abbrev Uncalled : S → Started F S → Type 0
  Uncalled s (failed x) = calls x.world ≡ calls s
  Uncalled s (started s' r trace) = calls s' ≡ calls s

  pub start-Uncalled :
      (order : Order) (failure mode : Text) (req : ChatCompletionRequest F) (pol : ModelPolicy)
      (st : CognitiveState F) (r : Router F) (s : S)
      → Uncalled s (start w order failure mode req pol st r s)
  unfolding start
  start-Uncalled order failure mode req pol st r s =
      let listed = w.list_models s in
      let none_yet = c.list_none s in
      elim (Result-cases listed.1) [
        | inr (e, p) ↦ rw (p, start) none_yet
        | inl (available, p) ↦
            let now = w.now listed.0 in
            let out = choose_with_state order req available pol (some st.task_mode) now r in
            elim (Bool-cases out.failed) [
              | inl f ↦ rw (p, f, start) none_yet
              | inr f ↦ rw (p, f, start) none_yet
            ]
      ]

  keep_branch-world :
      (cfg : Config F) (b : BranchResult F) (l : Branches F S)
      → (keep_branch fl w cfg b l).world ≡ l.world
  unfolding keep_branch
  keep_branch-world cfg b l = elim (Bool-cases cfg.pruning_enabled) [
    | inl e ↦ rw (e, keep_branch) refl
    | inr e ↦ rw (e, keep_branch) refl
  ]

  branch_step_calls :
      (cfg : Config F) (req : ChatCompletionRequest F) (st : CognitiveState F) (model : Text)
      (anchors : List Text) (total i : ℕ) (l : Branches F S)
      → calls (branch_step fl w cfg req st model anchors total i l).world ≡ suc (calls l.world)
  unfolding branch_step
  branch_step_calls cfg req st model anchors total i l =
      let messages = build_branch_messages req.messages i total anchors in
      let once = c.chat_once (record req { model = model; messages = messages }) l.world in
      elim (Result-cases (ask w req model messages l.world).1) [
        | inr (e, p) ↦ rw (p, branch_step) once
        | inl (resp, p) ↦ rw (p, branch_step) (ap calls (keep_branch-world cfg _ _) ∙ once)
      ]

  run_branches_calls :
      (cfg : Config F) (req : ChatCompletionRequest F) (st : CognitiveState F) (model : Text)
      (anchors : List Text) (total i left : ℕ) (l : Branches F S)
      → calls (run_branches fl w cfg req st model anchors total i left l).world
        ≡ calls l.world + left
  unfolding run_branches
  run_branches_calls cfg req st model anchors total i zero l = omega arith
  run_branches_calls cfg req st model anchors total i (suc left) l =
      let next = branch_step fl w cfg req st model anchors total i l in
      omega (
        arith,
        branch_step_calls cfg req st model anchors total i l,
        run_branches_calls cfg req st model anchors total (i + 1) left next,
      )

  synthesize_calls :
      (cfg : Config F) (req : ChatCompletionRequest F) (anchors : List Text) (r : Router F)
      (trace : Trace F) (l : Branches F S)
      → calls (synthesize fl w cfg req anchors r trace l).world ≡ suc (calls l.world)
  unfolding synthesize
  synthesize_calls cfg req anchors r trace l =
      let branches = (synthesis_branches fl w cfg l).0 in
      let report = detect_contradictions fl branches in
      let messages = build_synthesis_messages w req.messages branches report anchors in
      let asked = record req { model = trace.chosen_model; messages = messages } in
      let once = c.chat_once asked l.world in
      elim (Result-cases (w.chat asked l.world).1) [
        | inr (e, p) ↦ rw (p, synthesize) once
        | inl (resp, p) ↦ rw (p, synthesize) once
      ]

  -- A run of branches calls the model once for each branch, and once more for the synthesis if a branch
  -- has answered.
  run_tot_calls :
      (cfg : Config F) (req : ChatCompletionRequest F) (st : CognitiveState F) (s : S)
      (r : Router F) (trace : Trace F)
      → calls (run_tot fl w cfg req st s r trace).world
        ≤ calls s + (resolve_branches cfg req.reasoning + 1)
  unfolding run_tot no_branches
  run_tot_calls cfg req st s r trace =
      let n = resolve_branches cfg req.reasoning in
      let anchors = resolve_memory_anchors fl cfg req in
      let model = trace.chosen_model in
      let first = no_branches fl w s anchors in
      let l = run_branches fl w cfg req st model anchors n 0 n first in
      let ran = run_branches_calls cfg req st model anchors n 0 n first in
      let more = synthesize_calls cfg req anchors r trace l in
      elim (Bool-cases (is_empty l.successful)) [
        | inl e ↦ rw (e, run_tot) (omega (arith, ran))
        | inr e ↦ rw (e, run_tot) (omega (arith, ran, more))
      ]

  abbrev pub run_started : (S → Router F → Trace F → Execution F S) → Started F S → Execution F S
  run_started run (failed x) = x
  run_started run (started s r trace) = run s r trace

  pub started_calls :
      (s : S) (n : ℕ) (run : S → Router F → Trace F → Execution F S)
      → ((s' : S) (r : Router F) (trace : Trace F) → calls (run s' r trace).world ≤ calls s' + n)
      → (x : Started F S) → Uncalled s x
      → calls (run_started run x).world ≤ calls s + n
  started_calls s n run h (failed x) u = omega arith
  started_calls s n run h (started s' r trace) u = omega (arith, h s' r trace)

  -- A run of branches calls the model at most once for each branch that the request asks for, within the
  -- configured limits, and once more. `calls` is a measure of the world that a call raises by one.
  pub execute_tot_calls :
      (order : Order) (cfg : Config F) (req : ChatCompletionRequest F) (pol : ModelPolicy)
      (st : CognitiveState F) (r : Router F) (s : S)
      → calls (execute_tot fl w order cfg req pol st r s).world
        ≤ calls s + (resolve_branches cfg req.reasoning + 1)
  unfolding execute_tot
  execute_tot_calls order cfg req pol st r s =
      let failure = lit "pipeline model inventory failed: " in
      let mode = safe_mode req.reasoning in
      started_calls s (resolve_branches cfg req.reasoning + 1) (run_tot fl w cfg req st)
        (run_tot_calls cfg req st) (start w order failure mode req pol st r s)
        (start-Uncalled order failure mode req pol st r s)

  pub baseline_call_calls :
      (cfg : Config F) (req : ChatCompletionRequest F) (st : CognitiveState F) (id type : Text)
      (metadata : Map Json) (model : Text) (asked : ChatCompletionRequest F) (s : S)
      → calls (baseline_call fl w cfg req st id type metadata model asked s).world ≤ calls s + 1
  unfolding baseline_call
  baseline_call_calls cfg req st id type metadata model asked s =
      let sent = record asked { model = model } in
      let once = c.chat_once sent s in
      let called = w.chat sent s in
      elim (Option-cases (w.context_error s)) [
        | inr (e, p) ↦ rw (p, baseline_call) (omega arith)
        | inl p ↦ elim (Option-cases (w.context_error called.0)) [
          | inr (e, q) ↦ rw (p, q, baseline_call) (omega (arith, once))
          | inl q ↦ elim (Result-cases called.1) [
            | inr (e, t) ↦ rw (p, q, t, baseline_call) (omega (arith, once))
            | inl (resp, t) ↦ rw (p, q, t, baseline_call) (omega (arith, once))
          ]
        ]
      ]
