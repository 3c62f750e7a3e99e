-- ===== src/Reasoning/Start.antt =====
-- internal/reasoning/executor.go, mcts.go, multiagent.go and decompose.go: what the modes do first,
-- the listing of the models and the choice of one; and what a run returns.
use g_lm.Prelude.{true, Option, none, some, List, [], ◌++◌, if◌then◌else◌}
use g_lm.Prelude.Texts.{Text, lit, to_lower, trim_space, is_empty}
use g_lm.Prelude.Results.{Result, ok, err}
use g_lm.Prelude.Floats.{Float64}
use g_lm.Prelude.Maps.{Map}
use g_lm.Model.Chat.{Json, ReasoningOptions, Message, ChatCompletionRequest, ChatCompletionResponse}
use g_lm.Model.Records.{ModelPolicy}
use g_lm.Model.Session.{CognitiveState}
use g_lm.Orchestrator.Router.{Router}
use g_lm.Orchestrator.Lookup.{Order}
use g_lm.Orchestrator.Choose.{Outcome, choose_with_state}
use g_lm.Metareasoning.Signals.{first_content}
use g_lm.Reasoning.Config.{Config}
use g_lm.Reasoning.Records.{World, Node, Trace, new_trace}
use g_lm.Reasoning.Evaluation.{Evaluation, evaluate_output}

-- The three results, with the world and the router that the run leaves.
pub record Execution (F S : Type 0) : Type 0 where
  pub world : S
  pub router : Router F
  pub trace : Trace F
  pub result : Result Text ChatCompletionResponse

unfoldable pub safe_mode : {F : Type 0} → Option (ReasoningOptions F) → Text
unfolding trim_space to_lower
safe_mode none = lit "none"
safe_mode (some o) =
    if is_empty (trim_space o.mode) then lit "none" else to_lower (trim_space o.mode)

-- What the first steps give: a run that has failed, or the world, the router and the trace with the
-- chosen model.
pub data Started (F S : Type 0) : Type 0 where
  failed : Execution F S → Started F S
  started : S → Router F → Trace F → Started F S

module _ {F S : Type 0} (w : World F S) where
  abbrev started_with : S → Trace F → Outcome F → Started F S
  started_with s trace out =
      if out.failed
      then failed (record {
        world = s;
        router = out.router;
        trace = trace;
        result = err (lit "no allowed available model for auto routing");
      })
      else started s out.router (record trace {
        chosen_model = out.decision.chosen_model;
        task_class = out.decision.task_class;
      })

  unfoldable pub start :
      Order
      → Text
      → Text
      → ChatCompletionRequest F
      → ModelPolicy
      → CognitiveState F
      → Router F
      → S
      → Started F S
  unfolding choose_with_state
  start order failure mode req pol st r s =
      let listed = w.list_models s in
      let trace = new_trace mode st.task_mode in
      elim listed.1 [
        | err e ↦
            failed
              (record { world = listed.0; router = r; trace = trace; result = err (failure ++ e) })
        | ok available ↦
            started_with listed.0 trace
              (choose_with_state order req available pol (some st.task_mode) (w.now listed.0) r)
      ]

  -- A call of the model with messages of its own.
  abbrev pub ask :
      ChatCompletionRequest F → Text → List Message → S → S × Result Text ChatCompletionResponse
  ask req model messages s = w.chat (record req { model = model; messages = messages }) s

  -- The node of a call that begins in one state of the world and ends in another.
  abbrev pub call_node : F → Text → Text → Text → S → S → Node F
  call_node zero id type model before after = record {
    id = id;
    type = type;
    model = model;
    score = zero;
    metadata = [];
    started_at = w.now before;
    ended_at = w.now after;
    error = [];
  }

  -- A node that Go has left at its zero value.
  abbrev zero_node : F → S → Node F
  zero_node zero s = record {
    id = [];
    type = [];
    model = [];
    score = zero;
    metadata = [];
    started_at = 0;
    ended_at = 0;
    error = [];
  }

-- What the call for a baseline gives: the world, the output with its evaluation unless it failed, and
-- the node.
pub record Baseline (F S : Type 0) : Type 0 where
  pub world : S
  pub answer : Option (Text × Evaluation F)
  pub node : Node F

module _ (fl : Float64) {S : Type 0} (w : World fl.F S) where
  open fl use {F, milli}

  abbrev answered :
      Config F
      → ChatCompletionRequest F
      → CognitiveState F
      → Node F
      → S
      → Result Text ChatCompletionResponse
      → Baseline F S
  unfolding evaluate_output
  answered cfg req st node s (err e) = record {
    world = s;
    answer = none;
    node = record node { error = e };
  }
  answered cfg req st node s (ok resp) =
      let output = first_content resp in
      let ev = evaluate_output fl cfg req output st true in
      record { world = s; answer = some (output, ev); node = record node { score = ev.score } }

  -- The baseline candidates of the modes. The context is read before the call and after it.
  unfoldable pub baseline_call :
      Config F
      → ChatCompletionRequest F
      → CognitiveState F
      → Text
      → Text
      → Map Json
      → Text
      → ChatCompletionRequest F
      → S
      → Baseline F S
  unfolding evaluate_output
  baseline_call cfg req st id type metadata model asked s =
      let called = w.chat (record asked { model = model }) s in
      let node = record (call_node w (milli 0) id type model s called.0) { metadata = metadata } in
      elim (w.context_error s) [
        | some e ↦ record { world = s; answer = none; node = zero_node w (milli 0) s }
        | none ↦ elim (w.context_error called.0) [
          | some e ↦ answered cfg req st node called.0 (err e)
          | none ↦ answered cfg req st node called.0 called.1
        ]
      ]
