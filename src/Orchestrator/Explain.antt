-- ===== src/Orchestrator/Explain.antt =====
-- internal/orchestrator/router.go: ExplainWithState, what the router says of a choice.
mod Tests
use g_lm.Prelude.{
  Bool, true, false, Option, none, some, List, [], ◌∷◌, ◌++◌, any, not, if◌then◌else◌,
}
use g_lm.Prelude.Texts.{Text, lit, text_eq, is_empty, to_lower, trim_space, equal_fold}
use g_lm.Prelude.Maps.{Map}
use g_lm.Model.Records.{Time, ModelPolicy}
use g_lm.Model.Chat.{ChatCompletionRequest}
use g_lm.Policy.{allowed}
use g_lm.Orchestrator.Classifier.{TaskClass}
use g_lm.Orchestrator.Router.{Router, ideal_models, should_auto_route}
use g_lm.Orchestrator.Lookup.{Order, to_available_map, lookup_canonical, resolve_default}
use g_lm.Orchestrator.Candidates.{or_empty, request_class, candidates_of}
use g_lm.Orchestrator.Choose.{Decision, Outcome, initial_decision, choose_with_state}

pub record CandidateDecision : Type 0 where
  pub input : Text
  pub canonical : Text
  pub available : Bool
  pub allowed : Bool
  pub selected : Bool
  pub skip_reason : Text

pub record DebugInfo : Type 0 where
  pub triggered : Bool
  pub task_class : Text
  pub default_resolved : Text
  pub candidates : List CandidateDecision
  pub decision : Decision
  pub available_models : List Text
  pub allowed_models : List Text
  pub policy_primary : Text

abbrev pub skipped : Text → Text → CandidateDecision
skipped input reason = record {
  input = input;
  canonical = [];
  available = false;
  allowed = false;
  selected = false;
  skip_reason = reason;
}

-- A candidate that names an available model.
unfoldable pub found : ModelPolicy → Text → List Text → Text → Text → CandidateDecision
unfolding any text_eq to_lower allowed equal_fold
found pol chosen seen input canon =
    let named = record (skipped input []) { canonical = canon; available = true } in
    if any (text_eq (to_lower canon)) seen
    then record named { skip_reason = lit "duplicate_candidate" }
    else if not (allowed canon pol)
    then record named { skip_reason = lit "blocked_by_allowlist" }
    else record named { allowed = true; selected = equal_fold canon chosen }

-- The loop over the candidates, after those whose names are `seen`.
unfoldable pub explain_candidates :
    Order
    → Text
    → Option Text
    → Map Text
    → ModelPolicy
    → Text
    → List Text
    → List Text
    → List CandidateDecision
unfolding found trim_space equal_fold lookup_canonical to_lower
explain_candidates order default_model resolved m pol chosen seen [] = []
explain_candidates order default_model resolved m pol chosen seen (c ∷ cs) =
    let rest = explain_candidates order default_model resolved m pol chosen seen cs in
    let named : Text → List CandidateDecision = λ cand. elim (lookup_canonical order cand m) [
      | none ↦ skipped c (lit "not_available") ∷ rest
      | some canon ↦
          found pol chosen seen c canon
          ∷ explain_candidates order default_model resolved m pol chosen (to_lower canon ∷ seen) cs
    ] in
    let default : List CandidateDecision = elim resolved [
      | none ↦ skipped c (lit "default_unresolved") ∷ rest
      | some cand ↦ named cand
    ] in
    if is_empty (trim_space c)
    then skipped c (lit "empty_candidate") ∷ rest
    else if equal_fold c default_model
    then default
    else named c

module _ {F : Type 0} where
  unfoldable pub explained_candidates : Router F → TaskClass → Option Text → List Text
  unfolding trim_space candidates_of
  explained_candidates r class resolved =
      let ideal = trim_space (ideal_models r class) in
      if is_empty ideal
      then candidates_of r class resolved
      else ideal ∷ candidates_of r class resolved

  -- ExplainWithState, with the outcome of the choice that it makes under an order of its own
  unfoldable pub explain_with_state :
      Order
      → Order
      → ChatCompletionRequest F
      → List Text
      → ModelPolicy
      → Option Text
      → Time
      → Router F
      → DebugInfo × Outcome F
  unfolding choose_with_state explain_candidates explained_candidates to_available_map
      resolve_default request_class
  explain_with_state order choice_order req available pol st now r =
      let m = to_available_map available in
      let resolved = resolve_default order r m in
      let out = choose_with_state choice_order req available pol st now r in
      let info : DebugInfo = record {
        triggered = should_auto_route req.model;
        task_class = [];
        default_resolved = [];
        candidates = [];
        decision = initial_decision req.model false;
        available_models = available;
        allowed_models = pol.allowed_models;
        policy_primary = pol.primary_model;
      } in
      if not (should_auto_route req.model)
      then (
        record info {
          decision = record (initial_decision req.model false) {
            chosen_model = req.model;
            reason = lit "explicit_model_passthrough";
          };
        },
        record { router = r; decision = initial_decision req.model false; failed = false },
      )
      else (
        record info {
          task_class = out.decision.task_class;
          default_resolved = or_empty resolved;
          candidates =
              explain_candidates order r.default_model resolved m pol out.decision.chosen_model []
                (explained_candidates r (request_class req.messages st) resolved);
          decision = out.decision;
        },
        out,
      )

  -- Explain
  unfoldable pub explain :
      Order
      → Order
      → ChatCompletionRequest F
      → List Text
      → ModelPolicy
      → Time
      → Router F
      → DebugInfo × Outcome F
  unfolding explain_with_state
  explain order choice_order req available pol now r =
      explain_with_state order choice_order req available pol none now r
