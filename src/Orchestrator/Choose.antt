-- ===== src/Orchestrator/Choose.antt =====
-- internal/orchestrator/router.go: ChooseWithState. The state of the session is
-- the task mode that it records. `now` is the time that a call reads, for what it marks as used and
-- for the start of a pull.
pub mod Sound
pub mod Effects
use g_lm.Prelude.{
  ℕ, Bool, true, false, ◌||◌, ◌&&◌, Option, none, some, List, [], ◌∷◌, ◌++◌, any, if◌then◌else◌,
  not,
}
use g_lm.Prelude.Texts.{Text, lit, text_eq, is_empty, to_lower, trim_space, equal_fold}
use g_lm.Prelude.Maps.{Map}
use g_lm.Model.Records.{Time, ModelPolicy}
use g_lm.Model.Chat.{ChatCompletionRequest}
use g_lm.Policy.{allowed}
use g_lm.Orchestrator.Classifier.{TaskClass, class_name}
use g_lm.Orchestrator.Router.{Router, ideal_models, should_auto_route}
use g_lm.Orchestrator.Lookup.{Order, to_available_map, lookup_canonical, resolve_default}
use g_lm.Orchestrator.Candidates.{
  request_class, or_empty, is_some, usable, decision_reason, first_usable, first_allowed,
  mark_model_used, trigger_background_pull, candidates_of,
}

pub record Decision : Type 0 where
  pub requested_model : Text
  pub chosen_model : Text
  pub reason : Text
  pub task_class : Text
  pub fallback_used : Bool
  pub ideal_model : Text
  pub ideal_available : Bool
  pub jit_pull_triggered : Bool
  pub inventory_stale : Bool

-- What a call returns: the decision, whether the error ErrNoAllowedAvailableModel comes with it, and
-- the router that it leaves.
pub record Outcome (F : Type 0) : Type 0 where
  pub router : Router F
  pub decision : Decision
  pub failed : Bool

unfoldable pub initial_decision : Text → Bool → Decision
initial_decision requested stale = record {
  requested_model = requested;
  chosen_model = [];
  reason = [];
  task_class = [];
  fallback_used = false;
  ideal_model = [];
  ideal_available = false;
  jit_pull_triggered = false;
  inventory_stale = stale;
}

module _ {F : Type 0} where
  abbrev pub select : Router F → Time → Text → Decision → Outcome F
  select r now canon d = record {
    router = mark_model_used canon now r;
    decision = d;
    failed = false;
  }

  -- The models of the request's inventory, or those of the snapshot if it names none.
  unfoldable pub effective_inventory : Router F → List Text → Map Text × Bool
  effective_inventory r available =
      let m = to_available_map available in
      if is_empty m then (r.inventory.available, r.inventory.stale) else (m, false)

  choose_primary : Order → Map Text → Decision → ModelPolicy → Time → Router F → Outcome F
  choose_primary order effective d pol now r =
      elim (usable pol (lookup_canonical order pol.primary_model effective)) [
        | some cand ↦ select r now cand (record d {
          chosen_model = cand;
          reason = lit "auto.fallback.policy_primary";
          fallback_used = true;
        })
        | none ↦ elim (first_allowed pol (order [] effective)) [
          | some avail ↦ select r now avail (record d {
            chosen_model = avail;
            reason = lit "auto.fallback.first_allowed_available";
            fallback_used = true;
          })
          | none ↦ record { router = r; decision = d; failed = true }
        ]
      ]

  choose_candidate :
      Order → Map Text → Decision → ModelPolicy → TaskClass → Time → Router F → Outcome F
  choose_candidate order effective d pol class now r =
      let resolved = resolve_default order r effective in
      elim (first_usable order r.default_model resolved effective pol
        (candidates_of r class resolved) []) [
          | some chosen ↦
              let why = decision_reason class chosen resolved r.fallback_default in
              select r now chosen
                (record d { chosen_model = chosen; reason = why.0; fallback_used = why.1 })
          | none ↦ choose_primary order effective d pol now r
        ]

  choose_from : Order → Map Text → Decision → ModelPolicy → TaskClass → Time → Router F → Outcome F
  choose_from order effective d pol class now r =
      let ideal = trim_space (ideal_models r class) in
      let d' = record d { task_class = class_name class; ideal_model = ideal } in
      if is_empty ideal
      then choose_candidate order effective d' pol class now r
      else elim (usable pol (lookup_canonical order ideal effective)) [
        | some canon ↦ select r now canon (record d' {
          chosen_model = canon;
          reason = lit "auto.ideal." ++ class_name class;
          ideal_available = true;
        })
        | none ↦
            let pull = trigger_background_pull ideal now r in
            choose_candidate order effective (record d' { jit_pull_triggered = pull.1 }) pol class
              now pull.0
      ]

  unfoldable pub choose_with_state :
      Order
      → ChatCompletionRequest F
      → List Text
      → ModelPolicy
      → Option Text
      → Time
      → Router F
      → Outcome F
  unfolding choose_primary choose_candidate choose_from initial_decision
  choose_with_state order req available pol st now r =
      let inv = effective_inventory r available in
      let d = initial_decision req.model inv.1 in
      if is_empty inv.0
      then record { router = r; decision = d; failed = true }
      else choose_from order inv.0 d pol (request_class req.messages st) now r

  -- Choose
  unfoldable pub choose :
      Order → ChatCompletionRequest F → List Text → ModelPolicy → Time → Router F → Outcome F
  choose order req available pol now r = choose_with_state order req available pol none now r
