-- ===== src/Orchestrator/Candidates.antt =====
-- internal/orchestrator/router.go: the parts of a choice: the class of a request, the candidates and
-- the first usable one, the reason, and the start of a background pull.
use g_lm.Prelude.{
  Bool, true, false, ◌||◌, ◌&&◌, Option, none, some, List, [], ◌∷◌, ◌++◌, any, keep, map, not,
  if◌then◌else◌, ltb, ◌-◌, ◌*◌,
}
use g_lm.Prelude.Texts.{Text, lit, text_eq, is_empty, to_lower, trim_space, equal_fold}
use g_lm.Prelude.Maps.{Map, lookup, insert}
use g_lm.Model.Records.{Time, ModelPolicy}
use g_lm.Model.Chat.{Message}
use g_lm.Policy.{allowed}
use g_lm.Orchestrator.Classifier.{
  TaskClass, general, coding_reasoning, light_qa, extraction_classification, classify_messages,
}
use g_lm.Orchestrator.Router.{Router, task_map}
use g_lm.Orchestrator.Lookup.{Order, lookup_canonical}

unfoldable pub user_texts : List Message → List Text
unfolding keep equal_fold
user_texts ms = map (λ m. m.content) (keep (λ m. equal_fold m.role (lit "user")) ms)

unfoldable pub task_class_from_state_mode : Text → Option TaskClass
task_class_from_state_mode mode =
    let m = to_lower (trim_space mode) in
    if text_eq m (lit "coding")
    then some coding_reasoning
    else if text_eq m (lit "qa_light")
    then some light_qa
    else if text_eq m (lit "extraction")
    then some extraction_classification
    else if text_eq m (lit "general")
    then some general
    else none

abbrev or_class : Option TaskClass → TaskClass → TaskClass
or_class none c = c
or_class (some d) c = d

-- The class of a request: that of the session's task mode, where it names one.
unfoldable pub request_class : List Message → Option Text → TaskClass
unfolding user_texts task_class_from_state_mode
request_class ms none = classify_messages (user_texts ms)
request_class ms (some mode) =
    or_class (task_class_from_state_mode mode) (classify_messages (user_texts ms))

abbrev pub or_empty : Option Text → Text
or_empty none = []
or_empty (some v) = v

abbrev pub is_some {ℓ} : {A : Type ℓ} → Option A → Bool
is_some none = false
is_some (some a) = true

is_general : TaskClass → Bool
is_general general = true
is_general _ = false

reason_by_class : TaskClass → Text → Text → Text × Bool
reason_by_class coding_reasoning chosen fallback =
    (lit "auto.classification.coding", not (equal_fold chosen (lit "mistral:7b")))
reason_by_class light_qa chosen fallback =
    (lit "auto.classification.qa_light", not (equal_fold chosen (lit "llama3.2:1b")))
reason_by_class extraction_classification chosen fallback =
    (lit "auto.classification.extraction", not (equal_fold chosen (lit "qwen2.5:3b-instruct")))
reason_by_class general chosen fallback =
    if equal_fold chosen fallback
    then (lit "auto.fallback.default_unavailable", true)
    else (lit "auto.classification.general", true)

unfoldable pub decision_reason : TaskClass → Text → Option Text → Text → Text × Bool
unfolding equal_fold is_general reason_by_class
decision_reason class chosen resolved fallback =
    if is_general class && equal_fold chosen (or_empty resolved)
    then (lit "auto.default", false)
    else if not (is_some resolved) && equal_fold chosen fallback
    then (lit "auto.fallback.default_unavailable", true)
    else reason_by_class class chosen fallback

-- What a candidate stands for: the default model is what it was resolved to.
unfoldable pub candidate_name : Text → Option Text → Text → Option Text
candidate_name default_model resolved c =
    if is_empty (trim_space c)
    then none
    else if equal_fold c default_model
    then resolved
    else some c

abbrev pub find_name : Order → Map Text → Option Text → Option Text
find_name order available none = none
find_name order available (some cand) = lookup_canonical order cand available

-- firstUsable, over the candidates left and the names seen
unfoldable pub first_usable :
    Order → Text → Option Text → Map Text → ModelPolicy → List Text → List Text → Option Text
unfolding candidate_name any
first_usable order default_model resolved available pol [] seen = none
first_usable order default_model resolved available pol (c ∷ cs) seen =
    elim (find_name order available (candidate_name default_model resolved c)) [
      | none ↦ first_usable order default_model resolved available pol cs seen
      | some canon ↦
          let next =
            first_usable order default_model resolved available pol cs (to_lower canon ∷ seen) in
          let again = first_usable order default_model resolved available pol cs seen in
          if any (text_eq (to_lower canon)) seen
          then again
          else if allowed canon pol
          then some canon
          else next
    ]

unfoldable pub first_allowed : ModelPolicy → Map Text → Option Text
first_allowed pol [] = none
first_allowed pol (e ∷ m) = if allowed e.1 pol then some e.1 else first_allowed pol m

recently : Option Time → Time → Bool
recently none now = false
recently (some ts) now = ltb (now - ts) (30 * 1000000000)

abbrev pub usable : ModelPolicy → Option Text → Option Text
usable pol none = none
usable pol (some v) = if allowed v pol then some v else none

module _ {F : Type 0} where
  unfoldable pub mark_model_used : Text → Time → Router F → Router F
  mark_model_used model now r =
      if is_empty (trim_space model)
      then r
      else record r { last_used = insert (to_lower model) now r.last_used }

  -- The part of the call before the goroutine starts, which `Inventory` models.
  unfoldable pub trigger_background_pull : Text → Time → Router F → Router F × Bool
  unfolding recently any
  trigger_background_pull model now r =
      let name = trim_space model in
      let key = to_lower name in
      if not r.cfg.jit_inventory_enabled || (not r.has_control || is_empty name)
      then (r, false)
      else if recently (lookup key r.pull_recent) now
      then (r, false)
      else if any (text_eq key) r.pull_in_flight
      then (r, false)
      else (
        record r {
          pull_in_flight = key ∷ r.pull_in_flight;
          pull_recent = insert key now r.pull_recent;
        },
        true,
      )

  unfoldable pub candidates_of : Router F → TaskClass → Option Text → List Text
  unfolding task_map
  candidates_of r general resolved = task_map r general
  candidates_of r class resolved =
      task_map r class ++ or_empty resolved ∷ r.fallback_default ∷ r.default_model ∷ []
