-- ===== src/Overlay/Compliance.antt =====
-- internal/symbolicoverlay: the compliance of a response (compliance.go, dedupe of extract.go,
-- CheckCompliance of service.go).
use g_lm.Prelude.{
  ℕ, Bool, true, false, not, ◌&&◌, ◌||◌, Option, none, some, List, [], ◌∷◌, ◌++◌, map, any, keep,
  take, length, if◌then◌else◌,
}
use g_lm.Prelude.Texts.{Text, lit, text_eq, is_empty, to_lower, trim_space, contains}
use g_lm.Prelude.Floats.{Float64}
use g_lm.Model.Chat.{ChatCompletionResponse}
use g_lm.Metareasoning.Signals.{first_content}
use g_lm.Metareasoning.Patterns.{dedupe}
use g_lm.Overlay.Options.{Config}
use g_lm.Overlay.Artifact.{Constraint, RiskSignal, OverlayArtifact}

pub record ComplianceResult (F : Type 0) : Type 0 where
  pub checked : Bool
  pub violation_count : ℕ
  pub warnings : List Text
  pub score : F

-- The strings trimmed, without blank ones and without repetition.
unfoldable pub dedupe_trimmed : List Text → List Text
unfolding dedupe keep trim_space
dedupe_trimmed items = dedupe (keep (λ t. not (is_empty t)) (map trim_space items))

unfoldable pub contains_any : Text → List Text → Bool
unfolding any trim_space contains to_lower
contains_any text = any (λ k. not (is_empty (trim_space k)) && contains text (to_lower k))

-- The warning of a constraint that the text violates.
unfoldable pub constraint_warning : Text → Constraint → Option Text
unfolding text_eq contains_any
constraint_warning lower c =
    if text_eq c.kind (lit "required")
    then if is_empty c.keywords || contains_any lower c.keywords
      then none
      else some (lit "missing_required_constraint:" ++ take 60 c.text)
    else if text_eq c.kind (lit "prohibited") && contains_any lower c.keywords
    then some (lit "prohibited_constraint_mentioned:" ++ take 60 c.text)
    else none

abbrev pub contradiction_phrases : List Text
contradiction_phrases =
    lit "ignore previous"
    ∷ lit "disregard constraints"
    ∷ lit "cannot comply with policy"
    ∷ lit "skip compliance"
    ∷ lit "disable security"
    ∷ []

unfoldable pub phrase_warning : Text → Text → Option Text
unfolding contains
phrase_warning lower phrase =
    if contains lower phrase then some (lit "explicit_contradiction:" ++ phrase) else none

unfoldable pub risk_warning : Text → RiskSignal → Option Text
unfolding text_eq contains
risk_warning lower r =
    if text_eq r.severity (lit "high") && contains lower (lit "ignore " ++ r.trigger)
    then some (lit "risk_signal_ignored:" ++ r.trigger)
    else none

-- A loop that counts and collects the warnings of a list.
unfoldable pub collect : {A : Type 0} → (A → Option Text) → List A → List Text
collect f [] = []
collect f (a ∷ rest_of) =
    let rest = collect f rest_of in elim (f a) [ none ↦ rest | some w ↦ w ∷ rest ]

unfoldable pub all_warnings : Text → OverlayArtifact → List Text
unfolding collect constraint_warning phrase_warning risk_warning
all_warnings lower artifact =
    collect (constraint_warning lower) artifact.constraint_set
    ++ (collect (phrase_warning lower) contradiction_phrases
        ++ collect (risk_warning lower) artifact.risk_lens)

module _ (fl : Float64) where
  open fl use {F, lt, milli, of_int, sub, mul}

  unfoldable pub compliance_of : Text → OverlayArtifact → ComplianceResult F
  unfolding all_warnings to_lower dedupe_trimmed
  compliance_of text artifact =
      let warnings = all_warnings (to_lower text) artifact in
      let score = sub (milli 1000) (mul (of_int (length warnings)) (milli 200)) in
      record {
        checked = true;
        violation_count = length warnings;
        warnings = dedupe_trimmed warnings;
        score = if lt score (milli 0) then milli 0 else score;
      }

  -- CheckCompliance; none for the error that a token of the tests forces.
  unfoldable pub check_compliance :
      Config → ChatCompletionResponse → OverlayArtifact → Option (ComplianceResult F)
  unfolding contains to_lower compliance_of
  check_compliance cfg resp artifact =
      let text = first_content resp in
      if not cfg.strict_checks
      then some (record { checked = false; violation_count = 0; warnings = []; score = milli 1000 })
      else if contains (to_lower text) (lit "glm_internal_force_symbolic_compliance_error")
      then none
      else some (compliance_of text artifact)
