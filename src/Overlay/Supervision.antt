-- ===== src/Overlay/Supervision.antt =====
-- internal/symbolicoverlay/service.go: Supervise.
use g_lm.Prelude.{
  ℕ, zero, suc, ◌+◌, Bool, true, false, not, ◌&&◌, ◌||◌, List, [], ◌∷◌, ◌++◌, if◌then◌else◌,
}
use g_lm.Prelude.Int.{pos, ltb_ℤ, leb_ℤ}
use g_lm.Prelude.Texts.{Text, lit, text_eq, to_lower, contains}
use g_lm.Prelude.Results.{decimal}
use g_lm.Prelude.Floats.{Float64}
use g_lm.Overlay.Options.{Config}
use g_lm.Overlay.Compliance.{ComplianceResult}

pub record SupervisionNode (F : Type 0) : Type 0 where
  pub node_id : Text
  pub node_type : Text
  pub severity : Text
  pub score : F
  pub decision : Text
  pub action : Text
  pub reason : Text
  pub source : Text
  pub violations : ℕ

pub record SupervisionResult (F : Type 0) : Type 0 where
  pub enabled : Bool
  pub applied : Bool
  pub decision : Text
  pub action : Text
  pub reason : Text
  pub passes : ℕ
  pub violation_count : ℕ
  pub compliance_score : F
  pub nodes : List (SupervisionNode F)

unfoldable pub supervision_severity : Text → Text
unfolding text_eq
supervision_severity decision =
    if text_eq decision (lit "reject")
    then lit "high"
    else if text_eq decision (lit "caution")
    then lit "medium"
    else lit "low"

unfoldable pub warning_severity : Text → Text
unfolding contains to_lower
warning_severity w =
    if contains (to_lower w) (lit "explicit_contradiction")
      || contains (to_lower w) (lit "disable security")
    then lit "high"
    else lit "medium"

-- Decision, action and reason.
pub record Verdict : Type 0 where
  pub decision : Text
  pub action : Text
  pub reason : Text

unfoldable pub verdict_of : Config → ℕ → Verdict
verdict_of cfg violations =
    if leb_ℤ cfg.supervision_reject_threshold (pos violations)
    then record {
      decision = lit "reject";
      action = lit "reject";
      reason = lit "reject_threshold_exceeded";
    }
    else if leb_ℤ cfg.supervision_warn_threshold (pos violations)
    then if cfg.supervision_auto_revise && ltb_ℤ (pos 0) cfg.supervision_max_passes
      then record {
        decision = lit "caution";
        action = lit "revise";
        reason = lit "warn_threshold_revise";
      }
      else record {
        decision = lit "caution";
        action = lit "warn";
        reason = lit "warn_threshold_exceeded";
      }
    else record { decision = lit "accept"; action = lit "none"; reason = lit "no_violations" }

module _ (fl : Float64) where
  open fl use {F, milli}

  -- The loop over the warnings from the number `i` on, with room for so many nodes.
  unfoldable pub warning_nodes : Verdict → ℕ → ℕ → List Text → List (SupervisionNode F)
  unfolding warning_severity decimal
  warning_nodes v room i [] = []
  warning_nodes v zero i (w ∷ ws) = []
  warning_nodes v (suc room) i (w ∷ ws) =
      record {
        node_id = lit "symbolic-warning-" ++ decimal (i + 1);
        node_type = lit "violation_warning";
        severity = warning_severity w;
        score = milli 0;
        decision = v.decision;
        action = v.action;
        reason = w;
        source = lit "compliance_warning";
        violations = 0;
      }
      ∷ warning_nodes v room (i + 1) ws

  abbrev pub unapplied : Bool → Text → Text → SupervisionResult F
  unapplied enabled decision reason = record {
    enabled = enabled;
    applied = false;
    decision = decision;
    action = lit "none";
    reason = reason;
    passes = 0;
    violation_count = 0;
    compliance_score = milli 0;
    nodes = [];
  }

  -- One node for the summary, and eleven for the warnings.
  unfoldable pub supervise : Config → ComplianceResult F → SupervisionResult F
  unfolding verdict_of warning_nodes supervision_severity
  supervise cfg comp =
      let v = verdict_of cfg comp.violation_count in
      if not cfg.supervision_enabled
      then unapplied false (lit "disabled") (lit "symbolic_supervision_disabled")
      else if not comp.checked
      then unapplied true (lit "skipped") (lit "compliance_not_checked")
      else record {
        enabled = true;
        applied = true;
        decision = v.decision;
        action = v.action;
        reason = v.reason;
        passes = 0;
        violation_count = comp.violation_count;
        compliance_score = comp.score;
        nodes =
            record {
              node_id = lit "symbolic-supervision-1";
              node_type = lit "compliance_summary";
              severity = supervision_severity v.decision;
              score = comp.score;
              decision = v.decision;
              action = v.action;
              reason = v.reason;
              source = lit "constraint_compliance";
              violations = comp.violation_count;
            }
            ∷ warning_nodes v 11 0 comp.warnings;
      }
