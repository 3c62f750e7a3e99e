-- ===== src/Overlay/Artifact.antt =====
-- internal/symbolicoverlay/types.go: the artifact of an overlay. The records ConstraintSet and RiskLens
-- have one field each, and are the lists that these hold.
use g_lm.Prelude.{List}
use g_lm.Prelude.Int.{ℤ}
use g_lm.Prelude.Texts.{Text}

pub record LogicLink : Type 0 where
  pub from : Text
  pub relation : Text
  pub to : Text

pub record LogicMap : Type 0 where
  pub entities : List Text
  pub links : List LogicLink

pub record Constraint : Type 0 where
  pub kind : Text
  pub text : Text
  pub keywords : List Text

pub record RiskSignal : Type 0 where
  pub trigger : Text
  pub severity : Text
  pub evidence : Text

pub record OverlayArtifact : Type 0 where
  pub schema_version : Text
  pub profile : Text
  pub max_overlay_hops : ℤ
  pub mode : Text
  pub types : List Text
  pub logic_map : LogicMap
  pub constraint_set : List Constraint
  pub risk_lens : List RiskSignal
