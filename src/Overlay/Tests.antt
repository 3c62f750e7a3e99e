-- ===== src/Overlay/Tests.antt =====
-- The symbolic overlay at concrete inputs.
mod Prepares
use g_lm.Overlay.Quotes.{constraint_warning-quoted}
use g_lm.Prelude.{inr, inl, none, some, List, ◌≡◌, ◌≤◌, refl, true, false, [], ◌∷◌, length, arith}
use g_lm.Prelude.Int.{pos}
use g_lm.Prelude.Texts.{Text, lit, to_lower, contains}
use g_lm.Prelude.Results.{ok, err}
use g_lm.Prelude.Floats.{thousandths}
use g_lm.Model.Chat.{SymbolicOverlayOptions}
use g_lm.Overlay.Options.{
  Config, NormalizedOptions, no_supported_type, complete_config, normalize_types, normalize_given,
}
use g_lm.Overlay.Accepted.{IsAccepted, normalize_given-IsAccepted}
use g_lm.Overlay.Artifact.{Constraint, OverlayArtifact}
use g_lm.Overlay.Extract.{
  constraint_of, extract_links, extract_constraint_set, extract_risk_lens, signal,
}
use g_lm.Overlay.Compliance.{ComplianceResult, constraint_warning, all_warnings}
use g_lm.Overlay.Supervision.{supervise}
use g_lm.Overlay.Verdicts.{IsVerdict, supervise-complete_config}

abbrev pub config : Config
config = record {
  enabled = true;
  max_symbols = pos 48;
  max_doc_chars = pos 0;
  strict_checks = true;
  supervision_enabled = true;
  supervision_warn_threshold = pos 4;
  supervision_reject_threshold = pos 2;
  supervision_auto_revise = true;
  supervision_max_passes = pos 9;
}

abbrev pub asked : SymbolicOverlayOptions
asked = record {
  mode = lit " Strict";
  schema_version = [];
  overlay_profile = lit "Fusion_prep";
  max_overlay_hops = pos 9;
  types = lit "risk_lens" ∷ lit " " ∷ lit "Risk_Lens " ∷ lit "logic_map" ∷ [];
  max_symbols = pos 90;
  include_state = true;
  include_documents = false;
}

abbrev normalized : NormalizedOptions
normalized = record {
  enabled = true;
  mode = lit "strict";
  schema_version = lit "v3";
  overlay_profile = lit "fusion_prep";
  max_overlay_hops = pos 6;
  types = lit "risk_lens" ∷ lit "logic_map" ∷ [];
  max_symbols = pos 48;
  include_state = true;
  include_documents = false;
}

normalize_given_test : normalize_given config asked ≡ ok normalized
unfolding normalize_given
normalize_given_test = refl

normalize_types_test : normalize_types (lit " " ∷ []) ≡ err no_supported_type
unfolding normalize_types
normalize_types_test = refl

normalize_given-IsAccepted_example : IsAccepted config normalized
normalize_given-IsAccepted_example =
    normalize_given-IsAccepted config asked normalized normalize_given_test

abbrev artifact : OverlayArtifact
artifact = record {
  schema_version = lit "v3";
  profile = lit "assist";
  max_overlay_hops = pos 1;
  mode = lit "assist";
  types = [];
  logic_map = record { entities = []; links = [] };
  constraint_set =
      record { kind = lit "required"; text = lit "name the owner"; keywords = lit "owner" ∷ [] }
      ∷ record { kind = lit "prohibited"; text = lit "no dates"; keywords = lit "date" ∷ [] }
      ∷ [];
  risk_lens = [];
}

all_warnings_test :
    all_warnings (lit "skip compliance by that date") artifact
    ≡ lit "missing_required_constraint:name the owner"
      ∷ lit "prohibited_constraint_mentioned:no dates"
      ∷ lit "explicit_contradiction:skip compliance"
      ∷ []
unfolding all_warnings
all_warnings_test = refl

abbrev checked : ComplianceResult thousandths.F
checked = record { checked = true; violation_count = 0; warnings = []; score = 1000 }

abbrev violated : ComplianceResult thousandths.F
violated = record {
  checked = true;
  violation_count = 5;
  warnings = lit "explicit_contradiction:skip compliance" ∷ [];
  score = 0;
}

supervise_test : (supervise thousandths (complete_config config) violated).decision ≡ lit "reject"
unfolding supervise complete_config
supervise_test = refl

supervise-complete_config_example :
    let full = complete_config config in
    IsVerdict full 5
      (supervise thousandths full violated).decision
      (supervise thousandths full violated).action
supervise-complete_config_example =
    (supervise-complete_config thousandths config violated violated refl refl refl (omega arith)).1

extract_links_test :
    extract_links (lit "Please deploy the gateway; then audit logs")
    ≡ record { from = lit "please"; relation = lit "deploy"; to = lit "gateway" }
      ∷ record { from = lit "then"; relation = lit "audit"; to = lit "logs" }
      ∷ []
unfolding extract_links
extract_links_test = refl

extract_constraint_set_test :
    extract_constraint_set (lit "You MUST name an owner. Never skip tests!\nok" ∷ []) 5 ≡ (
      record {
        kind = lit "prohibited";
        text = lit "never skip tests";
        keywords = lit "never" ∷ lit "skip" ∷ lit "tests" ∷ [];
      }
          ∷ record {
            kind = lit "required";
            text = lit "you must name an owner";
            keywords = lit "must" ∷ lit "name" ∷ lit "owner" ∷ [];
          }
          ∷ [],
      2,
      false,
    )
unfolding extract_constraint_set
extract_constraint_set_test = refl

extract_risk_lens_test :
    extract_risk_lens (lit "Rollback on FAILURE" ∷ lit "a failure" ∷ []) 1
    ≡ (signal (lit "failure") (lit "high") ∷ [], 1, true)
unfolding extract_risk_lens
extract_risk_lens_test = refl

abbrev sources : List Text
sources = lit "You MUST name an owner. Never skip tests!\nok" ∷ []

abbrev owner : Constraint
owner = record {
  kind = lit "required";
  text = lit "you must name an owner";
  keywords = lit "must" ∷ lit "name" ∷ lit "owner" ∷ [];
}

constraint_warning-quoted_example :
    constraint_warning (to_lower (lit "Yes: You must name an owner.")) owner ≡ none
unfolding extract_constraint_set to_lower contains
constraint_warning-quoted_example =
    (constraint_warning-quoted sources 5 owner (lit "Yes: You must name an owner.") (inr (inl refl))
        refl).0
      refl

-- The word that marks a prohibition is one of its keywords: each response with that word violates it.
prohibited_marker_test :
    constraint_warning
      (lit "you must rotate the keys")
      (constraint_of (lit "you must not log secrets"))
    ≡ some (lit "prohibited_constraint_mentioned:you must not log secrets")
unfolding constraint_warning constraint_of
prohibited_marker_test = refl
