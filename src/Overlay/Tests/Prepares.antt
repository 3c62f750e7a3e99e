-- ===== src/Overlay/Tests/Prepares.antt =====
-- The preparation of a request at concrete inputs.
use g_lm.Prelude.{◌≡◌, refl, true, some, [], ◌∷◌, ℕ}
use g_lm.Prelude.Int.{pos}
use g_lm.Prelude.Texts.{Text, lit}
use g_lm.Prelude.Results.{ok}
use g_lm.Model.Chat.{Json, ChatCompletionRequest}
use g_lm.Model.Session.{CognitiveState}
use g_lm.Model.Samples.{blank_request, blank_session}
use g_lm.Overlay.Artifact.{OverlayArtifact}
use g_lm.Overlay.Prepare.{prepare, OverlayResult}
use g_lm.Overlay.Prepared.{with_overlay, prepare_twice}
use g_lm.Overlay.Applied.{IsPrepared, prepare-IsPrepared}
use g_lm.Overlay.Tests.{config, asked}

abbrev question : ChatCompletionRequest ℕ
question = record blank_request {
  symbolic_overlay = some asked;
  messages =
      record {
        role = lit "user";
        content = lit "Deploy the gateway";
        name = [];
        tool_call_id = [];
        tool_calls = [];
      }
      ∷ [];
}

abbrev session : CognitiveState ℕ
session = record blank_session { topic = lit "rollback" }

abbrev printed : Json → Text
printed j = lit "{}"

abbrev expected : OverlayArtifact
expected = record {
  schema_version = lit "v3";
  profile = lit "fusion_prep";
  max_overlay_hops = pos 6;
  mode = lit "strict";
  types = lit "risk_lens" ∷ lit "logic_map" ∷ [];
  logic_map = record { entities = lit "deploy" ∷ lit "gateway" ∷ lit "rollback" ∷ []; links = [] };
  constraint_set = [];
  risk_lens =
      record { trigger = lit "rollback"; severity = lit "high"; evidence = lit "rollback" } ∷ [];
}

abbrev result : OverlayResult
result = record {
  applied = true;
  mode = lit "strict";
  schema_version = lit "v3";
  profile = lit "fusion_prep";
  types = lit "risk_lens" ∷ lit "logic_map" ∷ [];
  symbol_count = 4;
  artifact = some expected;
  flags = [];
}

prepare_test :
    prepare printed config question session ≡ ok (with_overlay printed question expected, result)
unfolding prepare
prepare_test = refl

prepare-IsPrepared_example :
    IsPrepared printed config session question (with_overlay printed question expected) result
prepare-IsPrepared_example =
    prepare-IsPrepared printed config session question (with_overlay printed question expected)
      result prepare_test

prepare_twice_example :
    prepare printed config (with_overlay printed question expected) session
    ≡ ok (with_overlay printed question expected, result)
prepare_twice_example =
    prepare_twice printed config session question (with_overlay printed question expected) result
      prepare_test
