-- ===== src/Overlay/Prepare.antt =====
-- internal/symbolicoverlay/service.go: Prepare. `marshal` is json.Marshal.
use g_lm.Prelude.{ℕ, Bool, true, false, ◌&&◌, not, Option, none, some, List, [], any, if◌then◌else◌}
use g_lm.Prelude.Int.{pos_part}
use g_lm.Prelude.Texts.{Text, lit, is_empty, to_lower, trim_space, contains}
use g_lm.Prelude.Results.{Result, ok, err}
use g_lm.Model.Chat.{Json, Message, ChatCompletionRequest}
use g_lm.Model.Session.{CognitiveState}
use g_lm.Overlay.Options.{Config, OptionError, NormalizedOptions, normalize_options}
use g_lm.Overlay.Artifact.{OverlayArtifact}
use g_lm.Overlay.Build.{is_user, collect_sources, build_artifact}
use g_lm.Overlay.Inject.{inject_overlay}

unfoldable pub contains_user_token : List Message → Text → Bool
unfolding any contains to_lower trim_space is_user
contains_user_token messages token =
    let t = to_lower (trim_space token) in
    not (is_empty t) && any (λ m. is_user m && contains (to_lower m.content) t) messages

-- Result
pub record OverlayResult : Type 0 where
  pub applied : Bool
  pub mode : Text
  pub schema_version : Text
  pub profile : Text
  pub types : List Text
  pub symbol_count : ℕ
  pub artifact : Option OverlayArtifact
  pub flags : List Text

pub data PrepareError : Type 0 where
  forced : PrepareError
  invalid : OptionError → PrepareError

-- The result of an overlay that is off.
abbrev pub not_applied : Text → OverlayResult
not_applied mode = record {
  applied = false;
  mode = mode;
  schema_version = [];
  profile = [];
  types = [];
  symbol_count = 0;
  artifact = none;
  flags = [];
}

unfoldable pub result_of : NormalizedOptions → OverlayArtifact × List Text × ℕ → OverlayResult
result_of opt built = record {
  applied = true;
  mode = opt.mode;
  schema_version = opt.schema_version;
  profile = opt.overlay_profile;
  types = opt.types;
  symbol_count = built.2;
  artifact = some built.0;
  flags = built.1;
}

module _ {F : Type 0} (marshal : Json → Text) (cfg : Config) where
  -- With options that are normal.
  unfoldable pub prepare_with :
      NormalizedOptions
      → ChatCompletionRequest F
      → CognitiveState F
      → ChatCompletionRequest F × OverlayResult
  unfolding collect_sources build_artifact inject_overlay result_of
  prepare_with opt req st =
      let sources = collect_sources req st opt (pos_part cfg.max_doc_chars) in
      let built = build_artifact sources opt in
      if opt.enabled
      then (inject_overlay marshal req built.0, result_of opt built)
      else (req, not_applied opt.mode)

  unfoldable pub prepare :
      ChatCompletionRequest F
      → CognitiveState F
      → Result PrepareError (ChatCompletionRequest F × OverlayResult)
  unfolding contains_user_token normalize_options prepare_with
  prepare req st =
      if contains_user_token req.messages (lit "glm_internal_force_symbolic_prepare_error")
      then err forced
      else elim (normalize_options req cfg) [
        | err e ↦ err (invalid e)
        | ok opt ↦ ok (prepare_with opt req st)
      ]
