-- ===== src/Overlay/Options.antt =====
-- internal/symbolicoverlay/validate.go and the configuration of service.go.
use g_lm.Prelude.{Bool, false, not, ◌&&◌, Option, none, some, List, [], ◌∷◌, any, if◌then◌else◌}
use g_lm.Prelude.Int.{ℤ, pos, ltb_ℤ, leb_ℤ, ◌+ℤ◌}
use g_lm.Prelude.Texts.{Text, lit, text_eq, is_empty, to_lower, trim_space}
use g_lm.Prelude.Results.{Result, ok, err}
use g_lm.Model.Chat.{ChatCompletionRequest, SymbolicOverlayOptions}

pub record Config : Type 0 where
  pub enabled : Bool
  pub max_symbols : ℤ
  pub max_doc_chars : ℤ
  pub strict_checks : Bool
  pub supervision_enabled : Bool
  pub supervision_warn_threshold : ℤ
  pub supervision_reject_threshold : ℤ
  pub supervision_auto_revise : Bool
  pub supervision_max_passes : ℤ

abbrev pub positive_or_default : ℤ → ℤ → ℤ
positive_or_default n d = if leb_ℤ n (pos 0) then d else n

-- New
unfoldable pub complete_config : Config → Config
unfolding ◌+ℤ◌
complete_config c =
    let warn = positive_or_default c.supervision_warn_threshold (pos 1) in
    let reject = positive_or_default c.supervision_reject_threshold (pos 3) in
    let passes = c.supervision_max_passes in
    record c {
      max_symbols = positive_or_default c.max_symbols (pos 48);
      max_doc_chars = positive_or_default c.max_doc_chars (pos 12000);
      supervision_warn_threshold = warn;
      supervision_reject_threshold = if ltb_ℤ reject warn then warn +ℤ pos 1 else reject;
      supervision_max_passes =
          if ltb_ℤ passes (pos 0) then pos 0 else if ltb_ℤ (pos 1) passes then pos 1 else passes;
    }

pub data OptionError : Type 0 where
  bad_mode no_supported_type negative_symbols negative_hops bad_schema_version bad_profile :
      OptionError
  unsupported_type : Text → OptionError

pub record NormalizedOptions : Type 0 where
  pub enabled : Bool
  pub mode : Text
  pub schema_version : Text
  pub overlay_profile : Text
  pub max_overlay_hops : ℤ
  pub types : List Text
  pub max_symbols : ℤ
  pub include_state : Bool
  pub include_documents : Bool

abbrev pub disabled_options : NormalizedOptions
disabled_options = record {
  enabled = false;
  mode = [];
  schema_version = [];
  overlay_profile = [];
  max_overlay_hops = pos 0;
  types = [];
  max_symbols = pos 0;
  include_state = false;
  include_documents = false;
}

abbrev pub modes : List Text
modes = lit "off" ∷ lit "assist" ∷ lit "strict" ∷ []

abbrev pub supported_types : List Text
supported_types = lit "logic_map" ∷ lit "constraint_set" ∷ lit "risk_lens" ∷ []

abbrev pub overlay_profiles : List Text
overlay_profiles = lit "assist" ∷ lit "strict" ∷ lit "diagnostic" ∷ lit "fusion_prep" ∷ []

-- A name in lower case, or the default in the place of a blank one.
unfoldable pub name_or : Text → Text → Text
unfolding to_lower trim_space
name_or d s = if is_empty (to_lower (trim_space s)) then d else to_lower (trim_space s)

-- The loop over the types of a request, after those of `seen`.
unfoldable pub read_types : List Text → List Text → Result OptionError (List Text)
unfolding to_lower trim_space any text_eq
read_types seen [] = ok []
read_types seen (raw ∷ raws) =
    let t = to_lower (trim_space raw) in
    let rest = read_types seen raws in
    let next = read_types (t ∷ seen) raws in
    let kept : Result OptionError (List Text) = elim next [ ok ts ↦ ok (t ∷ ts) | err e ↦ err e ] in
    if is_empty t
    then rest
    else if not (any (text_eq t) supported_types)
    then err (unsupported_type t)
    else if any (text_eq t) seen
    then rest
    else kept

unfoldable pub normalize_types : List Text → Result OptionError (List Text)
unfolding read_types
normalize_types [] = ok supported_types
normalize_types (raw ∷ raws) = elim (read_types [] (raw ∷ raws)) [
  | err e ↦ err e
  | ok [] ↦ err no_supported_type
  | ok (t ∷ ts) ↦ ok (t ∷ ts)
]

unfoldable pub limit_hops : ℤ → ℤ
limit_hops hops = if leb_ℤ hops (pos 0) then pos 1 else if ltb_ℤ (pos 6) hops then pos 6 else hops

unfoldable pub limit_symbols : ℤ → ℤ → ℤ
limit_symbols configured asked =
    let wanted = if ltb_ℤ (pos 0) asked then asked else configured in
    let n = if leb_ℤ wanted (pos 0) then pos 48 else wanted in
    if ltb_ℤ configured n && ltb_ℤ (pos 0) configured then configured else n

-- The tests after the one of the types, in their order.
unfoldable pub checked_options :
    Config → SymbolicOverlayOptions → List Text → Result OptionError NormalizedOptions
unfolding name_or any text_eq limit_hops limit_symbols
checked_options cfg opt types =
    let mode = name_or (lit "assist") opt.mode in
    let profile = name_or (lit "assist") opt.overlay_profile in
    if ltb_ℤ opt.max_symbols (pos 0)
    then err negative_symbols
    else if ltb_ℤ opt.max_overlay_hops (pos 0)
    then err negative_hops
    else if not (text_eq (name_or (lit "v3") opt.schema_version) (lit "v3"))
    then err bad_schema_version
    else if not (any (text_eq profile) overlay_profiles)
    then err bad_profile
    else ok (record {
      enabled = not (text_eq mode (lit "off"));
      mode = mode;
      schema_version = name_or (lit "v3") opt.schema_version;
      overlay_profile = profile;
      max_overlay_hops = limit_hops opt.max_overlay_hops;
      types = types;
      max_symbols = limit_symbols cfg.max_symbols opt.max_symbols;
      include_state = opt.include_state;
      include_documents = opt.include_documents;
    })

unfoldable pub normalize_given :
    Config → SymbolicOverlayOptions → Result OptionError NormalizedOptions
unfolding name_or any text_eq normalize_types checked_options
normalize_given cfg opt =
    let checked : Result OptionError NormalizedOptions = elim (normalize_types opt.types) [
      | err e ↦ err e
      | ok types ↦ checked_options cfg opt types
    ] in
    if any (text_eq (name_or (lit "assist") opt.mode)) modes then checked else err bad_mode

unfoldable pub normalize_options :
    {F : Type 0} → ChatCompletionRequest F → Config → Result OptionError NormalizedOptions
unfolding normalize_given
normalize_options req cfg =
    if cfg.enabled
    then elim req.symbolic_overlay [
      | none ↦ ok disabled_options
      | some opt ↦ normalize_given cfg opt
    ]
    else ok disabled_options

unfoldable pub validate_request :
    {F : Type 0} → Config → ChatCompletionRequest F → Option OptionError
unfolding normalize_options
validate_request cfg req = elim (normalize_options req cfg) [ ok n ↦ none | err e ↦ some e ]
