-- ===== src/Overlay/Inject.antt =====
-- internal/symbolicoverlay/inject.go: the message of an artifact before a request's own. `marshal` is
-- json.Marshal, which prints each of these values.
use g_lm.Prelude.{Bool, ◌&&◌, List, [], ◌∷◌, ◌++◌, map, any, if◌then◌else◌}
use g_lm.Prelude.Texts.{Text, lit, text_eq, has_prefix}
use g_lm.Model.Chat.{Json, string, array, Message, ChatCompletionRequest}
use g_lm.Model.Json.{items, json_object, json_strings, unless_empty, unless_blank, system_message}
use g_lm.Overlay.Artifact.{LogicLink, LogicMap, Constraint, RiskSignal, OverlayArtifact}

abbrev pub overlay_prompt_prefix : Text
overlay_prompt_prefix = lit "Use this symbolic overlay for grounded, policy-consistent reasoning: "

unfoldable pub has_overlay_message : List Message → Bool
unfolding any text_eq has_prefix
has_overlay_message =
    any
      (λ (m : Message). text_eq m.role (lit "system") && has_prefix m.content overlay_prompt_prefix)

abbrev pub json_link : LogicLink → Json
json_link l = json_object (
    (lit "from", string l.from)
    ∷ (lit "relation", string l.relation)
    ∷ (lit "to", string l.to)
    ∷ [])

abbrev pub unless_none : Text → List Json → List (Text × Json)
unless_none key [] = []
unless_none key (j ∷ js) = (key, array (items (j ∷ js))) ∷ []

abbrev pub json_logic_map : LogicMap → List (Text × Json)
json_logic_map m =
    unless_empty (lit "entities") m.entities ++ unless_none (lit "links") (map json_link m.links)

abbrev pub json_constraint : Constraint → Json
json_constraint c = json_object (
    (lit "kind", string c.kind)
    ∷ (lit "text", string c.text)
    ∷ unless_empty (lit "keywords") c.keywords)

abbrev pub json_risk : RiskSignal → Json
json_risk r = json_object (
    (lit "trigger", string r.trigger)
    ∷ (lit "severity", string r.severity)
    ∷ unless_blank (lit "evidence") r.evidence)

-- A field that holds an object, if that has fields.
abbrev pub unless_void : Text → List (Text × Json) → List (Text × Json)
unless_void key [] = []
unless_void key (f ∷ fs) = (key, json_object (f ∷ fs)) ∷ []

-- encoding/json sorts the keys of the map.
unfoldable pub overlay_payload : OverlayArtifact → Json
overlay_payload a = json_object (
    unless_void (lit "constraint_set")
      (unless_none (lit "items") (map json_constraint a.constraint_set))
    ++ unless_void (lit "logic_map") (json_logic_map a.logic_map)
    ++ unless_void (lit "risk_lens") (unless_none (lit "signals") (map json_risk a.risk_lens))
    ++ (
      lit "symbolic_overlay",
      json_object ((lit "mode", string a.mode) ∷ (lit "types", json_strings a.types) ∷ []),
    )
      ∷ [])

module _ {F : Type 0} (marshal : Json → Text) where
  unfoldable pub inject_overlay :
      ChatCompletionRequest F → OverlayArtifact → ChatCompletionRequest F
  unfolding has_overlay_message overlay_payload
  inject_overlay req artifact = if has_overlay_message req.messages then req else record req {
    messages =
        system_message (overlay_prompt_prefix ++ marshal (overlay_payload artifact)) ∷ req.messages;
  }
