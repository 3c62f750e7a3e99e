-- ===== src/Overlay/Build.antt =====
-- internal/symbolicoverlay/extract.go: the artifact of a request (collectSources, buildArtifact).
use g_lm.Prelude.{
  ℕ, ◌-◌, Bool, ◌&&◌, ◌||◌, not, List, [], ◌∷◌, ◌++◌, map, keep, length, take, leb, if◌then◌else◌,
}
use g_lm.Prelude.Int.{pos_part}
use g_lm.Prelude.Texts.{Text, lit, text_eq, is_empty, trim_space, equal_fold, join}
use g_lm.Model.Chat.{Message, DocumentInput, ChatCompletionRequest}
use g_lm.Model.Session.{CognitiveState}
use g_lm.Overlay.Options.{NormalizedOptions}
use g_lm.Overlay.Artifact.{OverlayArtifact}
use g_lm.Overlay.Compliance.{dedupe_trimmed}
use g_lm.Overlay.Extract.{extract_logic_map, extract_constraint_set, extract_risk_lens}

unfoldable pub is_user : Message → Bool
unfolding equal_fold trim_space
is_user m = equal_fold (trim_space m.role) (lit "user")

unfoldable pub user_sources : List Message → List Text
unfolding keep trim_space is_user
user_sources messages =
    map (λ (m : Message). m.content)
      (keep (λ m. is_user m && not (is_empty (trim_space m.content))) messages)

-- The texts of the documents, with room for so many bytes.
unfoldable pub document_sources : ℕ → List DocumentInput → List Text
unfolding trim_space
document_sources room [] = []
document_sources room (d ∷ ds) =
    let text = take room (trim_space d.text) in
    let rest = document_sources room ds in
    let next = document_sources (room - length text) ds in
    if is_empty (trim_space d.text) || leb room 0
    then rest
    else (d.title ++ lit "\n" ++ text) ∷ next

module _ {F : Type 0} where
  unfoldable pub state_source : CognitiveState F → List Text
  unfolding join trim_space
  state_source st =
      let text =
        join (st.task_mode ∷ st.topic ∷ join st.topic_keywords (lit " ") ∷ st.sentiment ∷ [])
          (lit " ") in
      if is_empty (trim_space text) then [] else text ∷ []

  unfoldable pub collect_sources :
      ChatCompletionRequest F → CognitiveState F → NormalizedOptions → ℕ → List Text
  unfolding user_sources document_sources state_source
  collect_sources req st opt max_doc_chars =
      let documents =
        if opt.include_documents then document_sources max_doc_chars req.documents else [] in
      let state = if opt.include_state then state_source st else [] in
      user_sources req.messages ++ documents ++ state

-- The variables of the loop over the types.
pub record Building : Type 0 where
  pub artifact : OverlayArtifact
  pub flags : List Text
  pub remaining : ℕ

abbrev pub flag_if : Bool → Text → List Text → List Text
flag_if b flag flags = if b then flags ++ flag ∷ [] else flags

unfoldable pub add_type : List Text → Text → Building → Building
unfolding text_eq extract_logic_map extract_constraint_set extract_risk_lens
add_type sources t b =
    let logic = extract_logic_map sources b.remaining in
    let constraints = extract_constraint_set sources b.remaining in
    let risks = extract_risk_lens sources b.remaining in
    if text_eq t (lit "logic_map")
    then record {
      artifact = record (b.artifact) { logic_map = logic.0 };
      flags = flag_if logic.2 (lit "logic_map_truncated") b.flags;
      remaining = b.remaining - logic.1;
    }
    else if text_eq t (lit "constraint_set")
    then record {
      artifact = record (b.artifact) { constraint_set = constraints.0 };
      flags = flag_if constraints.2 (lit "constraint_set_truncated") b.flags;
      remaining = b.remaining - constraints.1;
    }
    else if text_eq t (lit "risk_lens")
    then record {
      artifact = record (b.artifact) { risk_lens = risks.0 };
      flags = flag_if risks.2 (lit "risk_lens_truncated") b.flags;
      remaining = b.remaining - risks.1;
    }
    else b

unfoldable pub add_types : List Text → List Text → Building → Building
unfolding add_type
add_types sources [] b = b
add_types sources (t ∷ ts) b =
    let rest = add_types sources ts (add_type sources t b) in
    if leb b.remaining 0
    then record b { flags = b.flags ++ lit "max_symbols_reached" ∷ [] }
    else rest

abbrev pub empty_artifact : NormalizedOptions → OverlayArtifact
empty_artifact opt = record {
  schema_version = opt.schema_version;
  profile = opt.overlay_profile;
  max_overlay_hops = opt.max_overlay_hops;
  mode = opt.mode;
  types = opt.types;
  logic_map = record { entities = []; links = [] };
  constraint_set = [];
  risk_lens = [];
}

-- The artifact of the sources, the flags, and the number of the symbols. What remains of a limit that is
-- not positive is 0 here: the loop ends at once, and no symbol is used.
unfoldable pub build_artifact : List Text → NormalizedOptions → OverlayArtifact × List Text × ℕ
unfolding add_types dedupe_trimmed
build_artifact sources opt =
    let max = pos_part opt.max_symbols in
    let b =
      add_types sources opt.types
        (record { artifact = empty_artifact opt; flags = []; remaining = max }) in
    (b.artifact, dedupe_trimmed b.flags, max - b.remaining)
