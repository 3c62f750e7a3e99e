-- ===== src/Reasoning/Geometry.antt =====
-- internal/reasoning/geometry_fusion.go
use g_lm.Prelude.{
  ℕ, zero, suc, ◌+◌, ◌%◌, Bool, false, ◌||◌, Option, none, some, List, [], ◌∷◌, map, any, keep,
  length, if◌then◌else◌,
}
use g_lm.Prelude.Int.{ℤ, pos, pos_part, ltb_ℤ}
use g_lm.Prelude.Texts.{Text, lit, text_eq, is_empty, to_lower, trim_space}
use g_lm.Prelude.Floats.{Float64, clamp01, round_milli}
use g_lm.Model.Chat.{ReasoningOptions, ChatCompletionRequest}
use g_lm.Reasoning.Config.{Config, at_most, at_least, normalize_geometry_mode}
use g_lm.Reasoning.Records.{BranchResult, Trace}
use g_lm.Reasoning.Pruning.{nth}

-- A flag of the reasoning options.
abbrev pub asks : {F : Type 0} → (ReasoningOptions F → Bool) → Option (ReasoningOptions F) → Bool
asks flag none = false
asks flag (some o) = flag o

-- A number of the reasoning options, where it is positive, or the configured one.
abbrev pub asked_or : {F : Type 0} → ℤ → (ReasoningOptions F → ℤ) → Option (ReasoningOptions F) → ℤ
asked_or configured figure none = configured
asked_or configured figure (some o) = if ltb_ℤ (pos 0) (figure o) then figure o else configured

abbrev pub known_profiles : List Text
known_profiles =
    lit "risk_first" ∷ lit "cost_first" ∷ lit "safety_first" ∷ lit "performance_first" ∷ []

abbrev pub default_profiles : List Text
default_profiles = lit "risk_first" ∷ lit "safety_first" ∷ []

unfoldable pub worldview_profiles : {F : Type 0} → Option (ReasoningOptions F) → List Text
unfolding keep any text_eq to_lower trim_space
worldview_profiles none = default_profiles
worldview_profiles (some o) =
    let known =
      keep (λ p. any (text_eq p) known_profiles)
        (map (λ p. to_lower (trim_space p)) o.worldview_profiles) in
    if is_empty known then default_profiles else known

unfoldable pub geometry_path_for_mode : Text → List Text
unfolding text_eq
geometry_path_for_mode mode =
    if text_eq mode (lit "tree")
    then lit "root" ∷ lit "branch_a" ∷ lit "branch_b" ∷ lit "merge" ∷ []
    else if text_eq mode (lit "mesh")
    then lit "node_a" ∷ lit "node_b" ∷ lit "cross_link" ∷ lit "merge" ∷ []
    else if text_eq mode (lit "adversarial_pair")
    then lit "attacker" ∷ lit "defender" ∷ lit "adjudicator" ∷ []
    else if text_eq mode (lit "synthesis_first")
    then lit "draft_synthesis" ∷ lit "evidence_pass" ∷ lit "reconcile" ∷ lit "finalize" ∷ []
    else lit "input" ∷ lit "analyze" ∷ lit "synthesize" ∷ []

module _ {F : Type 0} where
  unfoldable pub geometry_mode_for : Config F → Option (ReasoningOptions F) → Text
  unfolding normalize_geometry_mode trim_space
  geometry_mode_for cfg none = normalize_geometry_mode cfg.geometry_mode
  geometry_mode_for cfg (some o) =
      if is_empty (trim_space o.geometry_mode)
      then normalize_geometry_mode cfg.geometry_mode
      else normalize_geometry_mode o.geometry_mode

  unfoldable pub worldview_stages : Config F → Option (ReasoningOptions F) → ℕ
  worldview_stages cfg o = pos_part (
      at_most (pos 5) (
        at_least (pos 1) (asked_or cfg.worldview_fusion_stages (λ o. o.worldview_fusion_stages) o)))

abbrev or_none : Option Text → Text
or_none none = []
or_none (some t) = t

module _ (fl : Float64) where
  open fl use {F, milli, of_int, add, sub, mul, div, neg}

  unfoldable pub profile_bias : Text → F
  unfolding text_eq
  profile_bias profile =
      if text_eq profile (lit "risk_first")
      then neg (milli 10)
      else if text_eq profile (lit "cost_first")
      then neg (milli 20)
      else if text_eq profile (lit "safety_first")
      then milli 10
      else if text_eq profile (lit "performance_first")
      then milli 20
      else milli 0

  unfoldable pub sum_scores : F → List (BranchResult F) → F
  sum_scores sum [] = sum
  sum_scores sum (b ∷ bs) = sum_scores (add sum b.evaluation_score) bs

  unfoldable pub avg_branch_score : List (BranchResult F) → F
  unfolding sum_scores
  avg_branch_score [] = milli 500
  avg_branch_score (b ∷ bs) = div (sum_scores (milli 0) (b ∷ bs)) (of_int (length (b ∷ bs)))

  -- The loop over the stages from `i` on, with so many left. The list of profiles is not empty.
  unfoldable pub stage_scores : F → List Text → ℕ → ℕ → List F
  unfolding profile_bias nth clamp01 round_milli
  stage_scores base profiles i zero = []
  stage_scores base profiles i (suc left) =
      let bias = profile_bias (or_none (nth (i % length profiles) profiles)) in
      round_milli fl (clamp01 fl (sub (add base bias) (mul (of_int i) (milli 10))))
      ∷ stage_scores base profiles (i + 1) left

  unfoldable pub with_geometry : Config F → Option (ReasoningOptions F) → Trace F → Trace F
  unfolding geometry_mode_for geometry_path_for_mode
  with_geometry cfg o trace =
      if cfg.shape_transform_enabled || asks (λ o. o.shape_transform_enabled) o
      then record trace {
        geometry_mode = geometry_mode_for cfg o;
        geometry_path = geometry_path_for_mode (geometry_mode_for cfg o);
      }
      else trace

  unfoldable pub with_fusion : Config F → Option (ReasoningOptions F) → Trace F → Trace F
  unfolding worldview_stages worldview_profiles avg_branch_score stage_scores
  with_fusion cfg o trace =
      let detected = trace.contradictions.detected in
      let penalty = if detected then milli 80 else milli 0 in
      let base = sub (avg_branch_score trace.branches) penalty in
      if cfg.worldview_fusion_enabled || asks (λ o. o.worldview_fusion_enabled) o
      then record trace {
        fusion_stage_scores = stage_scores base (worldview_profiles o) 0 (worldview_stages cfg o);
        fusion_conflict_map =
            if detected then trace.contradictions.pairs else trace.fusion_conflict_map;
      }
      else trace

  unfoldable pub apply_geometry_and_fusion : Config F → ChatCompletionRequest F → Trace F → Trace F
  unfolding with_geometry with_fusion
  apply_geometry_and_fusion cfg req trace =
      with_fusion cfg req.reasoning (with_geometry cfg req.reasoning trace)
