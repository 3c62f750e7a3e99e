-- ===== src/Reasoning/Evaluation.antt =====
-- internal/reasoning/executor.go and mcts.go: the score of an output, and the anchors of the memory.
use g_lm.Prelude.{
  ℕ, ◌+◌, Bool, true, not, ◌&&◌, ◌||◌, Option, none, some, List, [], ◌∷◌, ◌++◌, map, any, keep,
  length, take, ltb, leb, ◌==◌, if◌then◌else◌,
}
use g_lm.Prelude.Int.{pos, pos_part, leb_ℤ}
use g_lm.Prelude.Texts.{Text, lit, text_eq, is_empty, to_lower, trim_space, contains, fields}
use g_lm.Prelude.Tokens.{fields_func}
use g_lm.Prelude.Floats.{Float64, clamp01, round_milli}
use g_lm.Model.Chat.{ReasoningOptions, ChatCompletionRequest}
use g_lm.Model.Session.{CognitiveState}
use g_lm.Metareasoning.Patterns.{dedupe, sort_strings}
use g_lm.Reasoning.Config.{Config}
use g_lm.Reasoning.Records.{MemoryAnchorTrace}

unfoldable pub normalize_anchor_set : List Text → List Text
unfolding to_lower trim_space keep dedupe sort_strings
normalize_anchor_set anchors =
    sort_strings
      (dedupe (keep (λ t. not (is_empty t)) (map (λ t. to_lower (trim_space t)) anchors)))

-- The bytes of the tokens of tokenizeNormalized.
abbrev pub is_token_byte : ℕ → Bool
is_token_byte c = (leb b'a' c && leb c b'z') || (leb b'0' c && leb c b'9') || c == b'_' || c == b'-'

-- A set is a list without repetition.
unfoldable pub tokenize_normalized : Text → List Text
unfolding fields_func to_lower trim_space keep dedupe
tokenize_normalized s = dedupe (
    keep (λ t. not (is_empty t))
      (map trim_space (fields_func (λ c. not (is_token_byte c)) (to_lower s))))

-- The warnings of an output.
unfoldable pub branch_warnings : Text → List Text
unfolding to_lower contains
branch_warnings output =
    let lower = to_lower output in
    (if contains lower (lit "i cannot") || contains lower (lit "unable")
      then lit "capability_limitation" ∷ []
      else [])
    ++ (if ltb (length output) 30 then lit "very_short_output" ∷ [] else [])

unfoldable pub estimate_tokens : Float64 → Text → ℕ
unfolding fields
estimate_tokens fl s =
    let n = length (fields s) in
    if ltb n 1 then 1 else fl.trunc (fl.mul (fl.of_int n) (fl.milli 1300)) + 8

pub record Evaluation (F : Type 0) : Type 0 where
  pub score : F
  pub reason : Text
  pub coverage : F
  pub bonus : F

pub record MemoryAnchorAccumulator (F : Type 0) : Type 0 where
  pub anchors_in : ℕ
  pub sum_coverage : F
  pub sum_bonus : F
  pub candidates : ℕ
  pub anchors_used : List Text

module _ (fl : Float64) where
  open fl use {F, lt, le, milli, of_int, add, sub, mul, div}

  unfoldable pub memory_anchor_coverage : List Text → Text → F
  unfolding normalize_anchor_set tokenize_normalized keep any text_eq round_milli
  memory_anchor_coverage anchors output =
      let wanted = normalize_anchor_set anchors in
      let toks = tokenize_normalized output in
      let matched = length (keep (λ a. any (text_eq a) toks) wanted) in
      if is_empty wanted || is_empty toks
      then milli 0
      else round_milli fl (div (of_int matched) (of_int (length wanted)))

  unfoldable pub resolve_memory_anchors : Config F → ChatCompletionRequest F → List Text
  unfolding normalize_anchor_set
  resolve_memory_anchors cfg req =
      let limit = cfg.memory_anchored_reasoning_max_anchors in
      if cfg.memory_anchored_reasoning_enabled
      then take (pos_part (if leb_ℤ limit (pos 0) then pos 3 else limit))
          (normalize_anchor_set req.memory_anchor_keys)
      else []

  unfoldable pub apply_self_eval_curve : Config F → F → F
  unfolding clamp01 round_milli
  apply_self_eval_curve cfg score =
      let weight =
        if le score cfg.self_eval_curve_low_max
        then cfg.self_eval_curve_low_weight
        else if le score cfg.self_eval_curve_mid_max
        then cfg.self_eval_curve_mid_weight
        else cfg.self_eval_curve_high_weight in
      round_milli fl (clamp01 fl (add (mul score weight) cfg.self_eval_curve_bias))

  -- The sum of the figures of legacySelfEvaluate, before it is kept between 0 and 1.
  unfoldable pub quality : Text → CognitiveState F → F
  unfolding fields to_lower contains text_eq
  quality output st =
      let words = length (fields output) in
      let lower = to_lower output in
      let base = milli 550 in
      let long = if ltb 40 words then add base (milli 150) else base in
      let longer = if ltb 120 words then add long (milli 80) else long in
      let weighed =
        if contains lower (lit "assumption") || contains lower (lit "tradeoff")
        then add longer (milli 80)
        else longer in
      let tested =
        if text_eq st.task_mode (lit "coding") && contains lower (lit "test")
        then add weighed (milli 80)
        else weighed in
      if contains lower (lit "not sure") then sub tested (milli 100) else tested

  unfoldable pub legacy_self_evaluate : Text → CognitiveState F → F × Text
  unfolding trim_space quality clamp01 round_milli
  legacy_self_evaluate output st =
      if is_empty (trim_space output)
      then (milli 200, lit "empty_output")
      else (round_milli fl (clamp01 fl (quality output st)), lit "heuristic_quality")

  unfoldable pub apply_mcts_state_penalty : F → CognitiveState F → F
  unfolding round_milli
  apply_mcts_state_penalty score st =
      let drift =
        add (add (milli 0) (mul st.topic_drift (milli 80))) (mul st.mood_shift (milli 60)) in
      let penalty = if is_empty st.micro_switches then drift else add drift (milli 40) in
      let left = sub score penalty in
      if lt left (milli 0)
      then milli 0
      else if lt (milli 1000) left
      then milli 1000
      else round_milli fl left

  -- The score that the memory's anchors raise, with their coverage and the bonus.
  unfoldable pub with_memory : Config F → List Text → Text → F → Text → Evaluation F
  unfolding memory_anchor_coverage round_milli
  with_memory cfg anchors output score reason =
      let coverage = memory_anchor_coverage anchors output in
      let bonus = mul cfg.memory_anchored_reasoning_score_bonus coverage in
      let raised = add score bonus in
      if cfg.memory_anchored_reasoning_enabled && not (is_empty anchors)
      then if le cfg.memory_anchored_reasoning_min_coverage coverage
        then record {
          score = round_milli fl (if lt (milli 1000) raised then milli 1000 else raised);
          reason = reason;
          coverage = coverage;
          bonus = bonus;
        }
        else record { score = score; reason = reason; coverage = coverage; bonus = milli 0 }
      else record { score = score; reason = reason; coverage = milli 0; bonus = milli 0 }

  abbrev pub self_evaluates : Option (ReasoningOptions F) → Bool
  self_evaluates none = true
  self_evaluates (some o) = o.self_evaluate

  -- evaluateOutputWithMemory
  unfoldable pub evaluate_output :
      Config F → ChatCompletionRequest F → Text → CognitiveState F → Bool → Evaluation F
  unfolding legacy_self_evaluate apply_self_eval_curve apply_mcts_state_penalty
      resolve_memory_anchors with_memory
  evaluate_output cfg req output st apply_state_penalty =
      let legacy = legacy_self_evaluate output st in
      let score =
        if cfg.self_eval_curve_enabled then apply_self_eval_curve cfg legacy.0 else legacy.0 in
      let reason =
        if cfg.self_eval_curve_enabled then lit "heuristic_quality_curve" else legacy.1 in
      let penalized = if apply_state_penalty then apply_mcts_state_penalty score st else score in
      if self_evaluates req.reasoning
      then with_memory cfg (resolve_memory_anchors cfg req) output penalized reason
      else record {
        score = milli 500;
        reason = lit "self_evaluate_disabled";
        coverage = milli 0;
        bonus = milli 0;
      }

  unfoldable pub new_accumulator : List Text → MemoryAnchorAccumulator F
  new_accumulator anchors = record {
    anchors_in = length anchors;
    sum_coverage = milli 0;
    sum_bonus = milli 0;
    candidates = 0;
    anchors_used = [];
  }

  -- Add
  unfoldable pub add_candidate :
      List Text → Evaluation F → MemoryAnchorAccumulator F → MemoryAnchorAccumulator F
  unfolding normalize_anchor_set dedupe
  add_candidate anchors ev m = record m {
    candidates = m.candidates + 1;
    sum_coverage = add m.sum_coverage ev.coverage;
    sum_bonus = add m.sum_bonus ev.bonus;
    anchors_used = dedupe (m.anchors_used ++ normalize_anchor_set anchors);
  }

  -- Trace
  unfoldable pub anchor_trace : Bool → Text → MemoryAnchorAccumulator F → MemoryAnchorTrace F
  unfolding round_milli
  anchor_trace enabled mode m = record {
    enabled = enabled;
    applied = enabled && ltb 0 m.anchors_in && ltb 0 m.candidates;
    mode = mode;
    anchors_in = m.anchors_in;
    anchors_used = length m.anchors_used;
    candidates_evaluated = m.candidates;
    coverage_avg =
        if ltb 0 m.candidates
        then round_milli fl (div m.sum_coverage (of_int m.candidates))
        else milli 0;
    bonus_avg =
        if ltb 0 m.candidates
        then round_milli fl (div m.sum_bonus (of_int m.candidates))
        else milli 0;
  }
