-- ===== src/Metareasoning/Chain.antt =====
-- internal/metareasoning/chain.go: a chain of evaluators, each over the result of the one before.
use g_lm.Prelude.{
  ℕ, Bool, true, false, ◌&&◌, ◌||◌, Option, none, some, List, [], ◌∷◌, ◌++◌, ltb, length, take,
  if◌then◌else◌,
}
use g_lm.Prelude.Int.{ℤ, pos, negsuc, leb_ℤ}
use g_lm.Prelude.Texts.{
  Text, lit, text_eq, equal_fold, is_empty, to_lower, trim_space, contains, fields,
}
use g_lm.Prelude.Floats.{Float64, clamp01}
use g_lm.Model.Chat.{ChatCompletionRequest, ChatCompletionResponse}
use g_lm.Model.Session.{CognitiveState}
use g_lm.Metareasoning.Patterns.{matches_citation, dedupe}
use g_lm.Metareasoning.{Evaluator, Result, decide, evaluate}
use g_lm.Metareasoning.Signals.{Trace, first_content}

pub record ChainNode (F : Type 0) : Type 0 where
  pub name : Text
  pub decision : Text
  pub confidence : F
  pub risk_score : F

pub record ChainResult (F : Type 0) : Type 0 where
  pub enabled : Bool
  pub chain : List Text
  pub depth : ℕ
  pub stop_reason : Text
  pub nodes : List (ChainNode F)
  pub final : Result F

-- The lenses by name; all other names mean the lens of risk.
unfoldable pub normalize_evaluator_name : Text → Text
unfolding to_lower trim_space text_eq
normalize_evaluator_name v =
    let s = to_lower (trim_space v) in
    if text_eq s (lit "consistency")
      || text_eq s (lit "risk")
      || text_eq s (lit "policy")
      || text_eq s (lit "factuality")
      || text_eq s (lit "style")
    then s
    else lit "risk"

-- maxDepth, cut down to the length of the chain
unfoldable pub depth_limit : ℤ → ℕ → ℕ
depth_limit (pos n) size = if ltb size n then size else n
depth_limit (negsuc n) size = 0

module _ (fl : Float64) where
  open fl use {F, lt, le, milli, add, sub, abs, round3}

  abbrev pub wants_short : ChatCompletionRequest F → Bool
  unfolding text_eq
  wants_short req = elim req.response_style [
    | none ↦ false
    | some r ↦ text_eq r.verbosity_target (lit "short")
  ]

  -- What a lens finds in the output: the risk that it adds, and its flag.
  unfoldable pub lens_signal : Text → Text → ChatCompletionRequest F → Option (F × Text)
  unfolding text_eq contains matches_citation fields
  lens_signal name content req =
      if text_eq name (lit "consistency")
      then if contains content (lit "however") && contains content (lit "always")
        then some (milli 50, lit "consistency_conflict")
        else none
      else if text_eq name (lit "risk")
      then if contains content (lit "unknown") || contains content (lit "unverified")
        then some (milli 50, lit "risk_uncertainty")
        else none
      else if text_eq name (lit "policy")
      then if contains content (lit "ignore policy") || contains content (lit "bypass guardrail")
        then some (milli 250, lit "policy_violation_signal")
        else none
      else if text_eq name (lit "factuality")
      then if matches_citation content
        then some (milli 80, lit "factuality_citation_signal")
        else none
      else if text_eq name (lit "style")
      then if wants_short req && ltb 220 (length (fields content))
        then some (milli 50, lit "style_verbosity_mismatch")
        else none
      else none

  unfoldable pub apply_evaluator_lens :
      Text → Result F → ChatCompletionRequest F → ChatCompletionResponse → Result F
  unfolding lens_signal decide dedupe to_lower trim_space
  apply_evaluator_lens name base req resp =
      let content = to_lower (trim_space (first_content resp)) in
      let found = lens_signal name content req in
      let added : F = elim found [
        | none ↦ base.risk_score
        | some (w, flag) ↦ add base.risk_score w
      ] in
      let flags : List Text = elim found [
        | none ↦ base.flags
        | some (w, flag) ↦ base.flags ++ flag ∷ []
      ] in
      let risk = clamp01 fl added in
      let risk_score = round3 risk in
      let confidence = round3 (clamp01 fl (sub (milli 1000) risk)) in
      record base {
        risk_score = risk_score;
        confidence = confidence;
        decision = decide fl base.profile confidence risk_score (milli 720) (milli 820);
        flags = dedupe flags;
      }

  abbrev pub node_of : Text → Result F → ChainNode F
  node_of name r = record {
    name = name;
    decision = r.decision;
    confidence = r.confidence;
    risk_score = r.risk_score;
  }

  -- Neither figure moved by a hundredth.
  unfoldable pub unchanged : ChainNode F → ChainNode F → Bool
  unchanged prev node =
      lt (abs (sub prev.risk_score node.risk_score)) (milli 10)
      && lt (abs (sub prev.confidence node.confidence)) (milli 10)

  -- The tests at the end of the loop's body, in their order.
  unfoldable pub stop_at : Option (ChainNode F) → ChainNode F → Option Text
  unfolding text_eq equal_fold unchanged
  stop_at prev node =
      if text_eq node.name (lit "policy") && equal_fold node.decision (lit "reject")
      then some (lit "policy_reject")
      else if le node.risk_score (milli 300)
      then some (lit "risk_below_threshold")
      else elim prev [
        | none ↦ none
        | some p ↦ if unchanged p node then some (lit "no_improvement") else none
      ]

  -- What a run of the loop leaves: the nodes, the last result and the reason.
  pub record Run : Type 0 where
    pub nodes : List (ChainNode F)
    pub final : Result F
    pub stop_reason : Text

  module _ (req : ChatCompletionRequest F) (resp : ChatCompletionResponse) where
    -- The loop over the names within the limit, after the node `prev` and the result `final`.
    unfoldable pub run_chain : Option (ChainNode F) → Result F → List Text → Run
    unfolding normalize_evaluator_name apply_evaluator_lens stop_at
    run_chain prev final [] = record {
      nodes = [];
      final = final;
      stop_reason = lit "budget_exhausted";
    }
    run_chain prev final (v ∷ vs) =
        let name = normalize_evaluator_name v in
        let cur = apply_evaluator_lens name final req resp in
        let node = node_of name cur in
        let rest = run_chain (some node) cur vs in
        elim (stop_at prev node) [
          | none ↦ record rest { nodes = node ∷ rest.nodes }
          | some reason ↦ record { nodes = node ∷ []; final = cur; stop_reason = reason }
        ]

  unfoldable pub evaluate_chain :
      Evaluator F
      → ChatCompletionRequest F
      → ChatCompletionResponse
      → Option Trace
      → CognitiveState F
      → List Text
      → ℤ
      → ChainResult F
  unfolding evaluate run_chain depth_limit
  evaluate_chain e req resp trace st chain max_depth =
      let base = evaluate fl e req resp trace st in
      let limit = depth_limit max_depth (length chain) in
      let r = run_chain req resp none base (take limit chain) in
      if is_empty chain || leb_ℤ max_depth (pos 0)
      then record {
        enabled = false;
        chain = [];
        depth = 0;
        stop_reason = lit "disabled";
        nodes = [];
        final = base;
      }
      else record {
        enabled = true;
        chain = take limit chain;
        depth = length r.nodes;
        stop_reason = r.stop_reason;
        nodes = r.nodes;
        final = r.final;
      }
