-- ===== src/Metareasoning.antt =====
-- internal/metareasoning/evaluator.go: the evaluation of a response by its signs of risk, which are in
-- Signals.
pub mod Patterns
pub mod Signals
pub mod Chain
pub mod Chains
pub mod Decisions
pub mod Flags
mod Tests
use g_lm.Prelude.{
  ℕ, suc, Bool, true, false, ◌&&◌, ◌||◌, not, Option, none, some, List, [], ◌∷◌, ◌++◌, any, ltb,
  length, if◌then◌else◌,
}
use g_lm.Prelude.Texts.{
  Text, lit, text_eq, equal_fold, is_empty, to_lower, trim_space, contains, has_prefix, fields,
}
use g_lm.Prelude.Floats.{Float64, clamp01}
use g_lm.Model.Chat.{
  ReasoningOptions, ChatCompletionRequest, ChatCompletionResponse, Choice, Message,
}
use g_lm.Model.Session.{CognitiveState}
use Signals.{Trace, Score, first_content, hedging_ratio, raise_all, score_output, context_signals}
use Patterns.{matches_citation, matches_overassertive, sort_strings, dedupe}

pub record Config (F : Type 0) : Type 0 where
  pub enabled : Bool
  pub default_profile : Text
  pub strict_threshold : F
  pub accept_threshold : F

pub record Evaluator (F : Type 0) : Type 0 where
  pub cfg : Config F

pub record Result (F : Type 0) : Type 0 where
  pub enabled : Bool
  pub decision : Text
  pub confidence : F
  pub risk_score : F
  pub flags : List Text
  pub profile : Text

unfoldable pub known_profile : Text → Text
unfolding text_eq
known_profile p =
    if text_eq p (lit "fast") || text_eq p (lit "default") || text_eq p (lit "strict")
    then p
    else lit "default"

module _ (fl : Float64) where
  open fl use {F, lt, le, milli, of_int, add, sub, mul, div, max, round3}

  unfoldable pub new_evaluator : Config F → Evaluator F
  unfolding trim_space
  new_evaluator c = record {
    cfg = record c {
      default_profile =
          if is_empty (trim_space c.default_profile) then lit "default" else c.default_profile;
      accept_threshold =
          if le c.accept_threshold (milli 0) || le (milli 1000) c.accept_threshold
          then milli 720
          else c.accept_threshold;
      strict_threshold =
          if le c.strict_threshold (milli 0) || le (milli 1000) c.strict_threshold
          then milli 820
          else c.strict_threshold;
    };
  }

  unfoldable pub should_run : Evaluator F → ChatCompletionRequest F → Bool
  should_run e req =
      if not e.cfg.enabled
      then false
      else elim req.reasoning [ none ↦ false | some r ↦ r.meta_enabled ]

  -- The request's profile, or else the configured one.
  unfoldable pub wanted_profile : Evaluator F → ChatCompletionRequest F → Text
  unfolding trim_space to_lower
  wanted_profile e req =
      let base = to_lower (trim_space e.cfg.default_profile) in
      elim req.reasoning [
        | none ↦ base
        | some r ↦
            if is_empty (trim_space r.meta_profile)
            then base
            else to_lower (trim_space r.meta_profile)
      ]

  unfoldable pub resolve_profile : Evaluator F → ChatCompletionRequest F → Text
  unfolding wanted_profile known_profile
  resolve_profile e req = known_profile (wanted_profile e req)

  -- The tests at the end of decide, with the limits of the profile.
  unfoldable pub decide_with : F → F → F → F → F → F → Text
  decide_with accept risk_limit reject_risk reject_conf confidence risk =
      if le accept confidence && le risk risk_limit
      then lit "accept"
      else if le reject_risk risk || le confidence reject_conf
      then lit "reject"
      else lit "caution"

  unfoldable pub decide : Text → F → F → F → F → Text
  unfolding text_eq decide_with
  decide profile confidence risk accept strict =
      if text_eq profile (lit "fast")
      then decide_with accept (milli 420) (milli 740) (milli 300) confidence risk
      else if text_eq profile (lit "strict")
      then decide_with (max accept strict) (milli 280) (milli 600) (milli 420) confidence risk
      else decide_with accept (milli 350) (milli 680) (milli 360) confidence risk

  unfoldable pub evaluate :
      Evaluator F
      → ChatCompletionRequest F
      → ChatCompletionResponse
      → Option Trace
      → CognitiveState F
      → Result F
  unfolding resolve_profile hedging_ratio score_output raise_all context_signals decide sort_strings
      dedupe
  evaluate e req resp trace st =
      let content = first_content resp in
      let h = hedging_ratio fl content in
      let s =
        raise_all fl (context_signals fl req content h trace st) (score_output fl content h) in
      let risk = clamp01 fl s.risk in
      let confidence = clamp01 fl (sub (milli 1000) risk) in
      let profile = resolve_profile e req in
      record {
        enabled = true;
        decision = decide profile confidence risk e.cfg.accept_threshold e.cfg.strict_threshold;
        confidence = round3 confidence;
        risk_score = round3 risk;
        flags = dedupe (sort_strings s.flags);
        profile = profile;
      }
