-- ===== src/Reasoning/Contradictions.antt =====
-- internal/reasoning/executor.go: contradictions between the outputs of branches.
use g_lm.Prelude.{
  ℕ, Bool, true, not, ◌&&◌, ◌||◌, List, [], ◌∷◌, ◌++◌, map, any, keep, length, leb, ◌==◌,
  if◌then◌else◌,
}
use g_lm.Prelude.Texts.{Text, lit, text_eq, is_empty, to_lower, trim_space, contains}
use g_lm.Prelude.Tokens.{fields_func}
use g_lm.Prelude.Results.{decimal}
use g_lm.Prelude.Floats.{Float64}
use g_lm.Metareasoning.Signals.{ContradictionReport}
use g_lm.Metareasoning.Patterns.{dedupe}
use g_lm.Reasoning.Records.{BranchResult, no_contradictions}

abbrev pub is_delimiter : ℕ → Bool
unfolding any
is_delimiter c = any (λ d. c == d) (lit " \n\t,.:;()\"'")

-- The set of the tokens, as a list without repetition.
unfoldable pub tokenize : Text → List Text
unfolding fields_func keep trim_space dedupe
tokenize s = dedupe (keep (λ t. leb 4 (length t)) (map trim_space (fields_func is_delimiter s)))

abbrev pub negates : Text → Bool
unfolding contains
negates s =
    contains s (lit "cannot") || contains s (lit "not possible") || contains s (lit "should not")

abbrev pub same : Bool → Bool → Bool
same a b = if a then b else not b

unfoldable pub common : List Text → List Text → ℕ
unfolding keep any text_eq
common ta tb = length (keep (λ t. any (text_eq t) tb) ta)

module _ (fl : Float64) where
  open fl use {F, lt, milli, of_int, div, max}

  unfoldable pub lexical_overlap : Text → Text → F
  unfolding tokenize common
  lexical_overlap a b =
      let ta = tokenize a in
      let tb = tokenize b in
      if is_empty ta || is_empty tb
      then milli 0
      else div (of_int (common ta tb)) (max (of_int (length ta)) (of_int (length tb)))

  unfoldable pub looks_contradictory : Text → Text → Bool
  unfolding trim_space to_lower negates lexical_overlap
  looks_contradictory a b =
      let la = to_lower a in
      let lb = to_lower b in
      not (is_empty (trim_space a) || is_empty (trim_space b))
      && not (same (negates la) (negates lb))
      && lt (milli 350) (lexical_overlap la lb)

  -- The pairs of a branch with those after it.
  unfoldable pub pairs_with : BranchResult F → List (BranchResult F) → List Text
  unfolding looks_contradictory decimal
  pairs_with b [] = []
  pairs_with b (c ∷ cs) =
      let rest = pairs_with b cs in
      if looks_contradictory b.output c.output
      then (decimal b.index ++ (b':' ∷ decimal c.index)) ∷ rest
      else rest

  unfoldable pub all_pairs : List (BranchResult F) → List Text
  unfolding pairs_with
  all_pairs [] = []
  all_pairs (b ∷ bs) = pairs_with b bs ++ all_pairs bs

  unfoldable pub detect_contradictions : List (BranchResult F) → ContradictionReport
  unfolding all_pairs
  detect_contradictions branches =
      let pairs = all_pairs branches in
      if is_empty pairs then no_contradictions else record {
        detected = true;
        pairs = pairs;
        summary = lit "potential contradictions found across branch conclusions";
      }
