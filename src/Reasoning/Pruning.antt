-- ===== src/Reasoning/Pruning.antt =====
-- internal/reasoning/executor.go: the pruning of the branches, and of the candidates of a search.
use g_lm.Prelude.{
  ℕ, zero, suc, ◌+◌, ◌-◌, Bool, not, ◌&&◌, ◌||◌, Option, none, some, List, [], ◌∷◌, keep, length,
  take, ltb, ◌==◌, if◌then◌else◌,
}
use g_lm.Prelude.Int.{ℤ, pos, pos_part, ltb_ℤ}
use g_lm.Prelude.Texts.{Text, lit, text_eq}
use g_lm.Prelude.Sorting.{sort_slice}
use g_lm.Prelude.Floats.{Float64}
use g_lm.Reasoning.Config.{Config}
use g_lm.Reasoning.Records.{BranchResult, PruneStats, PruningTrace}

abbrev pub no_stats : PruneStats
no_stats = record {
  candidates_in = 0;
  candidates_out = 0;
  dropped_low_score = 0;
  dropped_top_k = 0;
}

unfoldable pub merge : PruneStats → PruneStats → PruneStats
merge p other = record {
  candidates_in = p.candidates_in + other.candidates_in;
  candidates_out = other.candidates_out;
  dropped_low_score = p.dropped_low_score + other.dropped_low_score;
  dropped_top_k = p.dropped_top_k + other.dropped_top_k;
}

-- topK, where 0 and below set no limit
unfoldable pub top : {A : Type 0} → ℤ → List A → List A
top top_k xs =
    if ltb_ℤ (pos 0) top_k && ltb (pos_part top_k) (length xs) then take (pos_part top_k) xs else xs

-- The element at an index, if there is one.
unfoldable pub nth : {A : Type 0} → ℕ → List A → Option A
nth n [] = none
nth zero (x ∷ xs) = some x
nth (suc n) (x ∷ xs) = nth n xs

module _ (fl : Float64) where
  open fl use {F, lt, eq, milli}

  -- The order of pruneStableSort.
  unfoldable pub prune_before : Text → BranchResult F → BranchResult F → Bool
  unfolding text_eq
  prune_before mode a b =
      if eq a.evaluation_score b.evaluation_score
      then if (text_eq mode (lit "mcts") || text_eq mode (lit "multi_agent"))
          && not (length a.output == length b.output)
        then ltb (length b.output) (length a.output)
        else ltb a.index b.index
      else lt b.evaluation_score a.evaluation_score

  unfoldable pub prune_stable_sort : Text → List (BranchResult F) → List (BranchResult F)
  unfolding prune_before sort_slice
  prune_stable_sort mode = sort_slice (prune_before mode)

  abbrev pub scores_enough : F → BranchResult F → Bool
  scores_enough min_score b = not (lt b.evaluation_score min_score)

  unfoldable pub prune_branches :
      Text → List (BranchResult F) → F → ℤ → List (BranchResult F) × PruneStats
  unfolding keep prune_stable_sort top
  prune_branches mode branches min_score top_k =
      let kept = keep (scores_enough min_score) branches in
      let sorted = prune_stable_sort mode kept in
      let out = top top_k sorted in
      (
        out,
        record {
          candidates_in = length branches;
          candidates_out = length out;
          dropped_low_score = length branches - length kept;
          dropped_top_k = length sorted - length out;
        },
      )

  unfoldable pub prune_tot_accumulated :
      Config F → List (BranchResult F) → List (BranchResult F) × PruneStats
  unfolding prune_branches
  prune_tot_accumulated cfg branches =
      prune_branches (lit "tot") branches cfg.pruning_min_score cfg.pruning_tot_top_k

  abbrev pub pruning_trace :
      Text → Config F → ℤ → PruneStats → List (BranchResult F) → PruningTrace F
  pruning_trace mode cfg top_k stats out = record {
    mode = mode;
    enabled = cfg.pruning_enabled;
    min_score = cfg.pruning_min_score;
    top_k = top_k;
    candidates_in = stats.candidates_in;
    candidates_out = length out;
    dropped_low_score = stats.dropped_low_score;
    dropped_top_k = stats.dropped_top_k;
  }

  module _ {A : Type 0} (output : A → Text) (score : A → F) where
    -- The candidates as branches with the numbers from `i` on.
    unfoldable pub number_from : ℕ → List A → List (BranchResult F)
    number_from i [] = []
    number_from i (c ∷ cs) =
        record {
          index = i;
          model = [];
          output = output c;
          evaluation_score = score c;
          evaluation_reason = [];
          warnings = [];
        }
        ∷ number_from (i + 1) cs

    -- The candidates of the branches that are kept.
    unfoldable pub at_branches : List A → List (BranchResult F) → List A
    unfolding nth
    at_branches cs [] = []
    at_branches cs (b ∷ bs) =
        let rest = at_branches cs bs in
        elim (nth (b.index - 1) cs) [ none ↦ rest | some c ↦ c ∷ rest ]

    -- pruneMCTSCandidates and pruneMultiAgentCandidates
    unfoldable pub prune_candidates : Text → Config F → List A → ℤ → List A × PruneStats
    unfolding number_from at_branches prune_branches
    prune_candidates mode cfg cs top_k =
        let pruned = prune_branches mode (number_from 1 cs) cfg.pruning_min_score top_k in
        let out = at_branches cs pruned.0 in
        if cfg.pruning_enabled
        then (out, record (pruned.1) { candidates_out = length out })
        else (cs, record no_stats { candidates_in = length cs; candidates_out = length cs })

    -- The order in which the modes sort their candidates: by score, and then the longest output first.
    unfoldable pub sort_candidates : List A → List A
    unfolding sort_slice
    sort_candidates = sort_slice (λ a b.
        if eq (score a) (score b)
        then ltb (length (output b)) (length (output a))
        else lt (score b) (score a))
