-- ===== src/Reasoning/Calls/Weights.antt =====
-- internal/reasoning/executor.go: a sum over the candidates, through their pruning.
use g_lm.Prelude.{
  ℕ, suc, ◌+◌, ◌-◌, ◌≡◌, ◌≤◌, ◌∙◌, refl, ap, inl, inr, none, some, List, [], ◌∷◌, keep, arith,
  Bool-cases,
}
use g_lm.Prelude.Int.{ℤ, pos_part}
use g_lm.Prelude.Texts.{Text}
use g_lm.Prelude.Sums.{sum_of, sum_of-keep, sum_of-take, sum_of-sort_slice}
use g_lm.Prelude.Floats.{Float64}
use g_lm.Reasoning.Config.{Config}
use g_lm.Reasoning.Records.{BranchResult}
use g_lm.Reasoning.Pruning.{
  top, nth, prune_before, prune_stable_sort, scores_enough, prune_branches, number_from,
  at_branches, prune_candidates, sort_candidates,
}

sum_of-top : {A : Type 0} → (f : A → ℕ) (k : ℤ) (xs : List A) → sum_of f (top k xs) ≤ sum_of f xs
unfolding top
sum_of-top f k xs = ground (arith, sum_of-take f (pos_part k) xs)

module _ (fl : Float64) where
  open fl use {F}

  sum_of-prune_branches :
      (f : BranchResult F → ℕ) (mode : Text) (bs : List (BranchResult F)) (least : F) (k : ℤ)
      → sum_of f (prune_branches fl mode bs least k).0 ≤ sum_of f bs
  unfolding prune_branches prune_stable_sort
  sum_of-prune_branches f mode bs least k =
      let kept = keep (scores_enough fl least) bs in
      omega (
        arith,
        sum_of-top f k (prune_stable_sort fl mode kept),
        sum_of-sort_slice f (prune_before fl mode) kept,
        sum_of-keep f (scores_enough fl least) bs,
      )

  module _ {A : Type 0} (f : A → ℕ) (output : A → Text) (score : A → F) where
    -- The weight of the candidate of a branch, or 0 without one.
    abbrev weight_at : List A → BranchResult F → ℕ
    weight_at cs b = elim (nth (b.index - 1) cs) [ none ↦ 0 | some c ↦ f c ]

    sum_of-at_branches :
        (cs : List A) (bs : List (BranchResult F))
        → sum_of f (at_branches fl output score cs bs) ≡ sum_of (weight_at cs) bs
    unfolding at_branches
    sum_of-at_branches cs [] = refl
    sum_of-at_branches cs (b ∷ bs) = ground (arith, sum_of-at_branches cs bs)

    sum_of-number_from :
        (i : ℕ) (whole cs : List A)
        → 1 ≤ i
        → ((n : ℕ) → nth ((i - 1) + n) whole ≡ nth n cs)
        → sum_of (weight_at whole) (number_from fl output score i cs) ≡ sum_of f cs
    unfolding number_from nth
    sum_of-number_from i whole [] one h = refl
    sum_of-number_from i whole (c ∷ cs) one h =
        let here : nth (i - 1) whole ≡ some c = ap (λ k. nth k whole) (omega arith) ∙ h 0 in
        let rest =
          sum_of-number_from (i + 1) whole cs (omega arith)
            (λ n. ap (λ k. nth k whole) (omega (arith, one)) ∙ h (suc n)) in
        ground (arith, here, rest)

    pub sum_of-prune_candidates :
        (mode : Text) (cfg : Config F) (cs : List A) (k : ℤ)
        → sum_of f (prune_candidates fl output score mode cfg cs k).0 ≤ sum_of f cs
    unfolding prune_candidates
    sum_of-prune_candidates mode cfg cs k =
        let bs = number_from fl output score 1 cs in
        let pruned = (prune_branches fl mode bs cfg.pruning_min_score k).0 in
        let kept = sum_of-at_branches cs pruned in
        let fewer = sum_of-prune_branches (weight_at cs) mode bs cfg.pruning_min_score k in
        let all =
          sum_of-number_from 1 cs cs (omega arith) (λ n. ap (λ j. nth j cs) (omega arith)) in
        elim (Bool-cases cfg.pruning_enabled) [
          | inl e ↦ rw (e, prune_candidates) (omega (arith, kept, fewer, all))
          | inr e ↦ rw (e, prune_candidates) (omega arith)
        ]

    pub sum_of-sort_candidates :
        (cs : List A) → sum_of f (sort_candidates fl output score cs) ≡ sum_of f cs
    unfolding sort_candidates
    sum_of-sort_candidates cs = sum_of-sort_slice f _ cs
