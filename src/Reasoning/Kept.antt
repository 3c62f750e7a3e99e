-- ===== src/Reasoning/Kept.antt =====
-- internal/reasoning/executor.go: what the pruning keeps.
use g_lm.Prelude.{
  ℕ, zero, suc, ◌+◌, ◌≡◌, ◌≤◌, refl, subst, sym, ap, false, not, List, [], ◌∷◌, keep, length,
  length-take-le, length-keep-le, Elem, Elem-keep, Elem-keep_of, Elem-take, arith,
}
use g_lm.Prelude.Int.{ℤ, pos, negsuc, pos_part}
use g_lm.Prelude.Texts.{Text}
use g_lm.Prelude.Sorting.{sort_slice, length-sort_slice, Elem-sort_slice, Elem-sort_slice_of}
use g_lm.Prelude.Floats.{Float64}
use g_lm.Reasoning.Records.{BranchResult}
use g_lm.Reasoning.Pruning.{top, prune_before, prune_stable_sort, scores_enough, prune_branches}

module _ {A : Type 0} where
  pub length-top-le : (k : ℤ) (xs : List A) → length (top k xs) ≤ length xs
  unfolding top
  length-top-le k xs = ground (arith, length-take-le (pos_part k) xs)

  pub length-top-limit : (n : ℕ) (xs : List A) → length (top (pos (suc n)) xs) ≤ suc n
  unfolding top
  length-top-limit n xs = ground (arith, length-take-le (suc n) xs)

  pub Elem-top : (k : ℤ) (a : A) (xs : List A) → Elem a (top k xs) → Elem a xs
  unfolding top
  Elem-top k a xs m = ground (arith, Elem-take (pos_part k) a xs)

  top-some : (k : ℤ) (a : A) (xs : List A) → Elem a xs → 1 ≤ length (top k xs)
  unfolding top
  top-some (pos (suc n)) a [] m = absurd m
  top-some (pos (suc n)) a (x ∷ xs) m = ground arith
  top-some (pos zero) a [] m = absurd m
  top-some (pos zero) a (x ∷ xs) m = ground arith
  top-some (negsuc n) a [] m = absurd m
  top-some (negsuc n) a (x ∷ xs) m = ground arith

module _ (fl : Float64) where
  open fl use {F, lt}

  -- A pruning keeps branches of its input alone, none with a score below the minimum, at most as many
  -- as a positive limit allows, and at least one if a score is not below the minimum. Its figures
  -- add up: each branch of the input is kept, or counted as dropped for its score or by the limit.
  pub prune_branches_lem :
      (mode : Text) (bs : List (BranchResult F)) (min_score : F) (k : ℤ)
      → let (out, stats) = prune_branches fl mode bs min_score k in
        ((b : BranchResult F) → Elem b out → Elem b bs × (lt b.evaluation_score min_score ≡ false))
        × ((n : ℕ) → k ≡ pos (suc n) → length out ≤ suc n)
        × ((b : BranchResult F)
            → Elem b bs
            → lt b.evaluation_score min_score ≡ false
            → 1 ≤ length out)
        × (stats.candidates_in ≡ length bs)
        × (stats.candidates_out ≡ length out)
        × (stats.candidates_out + stats.dropped_low_score + stats.dropped_top_k ≡ length bs)
  unfolding prune_branches prune_stable_sort
  prune_branches_lem mode bs min_score k =
      let less = prune_before fl mode in
      let kept = keep (scores_enough fl min_score) bs in
      let sorted = sort_slice less kept in
      (
        λ b m.
            let n = Elem-sort_slice less b kept (Elem-top k b sorted m) in
            let (here, e) = Elem-keep (scores_enough fl min_score) b bs n in (here, ground arith),
        λ n e. subst (λ j. length (top j sorted) ≤ suc n) (sym e) (length-top-limit n sorted),
        λ b m e. top-some k b sorted (
            Elem-sort_slice_of less b kept
              (Elem-keep_of (scores_enough fl min_score) b bs m (ap not e))),
        refl,
        refl,
        omega (
          arith,
          length-top-le k sorted,
          length-sort_slice less kept,
          length-keep-le (scores_enough fl min_score) bs,
        ),
      )
