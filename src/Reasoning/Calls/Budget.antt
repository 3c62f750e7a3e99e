-- ===== src/Reasoning/Calls/Budget.antt =====
-- internal/reasoning/multiagent.go: the tokens of the answers that the agents keep.
use g_lm.Prelude.{
  ℕ, zero, suc, ◌+◌, ◌-◌, ◌≡◌, ◌≤◌, ◌⊎◌, Bool, true, false, refl, inl, inr, ◌&&◌, List, [], ◌∷◌,
  ◌++◌, arith, Bool-cases, Option-cases, if◌then◌else◌,
}
use g_lm.Prelude.Int.{ℤ}
use g_lm.Prelude.Texts.{Text, is_empty, lit, text_eq}
use g_lm.Prelude.Sums.{sum_of-append, sum_of-sort_slice}
use g_lm.Prelude.Floats.{Float64}
use g_lm.Model.Chat.{ChatCompletionRequest}
use g_lm.Model.Session.{CognitiveState}
use g_lm.Reasoning.Config.{Config}
use g_lm.Reasoning.Records.{World}
use g_lm.Reasoning.Evaluation.{estimate_tokens}
use g_lm.Reasoning.Agents.Roles.{AgentResult, by_score, multi_agent_consensus}
use g_lm.Reasoning.Agents.Rounds.{
  Arrival, Discussion, agent_output, agent_score, sort_agents, prune_multi_agent_candidates,
  run_multi_agent_round, multi_agent_baseline, fall_back,
}
use g_lm.Reasoning.Calls.Weights.{sum_of-prune_candidates, sum_of-sort_candidates}
use g_lm.Reasoning.Agents.Discussion.{weigh_round, run_rounds}
use g_lm.Reasoning.Calls.Counted.{tokens_of, round-IsExact}

module _ (fl : Float64) {S : Type 0} (w : World fl.F S) (cfg : Config fl.F)
    (req : ChatCompletionRequest fl.F) (st : CognitiveState fl.F) where
  open fl use {F}

  -- The answers kept are within what has been counted, and that is within the budget.
  abbrev pub IsWithin : ℕ → Discussion F S → Type 0
  IsWithin budget d = (tokens_of fl d.candidates ≤ d.budget_used) × (d.budget_used ≤ budget)

  -- Or else a baseline, which is not counted, is all that is kept.
  abbrev pub EndsWithin : ℕ → Discussion F S → Type 0
  EndsWithin budget d =
      IsWithin budget d
      ⊎ ((d.budget_used ≤ budget)
          × ((b : AgentResult F) × (d.candidates ≡ b ∷ []) × (b.role ≡ lit "baseline")))

  none_left : (cs : List (AgentResult F)) → is_empty cs ≡ true → cs ≡ []
  none_left [] h = refl
  none_left (c ∷ cs) h = absurd cc

  fall_back-EndsWithin :
      (model : Text) (max_tokens round budget : ℕ) (failure : Text) (d : Discussion F S)
      → is_empty d.candidates ≡ true
      → d.budget_used ≤ budget
      → EndsWithin budget (fall_back fl w cfg req st model max_tokens round failure d)
  unfolding fall_back
  fall_back-EndsWithin model max_tokens round budget failure d empty h =
      let b = multi_agent_baseline fl w cfg req st model max_tokens round d.world in
      let gone = none_left d.candidates empty in
      elim (Option-cases b.answer) [
        | inl o ↦ rw (o, fall_back, gone) (inl (omega arith, h))
        | inr ((output, ev), o) ↦ rw (o, fall_back, gone) (inr (h, (_, refl, refl)))
      ]

  -- Neither the sort nor the pruning makes the answers more.
  kept_of : Discussion F S → List (AgentResult F) → List (AgentResult F)
  kept_of d results =
      let sorted = sort_agents fl w (d.candidates ++ results) in
      if cfg.pruning_enabled
      then (prune_multi_agent_candidates fl w cfg sorted cfg.pruning_ma_round_top_k).0
      else sorted

  sort_agents_tokens :
      (cs : List (AgentResult F)) → tokens_of fl (sort_agents fl w cs) ≡ tokens_of fl cs
  unfolding sort_agents
  sort_agents_tokens cs =
      sum_of-sort_candidates fl (λ (c : AgentResult F). estimate_tokens fl c.output)
        (agent_output fl w) (agent_score fl w) cs

  prune_agents_tokens :
      (cs : List (AgentResult F)) (k : ℤ)
      → tokens_of fl (prune_multi_agent_candidates fl w cfg cs k).0 ≤ tokens_of fl cs
  unfolding prune_multi_agent_candidates
  prune_agents_tokens cs k =
      sum_of-prune_candidates fl (λ (c : AgentResult F). estimate_tokens fl c.output)
        (agent_output fl w) (agent_score fl w) (lit "multi_agent") cfg cs k

  either_tokens :
      (b : Bool) (xs ys : List (AgentResult F)) (n : ℕ)
      → tokens_of fl xs ≤ n
      → tokens_of fl ys ≤ n
      → tokens_of fl (if b then xs else ys) ≤ n
  either_tokens true xs ys n h k = h
  either_tokens false xs ys n h k = k

  kept_of_tokens :
      (d : Discussion F S) (results : List (AgentResult F))
      → tokens_of fl (kept_of d results) ≤ tokens_of fl d.candidates + tokens_of fl results
  unfolding kept_of
  kept_of_tokens d results =
      let both = d.candidates ++ results in
      let split =
        sum_of-append (λ (c : AgentResult F). estimate_tokens fl c.output) d.candidates results in
      let same = sort_agents_tokens both in
      let fewer = prune_agents_tokens (sort_agents fl w both) cfg.pruning_ma_round_top_k in
      either_tokens cfg.pruning_enabled _ _ _ (omega (arith, split, same, fewer))
        (omega (arith, split, same))

  right_of : (a b : Bool) → a && b ≡ true → b ≡ true
  right_of a b h = ground arith

  weigh_round-EndsWithin :
      (model : Text) (max_tokens round budget : ℕ) (results : List (AgentResult F))
      (d : Discussion F S)
      → tokens_of fl d.candidates + tokens_of fl results ≤ d.budget_used
      → d.budget_used ≤ budget
      → let r = weigh_round fl w cfg req st model max_tokens round results d in
        EndsWithin budget r.0 × (r.1 ≡ true → IsWithin budget r.0)
  unfolding weigh_round kept_of by_score
  weigh_round-EndsWithin model max_tokens round budget results d t h =
      let tokens : AgentResult F → ℕ = λ c. estimate_tokens fl c.output in
      let kept = kept_of d results in
      let fewer = kept_of_tokens d results in
      let same = sum_of-sort_slice tokens (λ a b. fl.lt b.score a.score) kept in
      elim (Bool-cases (cfg.pruning_enabled && is_empty kept)) [
        | inl e ↦
            rw (e, weigh_round)
              (
                fall_back-EndsWithin model max_tokens round budget _ _
                    (right_of cfg.pruning_enabled (is_empty kept) e) h,
                λ k. absurd cc,
              )
        | inr e ↦
            elim (Bool-cases (text_eq (multi_agent_consensus fl (by_score fl kept)) (lit "low"))) [
              | inl f ↦
                  rw (e, f, weigh_round)
                    (
                      inl (omega (arith, same, fewer, t), h),
                      λ k. (omega (arith, same, fewer, t), h),
                    )
              | inr f ↦
                  rw (e, f, weigh_round) (inl (omega (arith, same, fewer, t), h), λ k. absurd cc)
            ]
      ]

  -- In whatever order the roles of the rounds end, the answers that the agents keep never come to more
  -- tokens than are counted, and these never to more than the budget, if so before; or else a
  -- baseline, which is not counted, is all that is kept.
  pub run_rounds_budget :
      (arrive : Arrival) (model : Text) (anchors : List Text) (max_tokens budget round left : ℕ)
      (d : Discussion F S)
      → IsWithin budget d
      → EndsWithin budget
          (run_rounds fl w arrive cfg req st model anchors max_tokens budget round left d)
  unfolding run_rounds
  run_rounds_budget arrive model anchors max_tokens budget round zero d h = inl h
  run_rounds_budget arrive model anchors max_tokens budget round (suc left) d (t, h) =
      let ran =
        run_multi_agent_round fl w arrive cfg req st model anchors max_tokens
          (budget - d.budget_used) round d in
      let e = record d {
        world = ran.0.world;
        nodes = d.nodes ++ ran.0.nodes;
        anchors = ran.0.anchors;
        budget_used = d.budget_used + ran.0.used;
      } in
      let weighed = weigh_round fl w cfg req st model max_tokens round ran.0.results e in
      let (same, used) =
        round-IsExact fl w cfg req st arrive model anchors max_tokens (budget - d.budget_used) round
          d in
      let within : e.budget_used ≤ budget = omega (arith, used, h) in
      let (ends, goes_on) =
        weigh_round-EndsWithin model max_tokens round budget ran.0.results e
          (omega (arith, t, same)) within in
      elim (Option-cases (w.context_error d.world)) [
        | inr (x, p) ↦ rw (p, run_rounds) (inl (t, h))
        | inl p ↦ elim (Option-cases ran.1) [
          | inr (failure, q) ↦ elim (Bool-cases (is_empty d.candidates)) [
            | inl b ↦
                rw (p, q, b, run_rounds)
                  (fall_back-EndsWithin model max_tokens round budget failure e b within)
            | inr b ↦ rw (p, q, b, run_rounds) (inl (omega (arith, t), within))
          ]
          | inl q ↦ elim (Bool-cases weighed.1) [
            | inl b ↦
                rw (p, q, b, run_rounds)
                  (run_rounds_budget arrive model anchors max_tokens budget (round + 1) left
                    weighed.0 (goes_on b))
            | inr b ↦ rw (p, q, b, run_rounds) ends
          ]
        ]
      ]
