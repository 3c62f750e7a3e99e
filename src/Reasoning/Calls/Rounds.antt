-- ===== src/Reasoning/Calls/Rounds.antt =====
-- internal/reasoning/multiagent.go: how often the rounds of the agents call the model.
use g_lm.Prelude.{
  ℕ, zero, suc, ◌+◌, ◌*◌, ◌-◌, ◌≡◌, ◌≤◌, refl, ap, ◌∙◌, inl, inr, true, ◌&&◌, List, [], ◌∷◌, ◌++◌,
  length, take, map, length-take-le, ltb, leb, arith, Bool-cases, Option-cases, if◌then◌else◌,
}
use g_lm.Prelude.Texts.{Text, is_empty, lit, text_eq}
use g_lm.Prelude.Results.{Result-cases}
use g_lm.Prelude.Floats.{Float64}
use g_lm.Model.Chat.{ChatCompletionRequest}
use g_lm.Model.Session.{CognitiveState}
use g_lm.Reasoning.Config.{Config}
use g_lm.Reasoning.Records.{World}
use g_lm.Reasoning.Messages.{build_multi_agent_role_messages, build_multi_agent_baseline_messages}
use g_lm.Reasoning.Evaluation.{resolve_memory_anchors}
use g_lm.Reasoning.Start.{ask}
use g_lm.Reasoning.Agents.Roles.{
  AgentRole, AgentResult, by_score, refinement_roles, multi_agent_consensus,
}
use g_lm.Reasoning.Agents.Rounds.{
  Arrival, Round, Discussion, with_max_tokens, sort_agents, prune_multi_agent_candidates,
  add_answer, role_step, run_roles, run_multi_agent_round, multi_agent_baseline, fall_back,
}
use g_lm.Reasoning.Agents.Discussion.{weigh_round, run_rounds}
use g_lm.Reasoning.Calls.{IsCounted, baseline_call_calls}

-- Each role of a round ends in it once.
abbrev pub IsArrival : Arrival → Type 0
IsArrival arrive = (n : ℕ) (roles : List AgentRole) → length (arrive n roles) ≡ length roles

length-map : {A B : Type 0} → (f : A → B) (xs : List A) → length (map f xs) ≡ length xs
length-map f [] = refl
length-map f (x ∷ xs) = ap suc (length-map f xs)

length-refinement_roles :
    {F : Type 0} → (cs : List (AgentResult F)) → length (refinement_roles cs) ≤ 3
unfolding refinement_roles
length-refinement_roles cs = omega (arith, length-map _ (take 2 cs), length-take-le 2 cs)

module _ (fl : Float64) {S : Type 0} (w : World fl.F S) (calls : S → ℕ) (c : IsCounted w calls)
    (cfg : Config fl.F) (req : ChatCompletionRequest fl.F) (st : CognitiveState fl.F) where
  open fl use {F}

  add_answer-world :
      (budget tokens : ℕ) (result : AgentResult F) (l : Round F S)
      → (add_answer fl w budget tokens result l).world ≡ l.world
  unfolding add_answer
  add_answer-world budget tokens result l = elim (Bool-cases (ltb budget (l.used + tokens))) [
    | inl e ↦ rw (e, add_answer) refl
    | inr e ↦ rw (e, add_answer) refl
  ]

  role_step_calls :
      (model : Text) (anchors : List Text) (max_tokens budget round : ℕ) (role : AgentRole)
      (l : Round F S)
      → calls (role_step fl w cfg req st model anchors max_tokens budget round role l).world
        ≡ suc (calls l.world)
  unfolding role_step
  role_step_calls model anchors max_tokens budget round role l =
      let messages =
        build_multi_agent_role_messages w req.messages role.name role.prompt round anchors in
      let limited = with_max_tokens max_tokens req in
      let once = c.chat_once (record limited { model = model; messages = messages }) l.world in
      elim (Result-cases (ask w limited model messages l.world).1) [
        | inr (e, p) ↦ rw (p, role_step) once
        | inl (resp, p) ↦ rw (p, role_step) (ap calls (add_answer-world budget _ _ _) ∙ once)
      ]

  run_roles_calls :
      (model : Text) (anchors : List Text) (max_tokens budget round : ℕ) (roles : List AgentRole)
      (l : Round F S)
      → calls (run_roles fl w cfg req st model anchors max_tokens budget round roles l).world
        ≡ calls l.world + length roles
  unfolding run_roles
  run_roles_calls model anchors max_tokens budget round [] l = omega arith
  run_roles_calls model anchors max_tokens budget round (role ∷ roles) l =
      let next = role_step fl w cfg req st model anchors max_tokens budget round role l in
      omega (
        arith,
        role_step_calls model anchors max_tokens budget round role l,
        run_roles_calls model anchors max_tokens budget round roles next,
      )

  round_calls :
      (arrive : Arrival) (model : Text) (anchors : List Text) (max_tokens budget round : ℕ)
      (d : Discussion F S)
      → IsArrival arrive
      → calls
          (run_multi_agent_round fl w arrive cfg req st model anchors max_tokens budget round
            d).0.world
        ≤ calls d.world + length d.roles
  unfolding run_multi_agent_round
  round_calls arrive model anchors max_tokens budget round d h =
      let first : Round F S = record {
        world = d.world;
        results = [];
        nodes = [];
        used = 0;
        anchors = d.anchors;
      } in
      let roles = arrive round d.roles in
      let l = run_roles fl w cfg req st model anchors max_tokens budget round roles first in
      let ran = run_roles_calls model anchors max_tokens budget round roles first in
      let same = h round d.roles in
      elim (Bool-cases (leb budget 0)) [
        | inl e ↦ rw (e, run_multi_agent_round) (omega arith)
        | inr e ↦ elim (Bool-cases (is_empty l.results)) [
          | inl f ↦ rw (e, f, run_multi_agent_round) (omega (arith, ran, same))
          | inr f ↦ rw (e, f, run_multi_agent_round) (omega (arith, ran, same))
        ]
      ]

  pub fall_back_calls :
      (model : Text) (max_tokens round : ℕ) (failure : Text) (d : Discussion F S)
      → calls (fall_back fl w cfg req st model max_tokens round failure d).world ≤ calls d.world + 1
  unfolding fall_back multi_agent_baseline
  fall_back_calls model max_tokens round failure d =
      let b = multi_agent_baseline fl w cfg req st model max_tokens round d.world in
      let limited = with_max_tokens max_tokens req in
      let messages =
        build_multi_agent_baseline_messages req.messages (resolve_memory_anchors fl cfg req) in
      let asked = record limited { messages = messages } in
      let once = baseline_call_calls fl w calls c cfg req st _ _ _ model asked d.world in
      elim (Option-cases b.answer) [
        | inl o ↦ rw (o, fall_back) once
        | inr (a, o) ↦ rw (o, fall_back) once
      ]

  -- A round that has been weighed has called the model once at most. If the discussion goes on, it has
  -- not, and there are three roles at most.
  weigh_round_calls :
      (model : Text) (max_tokens round : ℕ) (results : List (AgentResult F)) (d : Discussion F S)
      → let weighed = weigh_round fl w cfg req st model max_tokens round results d in
        (calls weighed.0.world ≤ calls d.world + 1)
        × (weighed.1 ≡ true
            → (calls weighed.0.world ≡ calls d.world) × (length weighed.0.roles ≤ 3))
  unfolding weigh_round
  weigh_round_calls model max_tokens round results d =
      let sorted = sort_agents fl w (d.candidates ++ results) in
      let pruned = prune_multi_agent_candidates fl w cfg sorted cfg.pruning_ma_round_top_k in
      let kept = if cfg.pruning_enabled then pruned.0 else sorted in
      let low = text_eq (multi_agent_consensus fl (by_score fl kept)) (lit "low") in
      elim (Bool-cases (cfg.pruning_enabled && is_empty kept)) [
        | inl e ↦
            rw (e, weigh_round) (fall_back_calls model max_tokens round _ _, λ h. absurd (cc h))
        | inr e ↦ elim (Bool-cases low) [
          | inl f ↦
              rw (e, f, weigh_round)
                (omega arith, λ h. (refl, length-refinement_roles (by_score fl kept)))
          | inr f ↦ rw (e, f, weigh_round) (omega arith, λ h. absurd (cc h))
        ]
      ]

  pub run_rounds_calls :
      (arrive : Arrival) (model : Text) (anchors : List Text) (max_tokens budget round left : ℕ)
      (d : Discussion F S)
      → IsArrival arrive
      → length d.roles ≤ 3
      → calls (run_rounds fl w arrive cfg req st model anchors max_tokens budget round left d).world
        ≤ calls d.world + (3 * left + 1)
  unfolding run_rounds
  run_rounds_calls arrive model anchors max_tokens budget round zero d a h = omega arith
  run_rounds_calls arrive model anchors max_tokens budget round (suc left) d a h =
      let ran =
        run_multi_agent_round fl w arrive cfg req st model anchors max_tokens
          (budget - d.budget_used) round d in
      let e = record d {
        world = ran.0.world;
        nodes = d.nodes ++ ran.0.nodes;
        anchors = ran.0.anchors;
        budget_used = d.budget_used + ran.0.used;
      } in
      let weighed = weigh_round fl w cfg req st model max_tokens round ran.0.results e in
      let asked = round_calls arrive model anchors max_tokens (budget - d.budget_used) round d a in
      let (more, goes_on) = weigh_round_calls model max_tokens round ran.0.results e in
      elim (Option-cases (w.context_error d.world)) [
        | inr (x, p) ↦ rw (p, run_rounds) (omega arith)
        | inl p ↦ elim (Option-cases ran.1) [
          | inr (failure, q) ↦ elim (Bool-cases (is_empty d.candidates)) [
            | inl b ↦
                let back = fall_back_calls model max_tokens round failure e in
                rw (p, q, b, run_rounds) (omega (arith, back, asked, h))
            | inr b ↦ rw (p, q, b, run_rounds) (omega (arith, asked, h))
          ]
          | inl q ↦ elim (Bool-cases weighed.1) [
            | inl b ↦
                let (same, few) = goes_on b in
                let rest =
                  run_rounds_calls arrive model anchors max_tokens budget (round + 1) left weighed.0
                    a few in
                rw (p, q, b, run_rounds) (omega (arith, rest, same, asked, h))
            | inr b ↦ rw (p, q, b, run_rounds) (omega (arith, more, asked, h))
          ]
        ]
      ]
