-- ===== src/Reasoning/Calls/Counted.antt =====
-- internal/reasoning/multiagent.go: what a round of the agents counts.
use g_lm.Prelude.{
  ℕ, ◌+◌, ◌≡◌, ◌≤◌, true, refl, inl, inr, List, [], ◌∷◌, ltb, leb, arith, Bool-cases,
}
use g_lm.Prelude.Texts.{Text, is_empty}
use g_lm.Prelude.Results.{Result-cases}
use g_lm.Prelude.Sums.{sum_of, sum_of-append}
use g_lm.Prelude.Floats.{Float64}
use g_lm.Model.Chat.{ChatCompletionRequest}
use g_lm.Model.Session.{CognitiveState}
use g_lm.Reasoning.Config.{Config}
use g_lm.Reasoning.Records.{World}
use g_lm.Reasoning.Messages.{build_multi_agent_role_messages}
use g_lm.Metareasoning.Signals.{first_content}
use g_lm.Reasoning.Evaluation.{estimate_tokens, evaluate_output}
use g_lm.Reasoning.Start.{ask}
use g_lm.Reasoning.Agents.Roles.{AgentRole, AgentResult}
use g_lm.Reasoning.Agents.Rounds.{
  Arrival, Round, Discussion, with_max_tokens, add_answer, role_step, run_roles,
  run_multi_agent_round,
}

-- The tokens of some answers, as the code estimates them.
abbrev pub tokens_of : (fl : Float64) → List (AgentResult fl.F) → ℕ
tokens_of fl = sum_of (λ (c : AgentResult fl.F). estimate_tokens fl c.output)

module _ (fl : Float64) {S : Type 0} (w : World fl.F S) (cfg : Config fl.F)
    (req : ChatCompletionRequest fl.F) (st : CognitiveState fl.F) where
  open fl use {F}

  -- The count of a round is that of the answers that it keeps, and within its budget.
  abbrev pub IsExact : ℕ → Round F S → Type 0
  IsExact budget l = (tokens_of fl l.results ≡ l.used) × (l.used ≤ budget)

  add_answer-IsExact :
      (budget tokens : ℕ) (result : AgentResult F) (l : Round F S)
      → estimate_tokens fl result.output ≡ tokens
      → IsExact budget l
      → IsExact budget (add_answer fl w budget tokens result l)
  unfolding add_answer
  add_answer-IsExact budget tokens result l t (same, h) =
      let more =
        sum_of-append (λ (c : AgentResult F). estimate_tokens fl c.output) l.results
          (result ∷ []) in
      elim (Bool-cases (ltb budget (l.used + tokens))) [
        | inl e ↦ rw (e, add_answer) (same, h)
        | inr e ↦ rw (e, add_answer) (omega (arith, more, t, same), ground (arith, e))
      ]

  role_step-IsExact :
      (model : Text) (anchors : List Text) (max_tokens budget round : ℕ) (role : AgentRole)
      (l : Round F S)
      → IsExact budget l
      → IsExact budget (role_step fl w cfg req st model anchors max_tokens budget round role l)
  unfolding role_step
  role_step-IsExact model anchors max_tokens budget round role l h =
      let messages =
        build_multi_agent_role_messages w req.messages role.name role.prompt round anchors in
      let called = ask w (with_max_tokens max_tokens req) model messages l.world in
      elim (Result-cases called.1) [
        | inr (e, p) ↦ rw (p, role_step) h
        | inl (resp, p) ↦
            let output = first_content resp in
            let ev = evaluate_output fl cfg req output st true in
            let result : AgentResult F = record {
              role = role.name;
              round = round;
              output = output;
              score = ev.score;
            } in
            rw (p, role_step)
              (add_answer-IsExact budget (estimate_tokens fl output) result
                (record l { world = called.0; nodes = _; anchors = _ }) refl h)
      ]

  run_roles-IsExact :
      (model : Text) (anchors : List Text) (max_tokens budget round : ℕ) (roles : List AgentRole)
      (l : Round F S)
      → IsExact budget l
      → IsExact budget (run_roles fl w cfg req st model anchors max_tokens budget round roles l)
  unfolding run_roles
  run_roles-IsExact model anchors max_tokens budget round [] l h = h
  run_roles-IsExact model anchors max_tokens budget round (role ∷ roles) l h =
      run_roles-IsExact model anchors max_tokens budget round roles _
        (role_step-IsExact model anchors max_tokens budget round role l h)

  pub round-IsExact :
      (arrive : Arrival) (model : Text) (anchors : List Text) (max_tokens budget round : ℕ)
      (d : Discussion F S)
      → IsExact budget
          (run_multi_agent_round fl w arrive cfg req st model anchors max_tokens budget round d).0
  unfolding run_multi_agent_round
  round-IsExact arrive model anchors max_tokens budget round d =
      let first : Round F S = record {
        world = d.world;
        results = [];
        nodes = [];
        used = 0;
        anchors = d.anchors;
      } in
      let roles = arrive round d.roles in
      let l = run_roles fl w cfg req st model anchors max_tokens budget round roles first in
      let exact =
        run_roles-IsExact model anchors max_tokens budget round roles first (refl, omega arith) in
      elim (Bool-cases (leb budget 0)) [
        | inl e ↦ rw (e, run_multi_agent_round) (refl, omega arith)
        | inr e ↦ elim (Bool-cases (is_empty l.results)) [
          | inl f ↦ rw (e, f, run_multi_agent_round) exact
          | inr f ↦ rw (e, f, run_multi_agent_round) exact
        ]
      ]
