-- ===== src/Reasoning/Agents/Roles.antt =====
-- internal/reasoning/multiagent.go: the limits, the roles, the consensus, and the messages of the
-- synthesis.
use g_lm.Prelude.{
  ℕ, ◌+◌, ◌-◌, ◌*◌, ◌/◌, Bool, Option, none, some, List, [], ◌∷◌, ◌++◌, map, take, ltb,
  if◌then◌else◌,
}
use g_lm.Prelude.Int.{ℤ, pos, pos_part, ltb_ℤ}
use g_lm.Prelude.Texts.{Text, lit}
use g_lm.Prelude.Sorting.{sort_slice}
use g_lm.Prelude.Floats.{Float64}
use g_lm.Model.Chat.{number, string, array, Message, ReasoningOptions, ChatCompletionRequest}
use g_lm.Metareasoning.Signals.{ContradictionReport}
use g_lm.Reasoning.Config.{Config, at_least, at_most}
use g_lm.Reasoning.Records.{World, BranchResult}
use g_lm.Reasoning.Geometry.{asked_or}
use g_lm.Reasoning.Contradictions.{detect_contradictions}
use g_lm.Model.Json.{items, json_object, system_message}
use g_lm.Reasoning.Messages.{json_report, anchor_field}

pub record MultiAgentConfig : Type 0 where
  pub enabled : Bool
  pub max_agents : ℕ
  pub max_rounds : ℕ
  pub budget_tokens : ℕ

pub record AgentRole : Type 0 where
  pub name : Text
  pub prompt : Text

pub record AgentResult (F : Type 0) : Type 0 where
  pub role : Text
  pub round : ℕ
  pub output : Text
  pub score : F

abbrev pub max_int : ℕ → ℕ → ℕ
max_int a b = if ltb b a then a else b

abbrev pub min_int : ℕ → ℕ → ℕ
min_int a b = if ltb a b then a else b

abbrev pub positive : Option ℤ → Option ℕ
positive none = none
positive (some n) = if ltb_ℤ (pos 0) n then some (pos_part n) else none

module _ {F : Type 0} where
  unfoldable pub multi_agent_config : Config F → Option (ReasoningOptions F) → MultiAgentConfig
  multi_agent_config cfg o = record {
    enabled = cfg.multi_agent_enabled;
    max_agents = pos_part (
        at_most (pos 4) (
          at_least (pos 2)
            (asked_or cfg.multi_agent_max_agents (λ o. o.multi_agent_max_agents) o)));
    max_rounds = pos_part (
        at_most (pos 4) (
          at_least (pos 1)
            (asked_or cfg.multi_agent_max_rounds (λ o. o.multi_agent_max_rounds) o)));
    budget_tokens = pos_part (
        at_least (pos 200)
          (asked_or cfg.multi_agent_budget_tokens (λ o. o.multi_agent_budget_tokens) o));
  }

  unfoldable pub role_max_tokens : ChatCompletionRequest F → MultiAgentConfig → ℕ
  role_max_tokens req cfg =
      let per_call = cfg.budget_tokens / max_int 1 (cfg.max_agents * max_int 1 cfg.max_rounds) in
      elim (positive req.max_tokens) [
        | some n ↦ min_int n 96
        | none ↦ if ltb per_call 48 then 48 else min_int per_call 96
      ]

  unfoldable pub synthesis_max_tokens : ChatCompletionRequest F → ℕ
  synthesis_max_tokens req = elim (positive req.max_tokens) [ some n ↦ min_int n 160 | none ↦ 160 ]

abbrev pub workers : List AgentRole
workers =
    record {
      name = lit "planner";
      prompt = lit "Decompose the request into concrete, verifiable steps with constraints.";
    }
    ∷ record {
      name = lit "researcher";
      prompt =
          lit "Propose a practical solution path with explicit assumptions and evidence needs.";
    }
    ∷ record {
      name = lit "critic";
      prompt = lit "Find contradictions, risks, and compliance/control gaps in likely solutions.";
    }
    ∷ []

unfoldable pub multi_agent_roles : ℕ → List AgentRole
multi_agent_roles max_agents = take (min_int (max_int 1 (max_agents - 1)) 3) workers

unfoldable pub refinement_roles : {F : Type 0} → List (AgentResult F) → List AgentRole
refinement_roles candidates =
    map
      (λ (c : AgentResult _). record {
        name = c.role;
        prompt =
            lit "Refine your prior output with clearer assumptions, checks, and concise structure.";
      })
      (take 2 candidates)

module _ (fl : Float64) where
  open fl use {F, lt, le, milli, sub}

  -- The branch results of candidates, from the number `i` on.
  unfoldable pub agent_branches :
      (AgentResult F → Text) → Text → ℕ → List (AgentResult F) → List (BranchResult F)
  agent_branches reason model i [] = []
  agent_branches reason model i (c ∷ cs) =
      record {
        index = i;
        model = model;
        output = c.output;
        evaluation_score = c.score;
        evaluation_reason = reason c;
        warnings = [];
      }
      ∷ agent_branches reason model (i + 1) cs

  unfoldable pub by_score : List (AgentResult F) → List (AgentResult F)
  unfolding sort_slice
  by_score = sort_slice (λ a b. lt b.score a.score)

  -- multiAgentConsensus, over results that it has sorted in place by `by_score`
  unfoldable pub multi_agent_consensus : List (AgentResult F) → Text
  unfolding agent_branches detect_contradictions
  multi_agent_consensus [] = lit "low"
  multi_agent_consensus (a ∷ []) = lit "low"
  multi_agent_consensus (a ∷ b ∷ rest) =
      let delta = sub a.score b.score in
      let report =
        detect_contradictions fl (agent_branches (λ _. []) [] 1 (take 3 (a ∷ b ∷ rest))) in
      if report.detected
      then lit "low"
      else if le (milli 120) delta
      then lit "high"
      else if le (milli 50) delta
      then lit "medium"
      else lit "low"

  module _ {S : Type 0} (w : World F S) where
    unfoldable pub build_multi_agent_synthesis_messages :
        List Message → List (AgentResult F) → ContradictionReport → List Text → List Message
    unfolding json_report
    build_multi_agent_synthesis_messages base results contradictions anchors =
        let compact = λ (c : AgentResult F). json_object (
          (lit "role", string c.role)
          ∷ (lit "score", number (w.float_text c.score))
          ∷ (lit "output", string c.output)
          ∷ []) in
        system_message (
          lit "multi_agent synthesizer payload: "
          ++ w.marshal (
              json_object (
                (lit "contradictions", json_report contradictions)
                  ∷ (
                    lit "instruction",
                    string (
                        lit
                          "Synthesize one final answer. Prefer consistency, explicit assumptions, and control/risk clarity."),
                  )
                  ∷ anchor_field anchors
                ++ (lit "multi_agent_candidates", array (items (map compact results))) ∷ [])))
        ∷ base
