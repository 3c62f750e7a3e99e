-- ===== src/Reasoning/Agents/Rounds.antt =====
-- internal/reasoning/multiagent.go: the rounds of the agents. The roles of a round run concurrently;
-- `arrive` is the order in which they end in a round, and each of them is one step in that order.
use g_lm.Prelude.{ℕ, ◌+◌, true, Option, none, some, List, [], ◌∷◌, ◌++◌, ltb, leb, if◌then◌else◌}
use g_lm.Prelude.Int.{ℤ, pos}
use g_lm.Prelude.Texts.{Text, lit, is_empty}
use g_lm.Prelude.Results.{ok, err, decimal}
use g_lm.Prelude.Floats.{Float64}
use g_lm.Model.Chat.{string, ChatCompletionRequest}
use g_lm.Model.Session.{CognitiveState}
use g_lm.Metareasoning.Signals.{first_content}
use g_lm.Reasoning.Config.{Config}
use g_lm.Reasoning.Records.{World, Node, PruneStats}
use g_lm.Reasoning.Evaluation.{
  MemoryAnchorAccumulator, evaluate_output, add_candidate, resolve_memory_anchors, estimate_tokens,
}
use g_lm.Reasoning.Pruning.{prune_candidates, sort_candidates}
use g_lm.Reasoning.Messages.{
  json_number, build_multi_agent_role_messages, build_multi_agent_baseline_messages,
}
use g_lm.Reasoning.Start.{Baseline, ask, call_node, baseline_call}
use g_lm.Reasoning.Agents.Roles.{AgentRole, AgentResult}

abbrev pub Arrival : Type 0
Arrival = ℕ → List AgentRole → List AgentRole

-- The variables of a round.
pub record Round (F S : Type 0) : Type 0 where
  pub world : S
  pub results : List (AgentResult F)
  pub nodes : List (Node F)
  pub used : ℕ
  pub anchors : MemoryAnchorAccumulator F

-- The variables of the loop over the rounds; `failure` is the error with which it ends, if any.
pub record Discussion (F S : Type 0) : Type 0 where
  pub world : S
  pub roles : List AgentRole
  pub candidates : List (AgentResult F)
  pub nodes : List (Node F)
  pub anchors : MemoryAnchorAccumulator F
  pub stats : PruneStats
  pub budget_used : ℕ
  pub rounds_run : ℕ
  pub failure : Option Text

abbrev pub with_max_tokens : {F : Type 0} → ℕ → ChatCompletionRequest F → ChatCompletionRequest F
with_max_tokens n req = if ltb 0 n then record req { max_tokens = some (pos n) } else req

module _ (fl : Float64) {S : Type 0} (w : World fl.F S) where
  open fl use {F, milli}

  abbrev pub agent_output : AgentResult F → Text
  agent_output c = c.output

  abbrev pub agent_score : AgentResult F → F
  agent_score c = c.score

  unfoldable pub prune_multi_agent_candidates :
      Config F → List (AgentResult F) → ℤ → List (AgentResult F) × PruneStats
  unfolding prune_candidates
  prune_multi_agent_candidates cfg cs top_k =
      prune_candidates fl agent_output agent_score (lit "multi_agent") cfg cs top_k

  unfoldable pub sort_agents : List (AgentResult F) → List (AgentResult F)
  unfolding sort_candidates
  sort_agents = sort_candidates fl agent_output agent_score

  -- A role that has answered, within the budget of the round or beyond it.
  unfoldable pub add_answer : ℕ → ℕ → AgentResult F → Round F S → Round F S
  add_answer budget tokens result l =
      if ltb budget (l.used + tokens)
      then l
      else record l { results = l.results ++ result ∷ []; used = l.used + tokens }

  unfoldable pub role_step :
      Config F
      → ChatCompletionRequest F
      → CognitiveState F
      → Text
      → List Text
      → ℕ
      → ℕ
      → ℕ
      → AgentRole
      → Round F S
      → Round F S
  unfolding build_multi_agent_role_messages decimal evaluate_output add_candidate estimate_tokens
      add_answer json_number
  role_step cfg req st model anchors max_tokens budget round role l =
      let messages =
        build_multi_agent_role_messages w req.messages role.name role.prompt round anchors in
      let called = ask w (with_max_tokens max_tokens req) model messages l.world in
      let id = lit "multi-agent-" ++ role.name ++ lit "-r" ++ decimal round in
      let node = record (call_node w (milli 0) id (lit "multi_agent_role") model l.world called.0) {
        metadata = (lit "role", string role.name) ∷ (lit "round", json_number round) ∷ [];
      } in
      elim called.1 [
        | err e ↦ record l { world = called.0; nodes = l.nodes ++ record node { error = e } ∷ [] }
        | ok resp ↦
            let output = first_content resp in
            let ev = evaluate_output fl cfg req output st true in
            let result : AgentResult F = record {
              role = role.name;
              round = round;
              output = output;
              score = ev.score;
            } in
            add_answer budget (estimate_tokens fl output) result (record l {
              world = called.0;
              nodes = l.nodes ++ record node { score = ev.score } ∷ [];
              anchors = add_candidate fl anchors ev l.anchors;
            })
      ]

  unfoldable pub run_roles :
      Config F
      → ChatCompletionRequest F
      → CognitiveState F
      → Text
      → List Text
      → ℕ
      → ℕ
      → ℕ
      → List AgentRole
      → Round F S
      → Round F S
  unfolding role_step
  run_roles cfg req st model anchors max_tokens budget round [] l = l
  run_roles cfg req st model anchors max_tokens budget round (role ∷ roles) l =
      run_roles cfg req st model anchors max_tokens budget round roles
        (role_step cfg req st model anchors max_tokens budget round role l)

  -- runMultiAgentRound, with what is left of the budget; it fails where it has no result.
  unfoldable pub run_multi_agent_round :
      Arrival
      → Config F
      → ChatCompletionRequest F
      → CognitiveState F
      → Text
      → List Text
      → ℕ
      → ℕ
      → ℕ
      → Discussion F S
      → Round F S × Option Text
  unfolding run_roles decimal
  run_multi_agent_round arrive cfg req st model anchors max_tokens budget round d =
      let first : Round F S = record {
        world = d.world;
        results = [];
        nodes = [];
        used = 0;
        anchors = d.anchors;
      } in
      let l =
        run_roles cfg req st model anchors max_tokens budget round (arrive round d.roles) first in
      if leb budget 0
      then (first, some (lit "multi-agent budget exhausted"))
      else if is_empty l.results
      then (
        l,
        some (lit "multi-agent round " ++ decimal round ++ lit " produced no successful outputs"),
      )
      else (l, none)

  -- multiAgentBaselineCandidate
  unfoldable pub multi_agent_baseline :
      Config F → ChatCompletionRequest F → CognitiveState F → Text → ℕ → ℕ → S → Baseline F S
  unfolding baseline_call build_multi_agent_baseline_messages resolve_memory_anchors decimal
      json_number
  multi_agent_baseline cfg req st model max_tokens round s =
      let messages =
        build_multi_agent_baseline_messages req.messages (resolve_memory_anchors fl cfg req) in
      baseline_call fl w cfg req st (lit "multi-agent-baseline-r" ++ decimal round)
        (lit "multi_agent_baseline") ((lit "round", json_number round) ∷ []) model
        (record (with_max_tokens max_tokens req) { messages = messages }) s

  -- The discussion with a baseline as its one candidate, or the given failure.
  unfoldable pub fall_back :
      Config F
      → ChatCompletionRequest F
      → CognitiveState F
      → Text
      → ℕ
      → ℕ
      → Text
      → Discussion F S
      → Discussion F S
  unfolding multi_agent_baseline
  fall_back cfg req st model max_tokens round failure d =
      let b = multi_agent_baseline cfg req st model max_tokens round d.world in
      let e = record d { world = b.world; nodes = d.nodes ++ b.node ∷ [] } in
      elim b.answer [
        | none ↦ record e { failure = some failure }
        | some (output, ev) ↦ record e {
          candidates =
              d.candidates
              ++ record { role = lit "baseline"; round = round; output = output; score = ev.score }
                ∷ [];
          rounds_run = round;
        }
      ]
