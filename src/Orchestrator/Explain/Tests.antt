-- ===== src/Orchestrator/Explain/Tests.antt =====
-- The explanation of a choice at concrete inputs.
use g_lm.Prelude.{any, keep, ℕ, ◌≡◌, refl, false, none, some, [], ◌∷◌, map}
use g_lm.Prelude.Texts.{lit, text_eq, to_lower, trim_space}
use g_lm.Prelude.Maps.{lookup, insert}
use g_lm.Orchestrator.Router.{Router, ideal_models, should_auto_route}
use g_lm.Policy.{allowed}
use g_lm.Orchestrator.Classifier.{classify_messages}
use g_lm.Orchestrator.Lookup.{
  lookup_canonical, to_available_map, resolve_default, normalize_model_id,
}
use g_lm.Orchestrator.Candidates.{
  request_class, trigger_background_pull, candidates_of, first_usable, decision_reason,
}
use g_lm.Orchestrator.Tests.{in_order, router, open_policy, request}
use g_lm.Orchestrator.Choose.{choose_with_state, effective_inventory}
use g_lm.Orchestrator.Explain.{CandidateDecision, explain_candidates, explain_with_state}

explain_candidates_test :
    map
      (λ (c : CandidateDecision). c.skip_reason)
      (explain_candidates in_order
        (lit "mistral:7b")
        (some (lit "Mistral:7b"))
        ((lit "mistral:7b", lit "Mistral:7b") ∷ (lit "phi3:mini", lit "phi3:mini") ∷ [])
        open_policy
        (lit "Mistral:7b")
        []
        (lit "gemma2:2b" ∷ lit "phi3-mini" ∷ lit " " ∷ lit "mistral:7b" ∷ lit "Mistral_7b" ∷ []))
    ≡ lit "not_available"
      ∷ lit "blocked_by_allowlist"
      ∷ lit "empty_candidate"
      ∷ []
      ∷ lit "duplicate_candidate"
      ∷ []
unfolding explain_candidates lookup normalize_model_id keep
explain_candidates_test = refl

-- A router that has seen one model.
abbrev stocked : Router ℕ
unfolding router
stocked = record router {
  inventory = record {
    available = (lit "mistral:7b", lit "mistral:7b") ∷ [];
    updated_at = 0;
    stale = false;
  };
}

-- A request that lists no model is answered from the snapshot, which the explanation leaves aside.
explain_with_state_test :
    let (info, _) = explain_with_state in_order in_order request [] open_policy none 100 stocked in
    (info.decision.chosen_model ≡ lit "mistral:7b")
    × (any (λ (c : CandidateDecision). c.available) info.candidates ≡ false)
unfolding explain_with_state choose_with_state effective_inventory to_available_map insert lookup
    text_eq to_lower trim_space request_class classify_messages lookup_canonical normalize_model_id
    keep ideal_models trigger_background_pull resolve_default first_usable candidates_of allowed
    decision_reason router stocked should_auto_route
explain_with_state_test = (refl, refl)
