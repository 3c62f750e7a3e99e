-- ===== src/Orchestrator/Tests.antt =====
-- The router at concrete inputs.
use g_lm.Prelude.{
  ℕ, ◌≡◌, ◌≢◌, refl, ◌≤◌, inl, inr, true, false, none, some, List, [], ◌∷◌, arith, length, any,
  Elem, keep, subst,
}
use g_lm.Prelude.Int.{pos}
use g_lm.Prelude.Texts.{Text, is_empty, lit, text_eq, to_lower, trim_space}
use g_lm.Prelude.Maps.{Map, lookup, insert}
use g_lm.Prelude.Floats.{thousandths}
use g_lm.Model.Records.{ModelPolicy}
use g_lm.Model.Chat.{ChatCompletionRequest}
use g_lm.Policy.{allowed}
use g_lm.Orchestrator.Classifier.{classify_prompt, classify_messages, coding_reasoning, light_qa}
use g_lm.Orchestrator.Router.{
  Router, normalize_config, new_router_with_control, default_router_config, ideal_models,
}
use g_lm.Orchestrator.Lookup.{
  Order, IsRange, lookup_canonical, to_available_map, resolve_default, normalize_model_id,
}
use g_lm.Orchestrator.Lookup.Facts.{lookup_canonical_lem}
use g_lm.Orchestrator.Candidates.{
  request_class, trigger_background_pull, candidates_of, first_usable, decision_reason,
}
use g_lm.Orchestrator.Choose.{choose_with_state, effective_inventory}
use g_lm.Orchestrator.Choose.Sound.{IsEligible, choose_with_state-IsChoice}
use g_lm.Orchestrator.Inventory.{Control, protected_models, prune_loop, clean_inventory_if_needed}
use g_lm.Orchestrator.Inventory.Pruning.{
  IsInventory, prune_loop-bound, clean_inventory_if_needed_lem,
}

abbrev pub in_order : Order
in_order c m = m

abbrev in_order-IsRange : IsRange in_order
in_order-IsRange c m e = (λ h. h, λ h. h)

abbrev listed : List Text
listed = lit "Mistral:7b" ∷ lit "phi3:mini" ∷ lit "  " ∷ []

unfoldable pub router : Router ℕ
unfolding new_router_with_control normalize_config default_router_config
router =
    new_router_with_control thousandths (lit "mistral:7b") [] (lit "gemma2:2b")
      (record (default_router_config thousandths) { jit_inventory_enabled = true }) true

abbrev pub open_policy : ModelPolicy
open_policy = record {
  id = [];
  tenant_id = lit "acme";
  allowed_models = lit "mistral:7b" ∷ [];
  primary_model = lit "mistral:7b";
  fallback_model = [];
  reasoning_visible = true;
  created_at = 0;
  updated_at = 0;
}

abbrev pub request : ChatCompletionRequest ℕ
request = record {
  model = lit "auto";
  session_id = [];
  memory_anchor_keys = [];
  reasoning = none;
  symbolic_overlay = none;
  response_style = none;
  documents = [];
  document_flow = none;
  messages =
      record {
        role = lit "user";
        content = lit "Please debug this";
        name = [];
        tool_call_id = [];
        tool_calls = [];
      }
      ∷ [];
  tools = [];
  tool_choice = none;
  temperature = none;
  max_tokens = none;
  stream = false;
}

classify_question : classify_prompt (lit " Is it late?") ≡ light_qa
unfolding classify_prompt
classify_question = refl

classify_coding : classify_prompt (lit "Please DEBUG this") ≡ coding_reasoning
unfolding classify_prompt
classify_coding = refl

lookup_canonical_lem_example : (k : Text) × Elem (k, lit "Mistral:7b") (to_available_map listed)
unfolding lookup_canonical to_available_map insert lookup text_eq to_lower trim_space
    normalize_model_id keep
lookup_canonical_lem_example =
    let (k, here, _) =
      (lookup_canonical_lem in_order in_order-IsRange (lit "mistral_7b")
          (to_available_map listed)).0
        (lit "Mistral:7b") refl in
    (k, here)

-- The ideal model for coding is not there: the default is chosen, and the ideal one is pulled.
chosen_test :
    (choose_with_state in_order request listed open_policy none 100 router).decision.chosen_model
    ≡ lit "Mistral:7b"
unfolding choose_with_state effective_inventory to_available_map insert lookup text_eq to_lower
    trim_space request_class classify_messages lookup_canonical normalize_model_id keep ideal_models
    trigger_background_pull resolve_default first_usable candidates_of allowed decision_reason
    router
chosen_test = refl

choose_with_state-IsChoice_example :
    IsEligible
      (effective_inventory router listed).0
      open_policy
      (choose_with_state in_order request listed open_policy none 100 router).decision.chosen_model
unfolding choose_with_state effective_inventory to_available_map insert lookup text_eq to_lower
    trim_space request_class classify_messages lookup_canonical normalize_model_id keep ideal_models
    trigger_background_pull resolve_default first_usable candidates_of allowed decision_reason
    router
choose_with_state-IsChoice_example =
    (choose_with_state-IsChoice in_order in_order-IsRange request listed open_policy none 100
        router).0
      refl

abbrev stock : Map Text
stock = (lit "mistral:7b", lit "Mistral:7b") ∷ (lit "old", lit "old") ∷ []

-- A host without figures, which deletes what it is asked to.
abbrev control : Control ℕ
control = record {
  list_models = λ h. (some listed, h);
  host_stats = λ h. (none, h);
  delete_model = λ id h. (true, h);
}

prune_loop-bound_example :
    1
    ≤ length
        (prune_loop thousandths control
          (record (router.cfg) { max_models = pos 1 })
          false
          (lit "old" ∷ lit "mistral:7b" ∷ [])
          (record { available = stock; last_used = []; host = 0 })).available
unfolding lookup text_eq
prune_loop-bound_example =
    prune_loop-bound thousandths control (record (router.cfg) { max_models = pos 1 }) 1
      (lit "old" ∷ lit "mistral:7b" ∷ []) (record { available = stock; last_used = []; host = 0 })
      refl (refl, (refl, tt)) (omega arith)

abbrev stocked : Router ℕ
stocked = record router { inventory = record { available = stock; updated_at = 5; stale = false } }

stock-IsInventory : IsInventory stock
unfolding to_lower trim_space
stock-IsInventory e (inl p) =
    subst (λ (x : Text × Text). (x.0 ≡ to_lower x.1) × (is_empty (trim_space x.1) ≡ false)) p
      (refl, refl)
stock-IsInventory e (inr (inl p)) =
    subst (λ (x : Text × Text). (x.0 ≡ to_lower x.1) × (is_empty (trim_space x.1) ≡ false)) p
      (refl, refl)
stock-IsInventory e (inr (inr h)) = elim h [ ]

clean_inventory_if_needed_lem_example :
    lookup
      (to_lower (lit "Mistral:7b"))
      (clean_inventory_if_needed thousandths control in_order 9 stocked 0).0.inventory.available
    ≢ none
unfolding ideal_models router protected_models any text_eq to_lower trim_space
clean_inventory_if_needed_lem_example =
    (clean_inventory_if_needed_lem thousandths control in_order in_order-IsRange 9 stocked 0
        stock-IsInventory).1
      (lit "mistral:7b", lit "Mistral:7b") (inl refl) refl
