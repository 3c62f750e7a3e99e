-- ===== src/Policy/Tests.antt =====
-- The policies at concrete inputs.
use g_lm.Prelude.{ℕ, ◌≡◌, true, [], ◌∷◌}
use g_lm.Prelude.Int.{pos, negsuc}
use g_lm.Prelude.Texts.{lit}
use g_lm.Prelude.Floats.{thousandths, thousandths-IsOrdered}
use g_lm.Model.Records.{ModelPolicy, CognitivePolicy}
use g_lm.Store.Memory.{new, upsert_model_policy}
use g_lm.Policy.{
  resolve_model_policy, allowed, default_cognitive_policy, normalize_cognitive_policy,
}
use g_lm.Policy.Cognitive.{IsNormal, normalize_cognitive_policy_lem}
use g_lm.Policy.Models.{allowed-upsert_model_policy, service_over}

abbrev acme_policy : ModelPolicy
acme_policy = record {
  id = [];
  tenant_id = lit "acme";
  allowed_models = lit "Mistral:7b" ∷ [];
  primary_model = [];
  fallback_model = [];
  reasoning_visible = true;
  created_at = 0;
  updated_at = 0;
}

allowed-upsert_model_policy_example :
    allowed (lit "x") (
      resolve_model_policy
        (service_over (lit "d") true (upsert_model_policy {F = ℕ} (lit "u") 5 acme_policy new).0)
        (lit "acme"))
    ≡ allowed (lit "x") acme_policy
allowed-upsert_model_policy_example =
    (allowed-upsert_model_policy (lit "d") true (lit "u") 5 acme_policy (new {F = ℕ}) (λ e. cc)).0
      (lit "x")

-- The stored policy of the test of the source.
abbrev wild : CognitivePolicy ℕ
unfolding default_cognitive_policy normalize_cognitive_policy
wild = record (default_cognitive_policy thousandths (lit "tenant-1")) {
  status = lit "ACTIVE ";
  max_reasoning_passes = pos 99;
  max_reflection_passes = negsuc 3;
  max_constraint_breaking_severity = lit "INVALID";
  risk_threshold_reject = 2000;
}

normalize_cognitive_policy_lem_example :
    IsNormal thousandths (normalize_cognitive_policy thousandths wild)
normalize_cognitive_policy_lem_example =
    (normalize_cognitive_policy_lem thousandths thousandths-IsOrdered wild tt tt).0
