-- ===== src/Policy.antt =====
-- internal/policy/policy.go: the policies of a tenant, with the defaults, and the model allowlist.
-- The two reads of the interface Store (internal/store/store.go) are the record `PolicyStore`; `none`
-- is any error.
pub mod Cognitive
pub mod Models
mod Tests
use g_lm.Prelude.{
  ℕ, Bool, true, false, ◌||◌, Option, none, some, List, [], ◌∷◌, any, if◌then◌else◌, not,
}
use g_lm.Prelude.Int.{ℤ, pos, ltb_ℤ}
use g_lm.Prelude.Texts.{Text, lit, text_eq, is_empty, to_lower, trim_space, equal_fold}
use g_lm.Prelude.Floats.{Float64, clamp01}
use g_lm.Model.Records.{ModelPolicy, CognitivePolicy}
use g_lm.Store.Memory.State.{MemoryStore}
use g_lm.Store.Memory.{get_model_policy, get_cognitive_policy}

pub record PolicyStore (F : Type 0) : Type 0 where
  pub model_policy : Text → Option ModelPolicy
  pub cognitive_policy : Text → Option (CognitivePolicy F)

-- The in-memory store as a PolicyStore.
abbrev pub memory_policies : {F : Type 0} → MemoryStore F → PolicyStore F
memory_policies s = record {
  model_policy = λ t. get_model_policy t s;
  cognitive_policy = λ t. get_cognitive_policy t s;
}

pub record Service (F : Type 0) : Type 0 where
  pub store : PolicyStore F
  pub default_model : Text
  pub reasoning_hidden_by_default : Bool

-- if v == "" { v = d }
abbrev pub or_default {ℓ} : {A : Type ℓ} → List A → List A → List A
or_default [] d = d
or_default (c ∷ v) d = c ∷ v

with_defaults : Text → ModelPolicy → ModelPolicy
with_defaults default_model p =
    let primary = or_default p.primary_model default_model in
    record p {
      primary_model = primary;
      allowed_models = or_default p.allowed_models (primary ∷ []);
    }

unfoldable pub resolve_model_policy : {F : Type 0} → Service F → Text → ModelPolicy
unfolding with_defaults
resolve_model_policy s tenant_id = elim (s.store.model_policy tenant_id) [
  | none ↦ record {
    id = [];
    tenant_id = tenant_id;
    allowed_models = s.default_model ∷ [];
    primary_model = s.default_model;
    fallback_model = [];
    reasoning_visible = not s.reasoning_hidden_by_default;
    created_at = 0;
    updated_at = 0;
  }
  | some p ↦ with_defaults s.default_model p
]

-- Allowed
unfoldable pub allowed : Text → ModelPolicy → Bool
unfolding any
allowed [] pol = true
allowed (c ∷ m) pol = any (λ a. equal_fold a (c ∷ m)) pol.allowed_models

unfoldable pub normalize_status : Text → Text
normalize_status v =
    let status = to_lower (trim_space (if is_empty (trim_space v) then lit "active" else v)) in
    if text_eq status (lit "active") || text_eq status (lit "disabled")
    then status
    else lit "active"

unfoldable pub normalize_severity : Text → Text
normalize_severity v =
    let severity = to_lower (trim_space v) in
    if text_eq severity (lit "none")
      || (text_eq severity (lit "low")
          || (text_eq severity (lit "medium") || text_eq severity (lit "high")))
    then severity
    else lit "none"

unfoldable pub clamp_passes : ℕ → ℤ → ℤ
clamp_passes cap n = if ltb_ℤ n (pos 0) then pos 0 else if ltb_ℤ (pos cap) n then pos cap else n

module _ (fl : Float64) where
  open fl use {F}

  unfoldable pub normalize_cognitive_policy : CognitivePolicy F → CognitivePolicy F
  normalize_cognitive_policy p = record p {
    status = normalize_status p.status;
    version = if is_empty (trim_space p.version) then lit "v1" else p.version;
    max_reasoning_passes = clamp_passes 16 p.max_reasoning_passes;
    max_reflection_passes = clamp_passes 8 p.max_reflection_passes;
    max_self_alignment_passes = clamp_passes 8 p.max_self_alignment_passes;
    max_constraint_breaking_severity = normalize_severity p.max_constraint_breaking_severity;
    risk_threshold_reject = clamp01 fl p.risk_threshold_reject;
    risk_threshold_warn = clamp01 fl p.risk_threshold_warn;
  }

  unfoldable pub default_cognitive_policy : Text → CognitivePolicy F
  default_cognitive_policy tenant_id = normalize_cognitive_policy (record {
    id = [];
    tenant_id = tenant_id;
    status = lit "active";
    version = lit "v1";
    allowed_reasoning_modes = [];
    max_reasoning_passes = pos 0;
    max_reflection_passes = pos 0;
    max_self_alignment_passes = pos 0;
    allow_constraint_breaking = false;
    max_constraint_breaking_severity = [];
    allow_adversarial_self_play = false;
    allow_worldview_fusion = true;
    allow_shape_transform = true;
    allow_context_reindex = true;
    allow_skill_compiler = true;
    tool_allowlist = [];
    tool_denylist = [];
    risk_threshold_reject = fl.milli 0;
    risk_threshold_warn = fl.milli 0;
    created_at = 0;
    updated_at = 0;
  })

  unfoldable pub resolve_cognitive_policy : Service F → Text → CognitivePolicy F
  resolve_cognitive_policy s tenant_id = elim (s.store.cognitive_policy tenant_id) [
    | none ↦ default_cognitive_policy tenant_id
    | some p ↦ normalize_cognitive_policy p
  ]
