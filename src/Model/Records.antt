-- ===== src/Model/Records.antt =====
-- internal/model/types.go, lines 206-307: what the store keeps. A FlexTime is its time.
use g_lm.Prelude.{ℕ, Bool, Option, List}
use g_lm.Prelude.Int.{ℤ}
use g_lm.Prelude.Texts.{Text}
use g_lm.Prelude.Maps.{Map}
use g_lm.Model.Chat.{Json}

-- time.Time; 0 is its zero value, which IsZero tests.
abbrev pub Time : Type 0
Time = ℕ

pub record Tenant : Type 0 where
  pub id : Text
  pub name : Text
  pub status : Text
  pub created_at : Time

pub record ApiKeyRecord : Type 0 where
  pub id : Text
  pub tenant_id : Text
  pub prefix : Text
  pub hash : Text
  pub scopes : List Text
  pub status : Text
  pub expires_at : Option Time
  pub created_at : Time

pub record Role : Type 0 where
  pub id : Text
  pub tenant_id : Text
  pub name : Text
  pub permissions : List Text
  pub created_at : Time

pub record ModelPolicy : Type 0 where
  pub id : Text
  pub tenant_id : Text
  pub allowed_models : List Text
  pub primary_model : Text
  pub fallback_model : Text
  pub reasoning_visible : Bool
  pub created_at : Time
  pub updated_at : Time

pub record CognitivePolicy (F : Type 0) : Type 0 where
  pub id : Text
  pub tenant_id : Text
  pub status : Text
  pub version : Text
  pub allowed_reasoning_modes : List Text
  pub max_reasoning_passes : ℤ
  pub max_reflection_passes : ℤ
  pub max_self_alignment_passes : ℤ
  pub allow_constraint_breaking : Bool
  pub max_constraint_breaking_severity : Text
  pub allow_adversarial_self_play : Bool
  pub allow_worldview_fusion : Bool
  pub allow_shape_transform : Bool
  pub allow_context_reindex : Bool
  pub allow_skill_compiler : Bool
  pub tool_allowlist : List Text
  pub tool_denylist : List Text
  pub risk_threshold_reject : F
  pub risk_threshold_warn : F
  pub created_at : Time
  pub updated_at : Time

pub record Quota : Type 0 where
  pub id : Text
  pub tenant_id : Text
  pub rpm_limit : ℤ
  pub tpm_limit : ℤ
  pub burst : ℤ
  pub created_at : Time
  pub updated_at : Time

pub record AuditEvent : Type 0 where
  pub id : Text
  pub tenant_id : Text
  pub actor_type : Text
  pub actor_id : Text
  pub endpoint : Text
  pub model : Text
  pub outcome : Text
  pub latency_ms : ℤ
  pub trace_id : Text
  pub timestamp : Time

pub record IdempotencyRecord : Type 0 where
  pub id : Text
  pub tenant_id : Text
  pub idempotency_key : Text
  pub request_hash : Text
  pub response_hash : Text
  pub status : Text
  pub created_at : Time
  pub expires_at : Time

pub record MemoryNode (F : Type 0) : Type 0 where
  pub id : Text
  pub tenant_id : Text
  pub session_id : Text
  pub key : Text
  pub label : Text
  pub metadata : Map Json
  pub weight : F
  pub importance : F
  pub access_count : ℤ
  pub last_seen_at : Time
  pub created_at : Time
  pub updated_at : Time
