-- ===== src/Store/Memory/State.antt =====
-- The state of internal/store/memory/memory.go, and what its methods do to single records and lists.
use g_lm.Prelude.{
  zero, ◌&&◌, Option, none, some, List, [], ◌∷◌, ◌++◌, length, take, ltb, if◌then◌else◌,
}
use g_lm.Prelude.Int.{ℤ, pos, pos_part, ltb_ℤ}
use g_lm.Prelude.Texts.{Text}
use g_lm.Prelude.Maps.{Map, erase}
use g_lm.Model.Records.{
  Time, Tenant, ApiKeyRecord, Role, ModelPolicy, CognitivePolicy, Quota, AuditEvent,
  IdempotencyRecord, MemoryNode,
}

pub record MemoryStore (F : Type 0) : Type 0 where
  pub tenants : Map Tenant
  pub api_keys : Map ApiKeyRecord
  pub api_by_prefix : Map (List Text)
  pub roles : Map Role
  pub policies : Map ModelPolicy
  pub cognitive : Map (CognitivePolicy F)
  pub quotas : Map Quota
  pub idempotency : Map IdempotencyRecord
  pub audit_by_tenant : Map (List AuditEvent)
  pub memory_nodes : Map (MemoryNode F)

abbrev pub Step : Type 0 → Type 0 → Type 0
Step F A = MemoryStore F × A

-- What `m[k]` reads of a map of lists.
abbrev pub list_at {ℓ} : {A : Type ℓ} → Option (List A) → List A
list_at none = []
list_at (some xs) = xs

-- if limit > 0 && len(items) > limit { items = items[:limit] }
abbrev pub limited {ℓ} : {A : Type ℓ} → ℤ → List A → List A
limited limit xs =
    if ltb_ℤ (pos 0) limit && ltb_ℤ limit (pos (length xs)) then take (pos_part limit) xs else xs

unfoldable pub id_key : Text → Text → Text
id_key tenant_id key = tenant_id ++ (b':' ∷ key)

unfoldable pub memory_key : Text → Text → Text → Text
memory_key tenant_id session_id key = tenant_id ++ (b':' ∷ (session_id ++ (b':' ∷ key)))

-- The records of some identifiers: a missing one reads as the zero record, `zero_key`.
unfoldable pub zero_key : ApiKeyRecord
zero_key = record {
  id = [];
  tenant_id = [];
  prefix = [];
  hash = [];
  scopes = [];
  status = [];
  expires_at = none;
  created_at = 0;
}

abbrev pub or_zero_key : Option ApiKeyRecord → ApiKeyRecord
or_zero_key none = zero_key
or_zero_key (some r) = r

unfoldable pub stamp_policy : Text → Time → ModelPolicy → Option ModelPolicy → ModelPolicy
stamp_policy uuid now policy (some p) = record policy {
  id = p.id;
  created_at = p.created_at;
  updated_at = now;
}
stamp_policy uuid now policy none = record policy { id = uuid; created_at = now; updated_at = now }

unfoldable pub stamp_quota : Text → Time → Quota → Option Quota → Quota
stamp_quota uuid now quota (some q) = record quota {
  id = q.id;
  created_at = q.created_at;
  updated_at = now;
}
stamp_quota uuid now quota none = record quota { id = uuid; created_at = now; updated_at = now }

abbrev pub stamped_at : Time → Time → Time
stamped_at now zero = now
stamped_at now t = t

-- for k, v := range s.idempotency: deleting while ranging
unfoldable pub cleanup_from :
    Time → Map IdempotencyRecord → Map IdempotencyRecord → Map IdempotencyRecord
cleanup_from now [] m = m
cleanup_from now ((k, v) ∷ es) m =
    cleanup_from now es (if ltb v.expires_at now then erase k m else m)
