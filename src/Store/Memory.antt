-- ===== src/Store/Memory.antt =====
-- internal/store/memory/memory.go. Each method takes the time that it reads and the identifier that
-- uuid.NewString returns, and gives the new store back with its result. The mutex makes each method
-- one step. `none` stands for errNotFound.
pub mod State
pub mod Policies
pub mod ApiKeys
pub mod Idempotency
pub mod Listing
pub mod Audit
mod Tests
use g_lm.Prelude.{
  ℕ, Bool, ◌&&◌, Option, none, some, List, [], ◌∷◌, ◌++◌, map, length, take, keep, ltb,
  if◌then◌else◌, true, not, ◌||◌,
}
use g_lm.Prelude.Int.{ℤ, pos, pos_part, ltb_ℤ}
use g_lm.Prelude.Texts.{Text, lit, text_eq, is_empty}
use g_lm.Prelude.Maps.{Map, values, lookup, insert, erase}
use g_lm.Prelude.Sorting.{sort_slice}
use g_lm.Store.Memory.State.{
  MemoryStore, Step, list_at, limited, id_key, memory_key, zero_key, or_zero_key, stamp_policy,
  stamp_quota, stamped_at, cleanup_from,
}
use g_lm.Model.Records.{
  Time, Tenant, ApiKeyRecord, Role, ModelPolicy, CognitivePolicy, Quota, AuditEvent,
  IdempotencyRecord, MemoryNode,
}

module _ {F : Type 0} where
  unfoldable pub new : MemoryStore F
  new = record {
    tenants = [];
    api_keys = [];
    api_by_prefix = [];
    roles = [];
    policies = [];
    cognitive = [];
    quotas = [];
    idempotency = [];
    audit_by_tenant = [];
    memory_nodes = [];
  }

  unfoldable pub create_tenant : Text → Time → Text → MemoryStore F → Step F Tenant
  create_tenant uuid now name s =
      let t : Tenant = record { id = uuid; name = name; status = lit "active"; created_at = now } in
      (record s { tenants = insert t.id t s.tenants }, t)

  unfoldable pub list_tenants : ℤ → MemoryStore F → List Tenant
  list_tenants limit s =
      limited limit (sort_slice (λ a b. ltb b.created_at a.created_at) (values s.tenants))

  unfoldable pub create_api_key : Text → Time → ApiKeyRecord → MemoryStore F → Step F ApiKeyRecord
  create_api_key uuid now rec s =
      let rec' : ApiKeyRecord = record rec { id = uuid; created_at = now } in
      let ids = list_at (lookup rec.prefix s.api_by_prefix) in
      (
        record s {
          api_keys = insert uuid rec' s.api_keys;
          api_by_prefix = insert rec.prefix (ids ++ uuid ∷ []) s.api_by_prefix;
        },
        rec',
      )

  unfoldable pub get_api_keys_by_prefix : Text → MemoryStore F → List ApiKeyRecord
  get_api_keys_by_prefix prefix s =
      map (λ id. or_zero_key (lookup id s.api_keys)) (list_at (lookup prefix s.api_by_prefix))

  unfoldable pub create_role : Text → Time → Role → MemoryStore F → Step F Role
  create_role uuid now role s =
      let role' : Role = record role { id = uuid; created_at = now } in
      (record s { roles = insert uuid role' s.roles }, role')

  unfoldable pub upsert_model_policy :
      Text → Time → ModelPolicy → MemoryStore F → Step F ModelPolicy
  unfolding stamp_policy
  upsert_model_policy uuid now policy s =
      let p = stamp_policy uuid now policy (lookup policy.tenant_id s.policies) in
      (record s { policies = insert policy.tenant_id p s.policies }, p)

  unfoldable pub get_model_policy : Text → MemoryStore F → Option ModelPolicy
  get_model_policy tenant_id s = lookup tenant_id s.policies

  stamp_cognitive : Text → Time → CognitivePolicy F → Option (CognitivePolicy F) → CognitivePolicy F
  stamp_cognitive uuid now policy (some p) = record policy {
    id = p.id;
    created_at = p.created_at;
    updated_at = now;
  }
  stamp_cognitive uuid now policy none = record policy {
    id = uuid;
    created_at = now;
    updated_at = now;
  }

  unfoldable pub upsert_cognitive_policy :
      Text → Time → CognitivePolicy F → MemoryStore F → Step F (CognitivePolicy F)
  unfolding stamp_cognitive
  upsert_cognitive_policy uuid now policy s =
      let p = stamp_cognitive uuid now policy (lookup policy.tenant_id s.cognitive) in
      (record s { cognitive = insert policy.tenant_id p s.cognitive }, p)

  unfoldable pub get_cognitive_policy : Text → MemoryStore F → Option (CognitivePolicy F)
  get_cognitive_policy tenant_id s = lookup tenant_id s.cognitive

  unfoldable pub upsert_quota : Text → Time → Quota → MemoryStore F → Step F Quota
  unfolding stamp_quota
  upsert_quota uuid now quota s =
      let q = stamp_quota uuid now quota (lookup quota.tenant_id s.quotas) in
      (record s { quotas = insert quota.tenant_id q s.quotas }, q)

  unfoldable pub get_quota : Text → MemoryStore F → Option Quota
  get_quota tenant_id s = lookup tenant_id s.quotas

  unfoldable pub create_idempotency_record :
      Text → Time → IdempotencyRecord → MemoryStore F → Step F IdempotencyRecord
  create_idempotency_record uuid now rec s =
      let rec' : IdempotencyRecord = record rec { id = uuid; created_at = now } in
      (
        record s {
          idempotency = insert (id_key rec.tenant_id rec.idempotency_key) rec' s.idempotency;
        },
        rec',
      )

  unfoldable pub get_idempotency_record : Text → Text → MemoryStore F → Option IdempotencyRecord
  get_idempotency_record tenant_id key s = lookup (id_key tenant_id key) s.idempotency

  unfoldable pub create_audit_event : Text → Time → AuditEvent → MemoryStore F → Step F AuditEvent
  create_audit_event uuid now ev s =
      let ev' : AuditEvent = record ev { id = uuid; timestamp = stamped_at now ev.timestamp } in
      let events = list_at (lookup ev.tenant_id s.audit_by_tenant) in
      (
        record s { audit_by_tenant = insert ev.tenant_id (events ++ ev' ∷ []) s.audit_by_tenant },
        ev',
      )

  unfoldable pub list_audit_events : Text → ℤ → MemoryStore F → List AuditEvent
  list_audit_events tenant_id limit s = limited limit (
      sort_slice (λ a b. ltb b.timestamp a.timestamp)
        (list_at (lookup tenant_id s.audit_by_tenant)))

  unfoldable pub stamp_node : Text → Time → MemoryNode F → Option (MemoryNode F) → MemoryNode F
  stamp_node uuid now node (some ex) = record node {
    id = ex.id;
    created_at = ex.created_at;
    updated_at = now;
  }
  stamp_node uuid now node none = record node { id = uuid; created_at = now; updated_at = now }

  unfoldable pub upsert_memory_node :
      Text → Time → MemoryNode F → MemoryStore F → Step F (MemoryNode F)
  unfolding stamp_node
  upsert_memory_node uuid now node s =
      let idx = memory_key node.tenant_id node.session_id node.key in
      let n = stamp_node uuid now node (lookup idx s.memory_nodes) in
      (record s { memory_nodes = insert idx n s.memory_nodes }, n)

  abbrev pub in_session : Text → Text → MemoryNode F → Bool
  in_session tenant_id session_id n =
      text_eq n.tenant_id tenant_id && (is_empty session_id || text_eq n.session_id session_id)

  unfoldable pub list_memory_nodes : Text → Text → ℤ → MemoryStore F → List (MemoryNode F)
  list_memory_nodes tenant_id session_id limit s = limited limit (
      sort_slice (λ a b. ltb b.updated_at a.updated_at)
        (keep (in_session tenant_id session_id) (values s.memory_nodes)))

  unfoldable pub cleanup_expired : Time → MemoryStore F → MemoryStore F
  unfolding cleanup_from
  cleanup_expired now s = record s { idempotency = cleanup_from now s.idempotency s.idempotency }
