-- ===== src/Store/Memory/Tests.antt =====
-- The in-memory store at concrete inputs.
use g_lm.Prelude.{any, ℕ, ◌≡◌, refl, true, none, some, [], ◌∷◌, length, ◌≤◌}
use g_lm.Prelude.Texts.{Text, lit, text_eq}
use g_lm.Prelude.Maps.{lookup, insert}
use g_lm.Prelude.Int.{pos}
use g_lm.Model.Records.{ModelPolicy, ApiKeyRecord, IdempotencyRecord, AuditEvent, MemoryNode}
use g_lm.Store.Memory.State.{MemoryStore, zero_key, id_key}
use g_lm.Store.Memory.{
  new, upsert_model_policy, get_model_policy, create_api_key, create_idempotency_record,
  get_idempotency_record, cleanup_expired, list_audit_events,
}
use g_lm.Store.Memory.Policies.{get-upsert_model_policy_again}
use g_lm.Store.Memory.ApiKeys.{IsIndexed, create_api_key-IsIndexed}
use g_lm.Store.Memory.Idempotency.{get-create_idempotency_record, get-cleanup_expired}
use g_lm.Store.Memory.Audit.{record_all, list_audit_events_lem}

abbrev empty_store : MemoryStore ℕ
unfolding new
empty_store = new

abbrev acme : Text
acme = lit "acme"

abbrev acme_policy : ModelPolicy
acme_policy = record {
  id = [];
  tenant_id = acme;
  allowed_models = lit "m1" ∷ [];
  primary_model = lit "m1";
  fallback_model = [];
  reasoning_visible = true;
  created_at = 0;
  updated_at = 0;
}

get-upsert_model_policy_again_example :
    get_model_policy acme
      (upsert_model_policy
        (lit "u2")
        9
        (record acme_policy { allowed_models = [] })
        (upsert_model_policy (lit "u1") 7 acme_policy empty_store).0).0
    ≡ some
        (record acme_policy { id = lit "u1"; allowed_models = []; created_at = 7; updated_at = 9 })
unfolding text_eq lookup get_model_policy empty_store
get-upsert_model_policy_again_example =
    (get-upsert_model_policy_again (lit "u1") (lit "u2") 7 9 acme_policy
      (record acme_policy { allowed_models = [] }) acme empty_store refl refl).2

abbrev acme_key : ApiKeyRecord
unfolding zero_key
acme_key = record zero_key { tenant_id = acme; prefix = lit "p1"; status = lit "active" }

empty_store-IsIndexed : IsIndexed empty_store
unfolding new lookup
empty_store-IsIndexed = record { stored = λ p i m. absurd m }

create_api_key-IsIndexed_example : IsIndexed (create_api_key (lit "k1") 7 acme_key empty_store).0
unfolding new lookup zero_key
create_api_key-IsIndexed_example =
    create_api_key-IsIndexed (lit "k1") 7 acme_key empty_store refl empty_store-IsIndexed

abbrev turn_record : IdempotencyRecord
turn_record = record {
  id = [];
  tenant_id = acme;
  idempotency_key = lit "turn:1";
  request_hash = lit "h";
  response_hash = lit "r";
  status = lit "completed";
  created_at = 0;
  expires_at = 50;
}

get-create_idempotency_record_example :
    get_idempotency_record acme
      (lit "turn:1")
      (create_idempotency_record (lit "i1") 7 turn_record empty_store).0
    ≡ some (create_idempotency_record (lit "i1") 7 turn_record empty_store).1
unfolding text_eq any
get-create_idempotency_record_example =
    get-create_idempotency_record (lit "i1") 7 turn_record acme (lit "turn:1") empty_store refl refl

get-cleanup_expired_example :
    get_idempotency_record acme
      (lit "turn:1")
      (cleanup_expired 51 (create_idempotency_record (lit "i1") 7 turn_record empty_store).0)
    ≡ none
unfolding text_eq create_idempotency_record new insert get_idempotency_record lookup id_key
get-cleanup_expired_example =
    get-cleanup_expired 51 acme (lit "turn:1")
      (create_idempotency_record (lit "i1") 7 turn_record empty_store).0 (refl, tt)

abbrev sign_in : AuditEvent
sign_in = record {
  id = [];
  tenant_id = acme;
  actor_type = lit "user";
  actor_id = lit "a";
  endpoint = lit "/v1/models";
  model = [];
  outcome = lit "ok";
  latency_ms = pos 3;
  trace_id = lit "t";
  timestamp = 0;
}

list_audit_events_lem_example :
    length (
      list_audit_events acme
        (pos 1)
        (record_all ((lit "e1", 7, sign_in) ∷ (lit "e2", 9, sign_in) ∷ []) (new {F = ℕ})))
    ≤ 1
list_audit_events_lem_example =
    (list_audit_events_lem ℕ acme 0 ((lit "e1", 7, sign_in) ∷ (lit "e2", 9, sign_in) ∷ [])).2

abbrev met_node : MemoryNode ℕ
met_node = record {
  id = [];
  tenant_id = acme;
  session_id = lit "s1";
  key = lit "budget";
  label = lit "budget";
  metadata = [];
  weight = 450;
  importance = 450;
  access_count = pos 1;
  last_seen_at = 7;
  created_at = 0;
  updated_at = 0;
}
