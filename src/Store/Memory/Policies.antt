-- ===== src/Store/Memory/Policies.antt =====
-- internal/store/memory/memory.go: the upserts of policies and quotas, against the reads of them.
use g_lm.Prelude.{◌≡◌, ◌∙◌, ap, refl, inl, inr, none, some, Bool-cases, arith, if◌then◌else◌}
use g_lm.Prelude.Texts.{Text, text_eq, text_eq_iff, text_eq_refl}
use g_lm.Prelude.Maps.{lookup-insert}
use g_lm.Model.Records.{Time, ModelPolicy, CognitivePolicy, Quota}
use g_lm.Store.Memory.State.{MemoryStore}
use g_lm.Store.Memory.{
  upsert_model_policy, get_model_policy, upsert_quota, get_quota, upsert_cognitive_policy,
  get_cognitive_policy,
}

module _ {F : Type 0} where
  -- A read after an upsert sees what the upsert returned if it asks for the same tenant, and what it
  -- saw before if it asks for another.
  pub get-upsert_model_policy :
      (uuid : Text) (now : Time) (p : ModelPolicy) (t : Text) (s : MemoryStore F)
      → get_model_policy t (upsert_model_policy uuid now p s).0 ≡ (
          if text_eq p.tenant_id t
          then some (upsert_model_policy uuid now p s).1
          else get_model_policy t s)
  unfolding get_model_policy upsert_model_policy
  get-upsert_model_policy uuid now p t s = lookup-insert p.tenant_id t _ s.policies

  pub get-upsert_quota :
      (uuid : Text) (now : Time) (q : Quota) (t : Text) (s : MemoryStore F)
      → get_quota t (upsert_quota uuid now q s).0
        ≡ (if text_eq q.tenant_id t then some (upsert_quota uuid now q s).1 else get_quota t s)
  unfolding get_quota upsert_quota
  get-upsert_quota uuid now q t s = lookup-insert q.tenant_id t _ s.quotas

  pub get-upsert_cognitive_policy :
      (uuid : Text) (now : Time) (p : CognitivePolicy F) (t : Text) (s : MemoryStore F)
      → get_cognitive_policy t (upsert_cognitive_policy uuid now p s).0 ≡ (
          if text_eq p.tenant_id t
          then some (upsert_cognitive_policy uuid now p s).1
          else get_cognitive_policy t s)
  unfolding get_cognitive_policy upsert_cognitive_policy
  get-upsert_cognitive_policy uuid now p t s = lookup-insert p.tenant_id t _ s.cognitive

  upsert-known :
      (uuid : Text) (now : Time) (p old : ModelPolicy) (s : MemoryStore F)
      → get_model_policy p.tenant_id s ≡ some old
      → ((upsert_model_policy uuid now p s).1.id ≡ old.id)
        × ((upsert_model_policy uuid now p s).1.created_at ≡ old.created_at)
        × ((upsert_model_policy uuid now p s).1.updated_at ≡ now)
        × ((upsert_model_policy uuid now p s).1.allowed_models ≡ p.allowed_models)
  unfolding get_model_policy upsert_model_policy
  upsert-known uuid now p old s h = ground arith

  -- A second upsert for the same tenant keeps the identifier and the creation time of the first one,
  -- whatever identifier is drawn for it, takes the new allowlist and records the time of the change.
  pub upsert_model_policy_twice :
      (uuid uuid' : Text) (now later : Time) (p q : ModelPolicy) (s : MemoryStore F)
      → p.tenant_id ≡ q.tenant_id
      → let first = upsert_model_policy uuid now p s in
        let second = upsert_model_policy uuid' later q first.0 in
        (second.1.id ≡ first.1.id)
        × (second.1.created_at ≡ first.1.created_at)
        × (second.1.updated_at ≡ later)
        × (second.1.allowed_models ≡ q.allowed_models)
  upsert_model_policy_twice uuid uuid' now later p q s e =
      upsert-known uuid' later q (upsert_model_policy uuid now p s).1
        (upsert_model_policy uuid now p s).0
        (rw (get-upsert_model_policy, (text_eq_iff p.tenant_id q.tenant_id).1 e))

  upsert-fresh :
      (uuid : Text) (now : Time) (p : ModelPolicy) (s : MemoryStore F)
      → get_model_policy p.tenant_id s ≡ none
      → (upsert_model_policy uuid now p s).1
        ≡ record p { id = uuid; created_at = now; updated_at = now }
  unfolding get_model_policy upsert_model_policy
  upsert-fresh uuid now p s h = rw h refl

  upsert-known_whole :
      (uuid : Text) (now : Time) (p old : ModelPolicy) (s : MemoryStore F)
      → get_model_policy p.tenant_id s ≡ some old
      → (upsert_model_policy uuid now p s).1
        ≡ record p { id = old.id; created_at = old.created_at; updated_at = now }
  unfolding get_model_policy upsert_model_policy
  upsert-known_whole uuid now p old s h = rw h refl

  -- The first upsert for a tenant stamps the policy with a fresh identifier and its time, and a second one
  -- returns its own policy with the identifier and the creation time of the first, and its time as
  -- that of the change. A read after both sees that policy if it asks for the tenant, and what it saw
  -- before them if it asks for another.
  pub get-upsert_model_policy_again :
      (uuid uuid' : Text) (now later : Time) (p q : ModelPolicy) (t : Text) (s : MemoryStore F)
      → get_model_policy p.tenant_id s ≡ none
      → q.tenant_id ≡ p.tenant_id
      → let first = upsert_model_policy uuid now p s in
        let second = upsert_model_policy uuid' later q first.0 in
        let stored : ModelPolicy = record q { id = uuid; created_at = now; updated_at = later } in
        (first.1 ≡ record p { id = uuid; created_at = now; updated_at = now })
        × (second.1 ≡ stored)
        × (get_model_policy t second.0
            ≡ (if text_eq p.tenant_id t then some stored else get_model_policy t s))
  get-upsert_model_policy_again uuid uuid' now later p q t s fresh same =
      let first = upsert_model_policy uuid now p s in
      let stamped = upsert-fresh uuid now p s fresh in
      let there : get_model_policy q.tenant_id first.0 ≡ some first.1 =
        get-upsert_model_policy uuid now p q.tenant_id s
        ∙ rw (same, text_eq_refl p.tenant_id) refl in
      let again =
        upsert-known_whole uuid' later q first.1 first.0 there
        ∙ ap
            (λ (o : ModelPolicy). record q {
              id = o.id;
              created_at = o.created_at;
              updated_at = later;
            })
            stamped in
      (
        stamped,
        again,
        get-upsert_model_policy uuid' later q t first.0
            ∙ elim (Bool-cases (text_eq p.tenant_id t)) [
              | inl e ↦ rw (again, same, e) refl
              | inr e ↦ rw (again, same, e) (get-upsert_model_policy uuid now p t s ∙ rw e refl)
            ],
      )
