-- ===== src/Policy/Models.antt =====
-- internal/policy/policy.go: the allowlist, and the policy that a tenant without one gets.
use g_lm.Prelude.{
  ◌≡◌, refl, ◌⊎◌, ◌↔◌, inl, inr, Bool, true, none, some, [], ◌∷◌, arith, Elem, any_of_Elem,
  Elem-of_any, ◌∙◌, sym, ◌≢◌,
}
use g_lm.Prelude.Texts.{Text, text_eq_refl, text_eq_iff, to_lower, equal_fold, equal_fold_iff}
use g_lm.Model.Records.{ModelPolicy, Time}
use g_lm.Store.Memory.State.{MemoryStore, stamp_policy}
use g_lm.Store.Memory.{upsert_model_policy, get_model_policy}
use g_lm.Store.Memory.Policies.{get-upsert_model_policy}
use g_lm.Policy.{Service, memory_policies, resolve_model_policy, allowed}

-- A named model is allowed exactly if the allowlist has it, up to case; no name is always allowed.
pub allowed_iff :
    (m : Text) (p : ModelPolicy)
    → (allowed m p ≡ true)
      ↔ ((m ≡ []) ⊎ ((a : Text) × Elem a p.allowed_models × (to_lower a ≡ to_lower m)))
allowed_iff m p = (from m, to m)
  where
    from :
        (n : Text)
        → allowed n p ≡ true
        → (n ≡ []) ⊎ ((a : Text) × Elem a p.allowed_models × (to_lower a ≡ to_lower n))
    from [] h = inl refl
    from (c ∷ n) h =
        let (a, here, e) =
          Elem-of_any (λ a. equal_fold a (c ∷ n)) p.allowed_models (unfold allowed in h) in
        inr (a, here, (equal_fold_iff a (c ∷ n)).0 e)

    to :
        (n : Text)
        → (n ≡ []) ⊎ ((a : Text) × Elem a p.allowed_models × (to_lower a ≡ to_lower n))
        → allowed n p ≡ true
    to [] h = unfold allowed in refl
    to (c ∷ n) (inl e) = absurd (cc)
    to (c ∷ n) (inr (a, here, e)) =
        unfold allowed in
        any_of_Elem (λ a. equal_fold a (c ∷ n)) a p.allowed_models here
          ((equal_fold_iff a (c ∷ n)).1 e)

-- The policy of a tenant has an allowlist, and a primary model if the service has a default one. A
-- stored allowlist and a stored primary model are kept; without a stored policy the default model is
-- the primary and the only one.
pub resolve_model_policy_lem :
    {F : Type 0} (s : Service F) (t : Text)
    → let r = resolve_model_policy s t in
      (r.allowed_models ≢ [])
      × (s.default_model ≢ [] → r.primary_model ≢ [])
      × ((p : ModelPolicy)
          → s.store.model_policy t ≡ some p
          → (p.allowed_models ≢ [] → r.allowed_models ≡ p.allowed_models)
            × (p.primary_model ≢ [] → r.primary_model ≡ p.primary_model)
            × (p.allowed_models ≡ [] → r.allowed_models ≡ r.primary_model ∷ []))
      × (s.store.model_policy t ≡ none
          → (r.primary_model ≡ s.default_model) × (r.allowed_models ≡ s.default_model ∷ []))
unfolding resolve_model_policy
resolve_model_policy_lem s t = ground arith

abbrev pub service_over : {F : Type 0} → Text → Bool → MemoryStore F → Service F
service_over default_model hidden s = record {
  store = memory_policies s;
  default_model = default_model;
  reasoning_hidden_by_default = hidden;
}

allowed_cong :
    (m : Text) (p q : ModelPolicy) → p.allowed_models ≡ q.allowed_models → allowed m p ≡ allowed m q
unfolding allowed
allowed_cong [] p q e = refl
allowed_cong (c ∷ m) p q e = rw e

upsert-allowed_models :
    {F : Type 0} (uuid : Text) (now : Time) (p : ModelPolicy) (s : MemoryStore F)
    → (upsert_model_policy uuid now p s).1.allowed_models ≡ p.allowed_models
unfolding upsert_model_policy stamp_policy
upsert-allowed_models uuid now p s = ground arith

resolve_cong :
    {F : Type 0} (a b : Service F) (t : Text)
    → a.store.model_policy t ≡ b.store.model_policy t
    → a.default_model ≡ b.default_model
    → a.reasoning_hidden_by_default ≡ b.reasoning_hidden_by_default
    → resolve_model_policy a t ≡ resolve_model_policy b t
unfolding resolve_model_policy
resolve_cong a b t e d h = ground arith

-- Over the in-memory store: once a tenant's policy with an allowlist is stored, the tenant is allowed
-- exactly what that list allows, and the policy of every other tenant is what it was.
pub allowed-upsert_model_policy :
    {F : Type 0} (d : Text) (hidden : Bool) (uuid : Text) (now : Time) (p : ModelPolicy)
    (s : MemoryStore F)
    → p.allowed_models ≢ []
    → let s' = (upsert_model_policy uuid now p s).0 in
      ((m : Text)
        → allowed m (resolve_model_policy (service_over d hidden s') p.tenant_id) ≡ allowed m p)
      × ((t : Text)
          → p.tenant_id ≢ t
          → resolve_model_policy (service_over d hidden s') t
            ≡ resolve_model_policy (service_over d hidden s) t)
allowed-upsert_model_policy d hidden uuid now p s h = (
  λ m.
      let first = upsert_model_policy uuid now p s in
      let same = upsert-allowed_models uuid now p s in
      let stored : get_model_policy p.tenant_id first.0 ≡ some first.1 =
        rw (get-upsert_model_policy, text_eq_refl p.tenant_id) in
      let kept =
        (resolve_model_policy_lem (service_over d hidden first.0) p.tenant_id).2 first.1 stored in
      allowed_cong m _ p (kept.0 (λ e. h (sym same ∙ e)) ∙ same),
  λ t ne.
      resolve_cong _ _ t (rw get-upsert_model_policy (ground (arith, text_eq_iff p.tenant_id t)))
        refl refl,
)
