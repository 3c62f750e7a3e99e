-- ===== src/Policy/Cognitive.antt =====
-- internal/policy/policy.go: what a normalized cognitive policy may hold.
use g_lm.Prelude.{
  ℕ, ◌≡◌, refl, inl, inr, false, some, List, [], ◌∷◌, arith, if◌then◌else◌, Elem, Bool-cases,
  Option-cases,
}
use g_lm.Prelude.Int.{ℤ, pos, ◌≤ℤ◌}
use g_lm.Prelude.Texts.{Text, lit, text_eq, text_eq_iff, is_empty, to_lower, trim_space}
use g_lm.Prelude.Floats.{Float64, IsOrdered, InUnit, clamp01-InUnit, clamp01_of_InUnit}
use g_lm.Model.Records.{CognitivePolicy}
use g_lm.Policy.{
  Service, normalize_status, normalize_severity, clamp_passes, normalize_cognitive_policy,
  default_cognitive_policy, resolve_cognitive_policy,
}

abbrev statuses : List Text
statuses = lit "active" ∷ lit "disabled" ∷ []

abbrev severities : List Text
severities = lit "none" ∷ lit "low" ∷ lit "medium" ∷ lit "high" ∷ []

normalize_status-Elem : (v : Text) → Elem (normalize_status v) statuses
unfolding normalize_status
normalize_status-Elem v =
    let s = to_lower (trim_space (if is_empty (trim_space v) then lit "active" else v)) in
    ground (arith, text_eq_iff s (lit "active"), text_eq_iff s (lit "disabled"))

normalize_status_of_Elem : (v : Text) → Elem v statuses → normalize_status v ≡ v
unfolding normalize_status to_lower trim_space text_eq
normalize_status_of_Elem v (inl e) = rw (← e)
normalize_status_of_Elem v (inr (inl e)) = rw (← e)
normalize_status_of_Elem v (inr (inr h)) = elim h [ ]

normalize_severity-Elem : (v : Text) → Elem (normalize_severity v) severities
unfolding normalize_severity
normalize_severity-Elem v =
    let s = to_lower (trim_space v) in
    ground (
      arith,
      text_eq_iff s (lit "none"),
      text_eq_iff s (lit "low"),
      text_eq_iff s (lit "medium"),
      text_eq_iff s (lit "high"),
    )

normalize_severity_of_Elem : (v : Text) → Elem v severities → normalize_severity v ≡ v
unfolding normalize_severity to_lower trim_space text_eq
normalize_severity_of_Elem v (inl e) = rw (← e)
normalize_severity_of_Elem v (inr (inl e)) = rw (← e)
normalize_severity_of_Elem v (inr (inr (inl e))) = rw (← e)
normalize_severity_of_Elem v (inr (inr (inr (inl e)))) = rw (← e)
normalize_severity_of_Elem v (inr (inr (inr (inr h)))) = elim h [ ]

clamp_passes_bounds :
    (cap : ℕ) (n : ℤ) → (pos 0 ≤ℤ clamp_passes cap n) × (clamp_passes cap n ≤ℤ pos cap)
unfolding clamp_passes
clamp_passes_bounds cap n = ground arith

clamp_passes_of_bounds : (cap : ℕ) (n : ℤ) → pos 0 ≤ℤ n → n ≤ℤ pos cap → clamp_passes cap n ≡ n
unfolding clamp_passes
clamp_passes_of_bounds cap n h k = ground arith

module _ (fl : Float64) where
  open fl use {F}

  pub record IsNormal (p : CognitivePolicy F) : Type 0 where
    pub status : Elem p.status statuses
    pub version : is_empty (trim_space p.version) ≡ false
    pub severity : Elem p.max_constraint_breaking_severity severities
    pub reasoning : (pos 0 ≤ℤ p.max_reasoning_passes) × (p.max_reasoning_passes ≤ℤ pos 16)
    pub reflection : (pos 0 ≤ℤ p.max_reflection_passes) × (p.max_reflection_passes ≤ℤ pos 8)
    pub alignment : (pos 0 ≤ℤ p.max_self_alignment_passes) × (p.max_self_alignment_passes ≤ℤ pos 8)
    pub reject : InUnit fl p.risk_threshold_reject
    pub warn : InUnit fl p.risk_threshold_warn

  normalize_version_not_blank :
      (v : Text) → is_empty (trim_space (if is_empty (trim_space v) then lit "v1" else v)) ≡ false
  normalize_version_not_blank v = elim (Bool-cases (is_empty (trim_space v))) [
    | inl e ↦ rw e (unfold trim_space in refl)
    | inr e ↦ rw e e
  ]

  module _ (o : IsOrdered fl) where
    normalize-IsNormal :
        (p : CognitivePolicy F)
        → o.IsNumber p.risk_threshold_reject
        → o.IsNumber p.risk_threshold_warn
        → IsNormal (normalize_cognitive_policy fl p)
    unfolding normalize_cognitive_policy
    normalize-IsNormal p nr nw = record {
      status = normalize_status-Elem p.status;
      version = normalize_version_not_blank p.version;
      severity = normalize_severity-Elem p.max_constraint_breaking_severity;
      reasoning = clamp_passes_bounds 16 p.max_reasoning_passes;
      reflection = clamp_passes_bounds 8 p.max_reflection_passes;
      alignment = clamp_passes_bounds 8 p.max_self_alignment_passes;
      reject = clamp01-InUnit fl o _ nr;
      warn = clamp01-InUnit fl o _ nw;
    }

    normalize_of_IsNormal :
        (p : CognitivePolicy F) → IsNormal p → normalize_cognitive_policy fl p ≡ p
    unfolding normalize_cognitive_policy
    normalize_of_IsNormal p v = cc (
      normalize_status_of_Elem p.status v.status,
      v.version,
      normalize_severity_of_Elem p.max_constraint_breaking_severity v.severity,
      clamp_passes_of_bounds 16 p.max_reasoning_passes v.reasoning.0 v.reasoning.1,
      clamp_passes_of_bounds 8 p.max_reflection_passes v.reflection.0 v.reflection.1,
      clamp_passes_of_bounds 8 p.max_self_alignment_passes v.alignment.0 v.alignment.1,
      clamp01_of_InUnit fl o p.risk_threshold_reject v.reject,
      clamp01_of_InUnit fl o p.risk_threshold_warn v.warn,
    )

    -- Normalizing a policy whose thresholds are numbers gives a normal policy, and a second time
    -- changes nothing.
    pub normalize_cognitive_policy_lem :
        (p : CognitivePolicy F)
        → o.IsNumber p.risk_threshold_reject
        → o.IsNumber p.risk_threshold_warn
        → IsNormal (normalize_cognitive_policy fl p)
          × (normalize_cognitive_policy fl (normalize_cognitive_policy fl p)
              ≡ normalize_cognitive_policy fl p)
    normalize_cognitive_policy_lem p nr nw =
        (normalize-IsNormal p nr nw, normalize_of_IsNormal _ (normalize-IsNormal p nr nw))

    -- A tenant's cognitive policy is normal, with or without a stored one, if the thresholds that are
    -- stored are numbers.
    pub resolve_cognitive_policy-IsNormal :
        (s : Service F) (t : Text)
        → ((p : CognitivePolicy F)
            → s.store.cognitive_policy t ≡ some p
            → o.IsNumber p.risk_threshold_reject × o.IsNumber p.risk_threshold_warn)
        → IsNormal (resolve_cognitive_policy fl s t)
    unfolding resolve_cognitive_policy default_cognitive_policy
    resolve_cognitive_policy-IsNormal s t h = elim (Option-cases (s.store.cognitive_policy t)) [
      | inl e ↦
          rw (e, resolve_cognitive_policy)
            (normalize-IsNormal _ (o.milli_number 0) (o.milli_number 0))
      | inr (p, e) ↦ rw (e, resolve_cognitive_policy) (normalize-IsNormal p (h p e).0 (h p e).1)
    ]
