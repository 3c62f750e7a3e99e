-- ===== src/Orchestrator/Choose/Sound.antt =====
-- internal/orchestrator/router.go: a choice is an available model that the policy allows, and fails
-- only if there is none.
use g_lm.Prelude.{
  Bool, true, false, Option, none, some, List, [], ◌∷◌, Elem, ◌≡◌, inl, inr, arith, Bool-cases,
  Option-cases, any,
}
use g_lm.Prelude.Texts.{Text, text_eq, is_empty, to_lower, trim_space}
use g_lm.Prelude.Maps.{Map}
use g_lm.Model.Records.{Time, ModelPolicy}
use g_lm.Model.Chat.{ChatCompletionRequest}
use g_lm.Policy.{allowed}
use g_lm.Orchestrator.Classifier.{TaskClass}
use g_lm.Orchestrator.Router.{Router, ideal_models}
use g_lm.Orchestrator.Lookup.{Order, IsRange, lookup_canonical, resolve_default}
use g_lm.Orchestrator.Lookup.Facts.{lookup_canonical_lem}
use g_lm.Orchestrator.Candidates.{
  usable, candidate_name, find_name, first_usable, first_allowed, candidates_of, request_class,
}
use g_lm.Orchestrator.Choose.{
  Decision, Outcome, effective_inventory, choose_primary, choose_candidate, choose_from,
  choose_with_state, initial_decision,
}

-- A model that is the value of an entry and that the policy allows.
abbrev pub IsEligible : Map Text → ModelPolicy → Text → Type 0
IsEligible m pol v = ((k : Text) × Elem (k, v) m) × (allowed v pol ≡ true)

no_entry : (m : Map Text) (e : Text × Text) → is_empty m ≡ true → Elem e m → ⊥
no_entry [] e h here = here
no_entry (x ∷ m) e h here = cc

module _ (order : Order) (range : IsRange order) (m : Map Text) (pol : ModelPolicy) where
  usable-IsEligible :
      (c v : Text) → usable pol (lookup_canonical order c m) ≡ some v → IsEligible m pol v
  usable-IsEligible c v h = elim (Option-cases (lookup_canonical order c m)) [
    | inl e ↦ absurd (cc (rw e at h))
    | inr (w, e) ↦
        let (w-eq, ok) = split w (rw e at h) in
        let (k, here, _) = (lookup_canonical_lem order range c m).0 w e in
        rw (← w-eq) ((k, here), ok)
  ]
    where
      split : (w : Text) → usable pol (some w) ≡ some v → (w ≡ v) × (allowed w pol ≡ true)
      split w h' = ground arith

  find_name-value :
      (o : Option Text) (v : Text) → find_name order m o ≡ some v → (k : Text) × Elem (k, v) m
  find_name-value none v h = absurd (cc)
  find_name-value (some c) v h =
      let (k, here, _) = (lookup_canonical_lem order range c m).0 v h in (k, here)

  first_usable-IsEligible :
      (default_model : Text) (resolved : Option Text) (cs seen : List Text) (v : Text)
      → first_usable order default_model resolved m pol cs seen ≡ some v
      → IsEligible m pol v
  unfolding first_usable
  first_usable-IsEligible default_model resolved [] seen v h = absurd (cc)
  first_usable-IsEligible default_model resolved (c ∷ cs) seen v h =
      elim (Option-cases (find_name order m (candidate_name default_model resolved c))) [
        | inl e ↦
            first_usable-IsEligible default_model resolved cs seen v (rw (e, first_usable) at h)
        | inr (w, e) ↦ elim (Bool-cases (any (text_eq (to_lower w)) seen)) [
          | inl old ↦
              first_usable-IsEligible default_model resolved cs seen v
                (rw (e, first_usable, old) at h)
          | inr new ↦ elim (Bool-cases (allowed w pol)) [
            | inl ok ↦ let same : w ≡ v = ground arith in rw (← same) (find_name-value _ w e, ok)
            | inr bad ↦
                first_usable-IsEligible default_model resolved cs (to_lower w ∷ seen) v
                  (rw (e, first_usable, new, bad) at h)
          ]
        ]
      ]

  first_allowed_sound :
      (es : Map Text) (v : Text)
      → first_allowed pol es ≡ some v
      → (k : Text) × Elem (k, v) es × (allowed v pol ≡ true)
  unfolding first_allowed
  first_allowed_sound [] v h = absurd (cc)
  first_allowed_sound (e ∷ es) v h = elim (Bool-cases (allowed e.1 pol)) [
    | inl t ↦ (e.0, ground arith, ground arith)
    | inr f ↦
        let (k, here, t) = first_allowed_sound es v (rw (f, first_allowed) at h) in (k, inr here, t)
  ]

  first_allowed_complete :
      (es : Map Text) (e : Text × Text)
      → first_allowed pol es ≡ none
      → Elem e es
      → allowed e.1 pol ≡ false
  unfolding first_allowed
  first_allowed_complete [] e h here = absurd here
  first_allowed_complete (x ∷ xs) e h here = ground (arith, first_allowed_complete xs e)

  -- An outcome that has not failed names an eligible model; one that has failed leaves none.
  abbrev IsChoice : {F : Type 0} → Outcome F → Type 0
  IsChoice o =
      (o.failed ≡ false → IsEligible m pol o.decision.chosen_model)
      × (o.failed ≡ true → (e : Text × Text) → Elem e m → allowed e.1 pol ≡ false)

  chosen_branch :
      (v : Text)
      → IsEligible m pol v
      → (◌≡◌ {A = Bool} false false → IsEligible m pol v)
        × (◌≡◌ {A = Bool} false true → (e : Text × Text) → Elem e m → allowed e.1 pol ≡ false)
  chosen_branch v h = (λ _. h, λ f. absurd (cc))

  module _ {F : Type 0} (now : Time) where
    choose_primary-IsChoice :
        (d : Decision) (r : Router F) → IsChoice (choose_primary order m d pol now r)
    unfolding choose_primary
    choose_primary-IsChoice d r =
        elim (Option-cases (usable pol (lookup_canonical order pol.primary_model m))) [
          | inr (v, e) ↦
              rw (e, choose_primary) (chosen_branch v (usable-IsEligible pol.primary_model v e))
          | inl e ↦ elim (Option-cases (first_allowed pol (order [] m))) [
            | inr (v, a) ↦
                let (k, here, t) = first_allowed_sound (order [] m) v a in
                rw (e, choose_primary, a) (chosen_branch v ((k, (range [] m (k, v)).0 here), t))
            | inl a ↦
                rw (e, choose_primary, a)
                  (
                    λ f. absurd (cc),
                    λ _ x here. first_allowed_complete (order [] m) x a ((range [] m x).1 here),
                  )
          ]
        ]

    choose_candidate-IsChoice :
        (d : Decision) (class : TaskClass) (r : Router F)
        → IsChoice (choose_candidate order m d pol class now r)
    unfolding choose_candidate
    choose_candidate-IsChoice d class r =
        let resolved = resolve_default order r m in
        elim (Option-cases
          (first_usable order r.default_model resolved m pol (candidates_of r class resolved) [])) [
            | inl e ↦ rw (e, choose_candidate) (choose_primary-IsChoice d r)
            | inr (v, e) ↦
                rw (e, choose_candidate)
                  (chosen_branch v (
                    first_usable-IsEligible r.default_model resolved
                      (candidates_of r class resolved) [] v e))
          ]

    choose_from-IsChoice :
        (d : Decision) (class : TaskClass) (r : Router F)
        → IsChoice (choose_from order m d pol class now r)
    unfolding choose_from
    choose_from-IsChoice d class r =
        let ideal = trim_space (ideal_models r class) in
        elim (Bool-cases (is_empty ideal)) [
          | inl none_set ↦ rw (none_set, choose_from) (choose_candidate-IsChoice _ class r)
          | inr set ↦ elim (Option-cases (usable pol (lookup_canonical order ideal m))) [
            | inl e ↦ rw (set, choose_from, e) (choose_candidate-IsChoice _ class _)
            | inr (v, e) ↦ rw (set, choose_from, e) (chosen_branch v (usable-IsEligible ideal v e))
          ]
        ]

-- A choice over the request's inventory, or over the snapshot if the request names none: if it does
-- not fail, the chosen model is one of that inventory and the policy allows it; it fails only if the
-- policy allows no model of that inventory.
pub choose_with_state-IsChoice :
    {F : Type 0} (order : Order)
    → IsRange order
    → (req : ChatCompletionRequest F) (available : List Text) (pol : ModelPolicy) (st : Option Text)
      (now : Time) (r : Router F)
    → let m = (effective_inventory r available).0 in
      let o = choose_with_state order req available pol st now r in
      (o.failed ≡ false → IsEligible m pol o.decision.chosen_model)
      × (o.failed ≡ true → (e : Text × Text) → Elem e m → allowed e.1 pol ≡ false)
unfolding choose_with_state
choose_with_state-IsChoice order range req available pol st now r =
    let m = (effective_inventory r available).0 in
    elim (Bool-cases (is_empty m)) [
      | inl e ↦
          rw (e, choose_with_state) (λ f. absurd (cc), λ _ x here. absurd (no_entry m x e here))
      | inr e ↦
          rw (e, choose_with_state)
            (choose_from-IsChoice order range m pol now
              (initial_decision req.model (effective_inventory r available).1)
              (request_class req.messages st) r)
    ]
