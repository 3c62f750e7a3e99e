-- ===== src/Orchestrator/Lookup/Facts.antt =====
-- internal/orchestrator/router.go: what the map of available models holds, and what a search finds.
use g_lm.Prelude.{
  true, false, Option, none, some, List, [], ◌∷◌, if◌then◌else◌, Elem, ◌≡◌, ◌⊎◌, inl, inr, refl,
  arith, Bool-cases, Option-cases, ◌≢◌,
}
use g_lm.Prelude.Texts.{Text, text_eq_iff, is_empty, to_lower, trim_space}
use g_lm.Prelude.Maps.{Map, lookup, insert, lookup-insert, Elem-insert, Elem-of_lookup}
use g_lm.Orchestrator.Lookup.{
  Order, IsRange, to_available_map, to_available_from, normalize_model_id, matches_id, find_match,
  exact_or_match, lookup_canonical, resolve_alias,
}

to_available_from_sound :
    (vs : List Text) (m : Map Text) (k v : Text)
    → Elem (k, v) (to_available_from vs m)
    → Elem (k, v) m ⊎ (Elem v vs × (k ≡ to_lower v) × (is_empty (trim_space v) ≡ false))
unfolding to_available_from
to_available_from_sound [] m k v h = inl h
to_available_from_sound (w ∷ vs) m k v h =
    elim (to_available_from_sound vs
      (if is_empty (trim_space w) then m else insert (to_lower w) w m) k v h) [
        | inl e ↦ ground (arith, Elem-insert (to_lower w) k w v m)
        | inr (here, low, some_text) ↦ inr (inr here, low, some_text)
      ]

to_available_from-lookup :
    (vs : List Text) (m : Map Text) (k : Text)
    → (lookup k m ≢ none)
      ⊎ ((v : Text) × Elem v vs × (to_lower v ≡ k) × (is_empty (trim_space v) ≡ false))
    → lookup k (to_available_from vs m) ≢ none
unfolding to_available_from
to_available_from-lookup [] m k (inl h) = h
to_available_from-lookup [] m k (inr (v, h, _, _)) = absurd h
to_available_from-lookup (w ∷ vs) m k h =
    to_available_from-lookup vs _ k
      (grind (arith, lookup-insert (to_lower w) k w m, text_eq_iff (to_lower w) k))

-- The map has an entry for a name exactly if a listed model that is not blank has that name in lower
-- case; and each entry's value is such a model, under its own name in lower case.
pub to_available_map_lem :
    (vs : List Text)
    → ((k v : Text)
        → Elem (k, v) (to_available_map vs)
        → Elem v vs × (k ≡ to_lower v) × (is_empty (trim_space v) ≡ false))
      × ((v : Text)
          → Elem v vs
          → is_empty (trim_space v) ≡ false
          → lookup (to_lower v) (to_available_map vs) ≢ none)
unfolding to_available_map lookup
to_available_map_lem vs = (
  λ k v h. elim (to_available_from_sound vs [] k v h) [ inl e ↦ absurd e | inr r ↦ r ],
  λ v h b. to_available_from-lookup vs [] (to_lower v) (inr (v, h, refl, b)),
)

find_match_sound :
    (nc : Text) (m : Map Text) (v : Text)
    → find_match nc m ≡ some v
    → (k : Text) × Elem (k, v) m × (matches_id nc (k, v) ≡ true)
unfolding find_match
find_match_sound nc [] v h = absurd (cc)
find_match_sound nc (e ∷ m) v h = elim (Bool-cases (matches_id nc e)) [
  | inl t ↦ (e.0, ground arith, ground arith)
  | inr f ↦ let (k, here, t) = find_match_sound nc m v (rw (f, find_match) at h) in (k, inr here, t)
]

find_match_complete :
    (nc : Text) (m : Map Text) (e : Text × Text)
    → find_match nc m ≡ none
    → Elem e m
    → matches_id nc e ≡ false
unfolding find_match
find_match_complete nc [] e h m = absurd m
find_match_complete nc (x ∷ xs) e h m = ground (arith, find_match_complete nc xs e)

named_sound :
    (order : Order)
    → IsRange order
    → (c : Text) (m : Map Text) (o : Option Text) (v : Text) → lookup (to_lower c) m ≡ o
    → exact_or_match order c m o ≡ some v
    → (k : Text) × Elem (k, v) m
      × ((k ≡ to_lower c) ⊎ (matches_id (normalize_model_id c) (k, v) ≡ true))
unfolding exact_or_match
named_sound order range c m (some w) v e h =
    (to_lower c, Elem-of_lookup (to_lower c) v m (ground arith), inl refl)
named_sound order range c m none v e h =
    let (k, here, t) = find_match_sound (normalize_model_id c) (order c m) v h in
    (k, (range c m (k, v)).0 here, inr t)

named_complete :
    (order : Order)
    → IsRange order
    → (c : Text) (m : Map Text) (o : Option Text) → lookup (to_lower c) m ≡ o
    → exact_or_match order c m o ≡ none
    → (lookup (to_lower c) m ≡ none)
      × ((e : Text × Text) → Elem e m → matches_id (normalize_model_id c) e ≡ false)
unfolding exact_or_match
named_complete order range c m (some w) e h = absurd (cc)
named_complete order range c m none e h =
    (e, λ x here. find_match_complete (normalize_model_id c) (order c m) x h ((range c m x).1 here))

-- A search that finds a model finds the value of an entry, either under the candidate's lower-case
-- name or with the same normalized identifier; a search for a name that finds none leaves no entry
-- of either kind.
pub lookup_canonical_lem :
    (order : Order)
    → IsRange order
    → (c : Text) (m : Map Text)
    → ((v : Text)
        → lookup_canonical order c m ≡ some v
        → (k : Text) × Elem (k, v) m
          × ((k ≡ to_lower c) ⊎ (matches_id (normalize_model_id c) (k, v) ≡ true)))
      × (c ≢ []
          → lookup_canonical order c m ≡ none
          → (lookup (to_lower c) m ≡ none)
            × ((e : Text × Text) → Elem e m → matches_id (normalize_model_id c) e ≡ false))
unfolding lookup_canonical
lookup_canonical_lem order range [] m = (λ v h. absurd (cc), λ ne h. absurd (ne refl))
lookup_canonical_lem order range (c ∷ cs) m = (
  λ v h. named_sound order range (c ∷ cs) m _ v refl h,
  λ _ h. named_complete order range (c ∷ cs) m _ refl h,
)

-- The default resolves to the value of an entry.
pub resolve_alias_sound :
    (order : Order)
    → IsRange order
    → (aliases : List Text) (m : Map Text) (v : Text) → resolve_alias order aliases m ≡ some v
    → (k : Text) × Elem (k, v) m
unfolding resolve_alias
resolve_alias_sound order range [] m v h = absurd (cc)
resolve_alias_sound order range (a ∷ as') m v h = elim (Option-cases (lookup_canonical order a m)) [
  | inl e ↦ resolve_alias_sound order range as' m v (rw (e, resolve_alias) at h)
  | inr (w, e) ↦
      let (k, here, _) = (lookup_canonical_lem order range a m).0 v (ground arith) in (k, here)
]
