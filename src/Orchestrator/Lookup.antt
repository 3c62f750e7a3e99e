-- ===== src/Orchestrator/Lookup.antt =====
-- internal/orchestrator/router.go: the map of available models, and the search for a candidate in it.
-- Go ranges over a map in an order of its own: `order c m` is the order in which the search for the
-- candidate `c` ranges over `m`.
pub mod Facts
use g_lm.Prelude.{
  ℕ, Bool, true, false, ◌||◌, ◌==◌, Option, none, some, List, [], ◌∷◌, ◌++◌, any, keep, not,
  if◌then◌else◌, Elem, ◌↔◌,
}
use g_lm.Prelude.Texts.{Text, lit, text_eq, is_empty, to_lower, trim_space}
use g_lm.Prelude.Maps.{Map, lookup, insert}
use g_lm.Orchestrator.Router.{Router}

abbrev pub Order : Type 0
Order = Text → Map Text → Map Text

-- What the language promises of a range: every entry, and no other.
abbrev pub IsRange : Order → Type 0
IsRange order = (c : Text) (m : Map Text) (e : Text × Text) → Elem e (order c m) ↔ Elem e m

to_available_from : List Text → Map Text → Map Text
to_available_from [] m = m
to_available_from (v ∷ vs) m =
    to_available_from vs (if is_empty (trim_space v) then m else insert (to_lower v) v m)

unfoldable pub to_available_map : List Text → Map Text
unfolding to_available_from
to_available_map available = to_available_from available []

is_separator : ℕ → Bool
is_separator c = c == b':' || (c == b'-' || (c == b'_' || c == b'.'))

unfoldable pub normalize_model_id : Text → Text
unfolding is_separator
normalize_model_id s = keep (λ c. not (is_separator c)) (to_lower (trim_space s))

abbrev pub matches_id : Text → Text × Text → Bool
matches_id nc e = text_eq (normalize_model_id e.0) nc || text_eq (normalize_model_id e.1) nc

find_match : Text → Map Text → Option Text
find_match nc [] = none
find_match nc (e ∷ m) = if matches_id nc e then some e.1 else find_match nc m

exact_or_match : Order → Text → Map Text → Option Text → Option Text
unfolding find_match
exact_or_match order c m (some v) = some v
exact_or_match order c m none = find_match (normalize_model_id c) (order c m)

unfoldable pub lookup_canonical : Order → Text → Map Text → Option Text
unfolding exact_or_match
lookup_canonical order [] m = none
lookup_canonical order (c ∷ cs) m = exact_or_match order (c ∷ cs) m (lookup (to_lower (c ∷ cs)) m)

pub resolve_alias : Order → List Text → Map Text → Option Text
resolve_alias order [] m = none
resolve_alias order (a ∷ aliases) m =
    let rest = resolve_alias order aliases m in
    elim (lookup_canonical order a m) [ some v ↦ some v | none ↦ rest ]

-- resolveDefault
unfoldable pub resolve_default : {F : Type 0} → Order → Router F → Map Text → Option Text
unfolding resolve_alias
resolve_default order r m = resolve_alias order (r.default_aliases ++ r.default_model ∷ []) m
