-- ===== src/Overlay/Extract.antt =====
-- internal/symbolicoverlay/extract.go: the three kinds of symbols of the sources. Each function returns
-- the symbols, their number, and whether some were left out.
use g_lm.Prelude.{
  ℕ, ◌-◌, ◌+◌, Bool, true, false, ◌||◌, not, List, [], ◌∷◌, ◌++◌, map, any, keep, length, take, ltb,
  leb, if◌then◌else◌,
}
use g_lm.Prelude.Texts.{Text, lit, text_eq, is_empty, to_lower, trim_space, contains}
use g_lm.Prelude.Sorting.{sort_slice, text_less}
use g_lm.Prelude.Ranking.{count_tokens}
use g_lm.Metareasoning.Patterns.{sort_strings}
use g_lm.Overlay.Artifact.{LogicLink, LogicMap, Constraint, RiskSignal}
use g_lm.Overlay.Words.{tokenize, is_significant, top_entities, top_keywords, split_sentences}

-- The loop of the three functions dedupe*, by a key.
unfoldable pub distinct_by : {A : Type 0} → (A → Text) → List Text → List A → List A
unfolding any text_eq
distinct_by key seen [] = []
distinct_by key seen (a ∷ rest_of) =
    let kept = a ∷ distinct_by key (key a ∷ seen) rest_of in
    let skipped = distinct_by key seen rest_of in
    if any (text_eq (key a)) seen then skipped else kept

-- Two texts in their order, or `rest` where they are equal.
abbrev pub text_order : Text → Text → Bool → Bool
unfolding text_eq text_less
text_order s t rest = if text_eq s t then rest else text_less s t

-- What fits in `max`, with its number and whether something does not.
abbrev pub fit : {A : Type 0} → ℕ → List A → List A × ℕ × Bool
fit max xs = if ltb max (length xs) then (take max xs, max, true) else (xs, length xs, false)

abbrev pub link_verbs : List Text
link_verbs = map lit (
    "deploy" ∷ "rollback" ∷ "monitor" ∷ "audit" ∷ "secure" ∷ "test" ∷ "validate" ∷ "optimize"
    ∷ "analyze" ∷ "plan" ∷ "design" ∷ "implement" ∷ "review" ∷ "compare" ∷ "fix" ∷ [])

-- The first entity of the tokens on one side, or the empty string.
unfoldable pub nearest_entity : List Text → Text
unfolding is_significant
nearest_entity [] = []
nearest_entity (t ∷ ts) = let rest = nearest_entity ts in if is_significant t then t else rest

-- The loop over the tokens, after those of `before`, the nearest first.
unfoldable pub links_from : List Text → List Text → List LogicLink
unfolding any text_eq nearest_entity
links_from before [] = []
links_from before (t ∷ ts) =
    let from = nearest_entity before in
    let to = nearest_entity ts in
    let rest = links_from (t ∷ before) ts in
    if not (any (text_eq t) link_verbs) || is_empty from || is_empty to || text_eq from to
    then rest
    else record { from = from; relation = t; to = to } ∷ rest

unfoldable pub extract_links : Text → List LogicLink
unfolding tokenize links_from
extract_links text = if ltb (length (tokenize text)) 3 then [] else links_from [] (tokenize text)

abbrev pub flat : {A : Type 0} → (Text → List A) → List Text → List A
flat f [] = []
flat f (s ∷ ss) = f s ++ flat f ss

unfoldable pub link_less : LogicLink → LogicLink → Bool
unfolding text_order
link_less a b = text_order a.from b.from (text_order a.relation b.relation (text_less a.to b.to))

abbrev pub link_key : LogicLink → Text
link_key l = l.from ++ lit "|" ++ l.relation ++ lit "|" ++ l.to

unfoldable pub all_entities : List Text → List Text
unfolding keep is_significant tokenize count_tokens top_entities sort_strings
all_entities sources =
    sort_strings
      (top_entities (count_tokens (flat (λ s. keep is_significant (tokenize s)) sources) []))

unfoldable pub all_links : List Text → List LogicLink
unfolding extract_links sort_slice link_less distinct_by
all_links sources = distinct_by link_key [] (sort_slice link_less (flat extract_links sources))

unfoldable pub extract_logic_map : List Text → ℕ → LogicMap × ℕ × Bool
unfolding all_entities all_links
extract_logic_map sources max =
    let entities = all_entities sources in
    let links = fit (max - length entities) (all_links sources) in
    if leb max 0
    then (record { entities = []; links = [] }, 0, false)
    else if ltb max (length entities)
    then (record { entities = take max entities; links = [] }, max, true)
    else (record { entities = entities; links = links.0 }, length entities + links.1, links.2)

-- The kind of a line in lower case, or the empty string.
unfoldable pub constraint_kind : Text → Text
unfolding contains
constraint_kind line =
    if contains line (lit "must not")
      || contains line (lit "forbidden")
      || contains line (lit "never")
    then lit "prohibited"
    else if contains line (lit "only if")
    then lit "conditional"
    else if contains line (lit "must")
        || contains line (lit "required")
        || contains line (lit "should")
    then lit "required"
    else []

unfoldable pub constraint_of : Text → Constraint
unfolding constraint_kind top_keywords
constraint_of line = record {
  kind = constraint_kind line;
  text = line;
  keywords = top_keywords line 4;
}

unfoldable pub extract_constraints : Text → List Constraint
unfolding split_sentences to_lower trim_space constraint_of keep
extract_constraints s =
    let lines =
      keep (λ l. not (is_empty l)) (map (λ p. trim_space (to_lower p)) (split_sentences s)) in
    keep (λ (c : Constraint). not (is_empty c.kind)) (map constraint_of lines)

unfoldable pub constraint_less : Constraint → Constraint → Bool
unfolding text_order
constraint_less a b = text_order a.kind b.kind (text_less a.text b.text)

abbrev pub constraint_key : Constraint → Text
constraint_key c = c.kind ++ lit "|" ++ c.text

unfoldable pub all_constraints : List Text → List Constraint
unfolding extract_constraints sort_slice constraint_less distinct_by
all_constraints sources =
    distinct_by constraint_key [] (sort_slice constraint_less (flat extract_constraints sources))

unfoldable pub extract_constraint_set : List Text → ℕ → List Constraint × ℕ × Bool
unfolding all_constraints
extract_constraint_set sources max =
    if leb max 0 then ([], 0, false) else fit max (all_constraints sources)

abbrev pub signal : Text → Text → RiskSignal
signal trigger severity = record { trigger = trigger; severity = severity; evidence = trigger }

-- Go ranges over them in any order; the sort makes up for it.
abbrev pub risk_triggers : List RiskSignal
risk_triggers =
    signal (lit "incident") (lit "high")
    ∷ signal (lit "rollback") (lit "high")
    ∷ signal (lit "compliance") (lit "high")
    ∷ signal (lit "security") (lit "high")
    ∷ signal (lit "failure") (lit "high")
    ∷ signal (lit "critical") (lit "high")
    ∷ signal (lit "latency") (lit "medium")
    ∷ []

unfoldable pub extract_risks : Text → List RiskSignal
unfolding keep contains to_lower
extract_risks s = keep (λ (r : RiskSignal). contains (to_lower s) r.trigger) risk_triggers

unfoldable pub risk_less : RiskSignal → RiskSignal → Bool
unfolding text_order
risk_less a b = text_order a.trigger b.trigger (text_less a.severity b.severity)

abbrev pub risk_key : RiskSignal → Text
risk_key r = r.trigger ++ lit "|" ++ r.severity

unfoldable pub all_risks : List Text → List RiskSignal
unfolding extract_risks sort_slice risk_less distinct_by
all_risks sources = distinct_by risk_key [] (sort_slice risk_less (flat extract_risks sources))

unfoldable pub extract_risk_lens : List Text → ℕ → List RiskSignal × ℕ × Bool
unfolding all_risks
extract_risk_lens sources max = if leb max 0 then ([], 0, false) else fit max (all_risks sources)
