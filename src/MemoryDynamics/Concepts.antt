-- ===== src/MemoryDynamics/Concepts.antt =====
-- internal/memorydynamics/service.go: topConcepts, stableKey and importanceScore, on ASCII texts.
use g_lm.Prelude.{
  ℕ, ◌==◌, Bool, not, ◌&&◌, ◌||◌, List, [], ◌∷◌, ◌++◌, map, any, keep, length, take, leb,
  if◌then◌else◌,
}
use g_lm.Prelude.Int.{ℤ, pos_part}
use g_lm.Prelude.Texts.{Text, lit, text_eq, to_lower, trim_space, contains}
use g_lm.Prelude.Tokens.{fields_func}
use g_lm.Prelude.Ranking.{count_tokens, rank}
use g_lm.Prelude.Floats.{Float64, clamp01}
use g_lm.Idempotency.{hex}

unfoldable pub is_separator : ℕ → Bool
unfolding any
is_separator c = any (λ d. c == d) (lit " \n\t,.:;()\"'")

abbrev pub blocked_words : List Text
blocked_words =
    lit "the"
    ∷ lit "and"
    ∷ lit "for"
    ∷ lit "with"
    ∷ lit "this"
    ∷ lit "that"
    ∷ lit "from"
    ∷ lit "have"
    ∷ lit "your"
    ∷ lit "you"
    ∷ lit "into"
    ∷ lit "will"
    ∷ lit "could"
    ∷ lit "should"
    ∷ lit "would"
    ∷ lit "there"
    ∷ lit "their"
    ∷ []

unfoldable pub counts : Text → Bool
unfolding any text_eq
counts t = leb 4 (length t) && not (any (text_eq t) blocked_words)

-- `sum_1` is sha1.Sum.
unfoldable pub stable_key : (Text → Text) → Text → Text
unfolding trim_space to_lower hex
stable_key sum_1 token =
    let t = trim_space (to_lower token) in
    if leb (length t) 24 then t else take 24 t ++ (lit "-" ++ hex (take 4 (sum_1 t)))

-- A negative limit, at which Go's slice panics, does not occur: see complete_config.
unfoldable pub top_concepts : (Text → Text) → Text → ℤ → List Text
unfolding fields_func is_separator to_lower counts keep count_tokens stable_key rank
top_concepts sum_1 text limit =
    let freq = count_tokens (keep counts (fields_func is_separator (to_lower text))) [] in
    let items = map (λ (e : Text × ℕ). (stable_key sum_1 e.0, e.1)) freq in
    map (λ (e : Text × ℕ). e.0) (take (pos_part limit) (rank items))

abbrev pub sounds_critical : Text → Bool
unfolding contains
sounds_critical t =
    contains t (lit "critical") || contains t (lit "urgent") || contains t (lit "incident")

abbrev pub sounds_decisive : Text → Bool
unfolding contains
sounds_decisive t =
    contains t (lit "decision") || contains t (lit "must") || contains t (lit "required")

abbrev pub sounds_active : Text → Bool
unfolding contains
sounds_active t = contains t (lit "todo") || contains t (lit "action")

module _ (fl : Float64) where
  open fl use {F, milli, add}

  unfoldable pub importance_score : Text → F
  unfolding to_lower sounds_critical sounds_decisive sounds_active clamp01
  importance_score text =
      let t = to_lower text in
      let base = if sounds_critical t then add (milli 450) (milli 250) else milli 450 in
      let raised = if sounds_decisive t then add base (milli 200) else base in
      clamp01 fl (if sounds_active t then add raised (milli 100) else raised)
