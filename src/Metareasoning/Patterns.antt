-- ===== src/Metareasoning/Patterns.antt =====
-- internal/metareasoning/evaluator.go: the two regular expressions, as functions on ASCII texts, and
-- the list functions sort.Strings and dedupe.
use g_lm.Prelude.{
  ℕ, zero, suc, Bool, true, false, ◌&&◌, ◌||◌, not, List, [], ◌∷◌, any, leb, ◌==◌, if◌then◌else◌,
}
use g_lm.Prelude.Texts.{Text, lit, text_eq, has_prefix, drop_prefix}
use g_lm.Prelude.Sorting.{sort_slice, text_less}

unfoldable pub is_digit : ℕ → Bool
is_digit c = leb b'0' c && leb c b'9'

-- At most `n` digits, and then the bracket.
unfoldable pub closes : ℕ → Text → Bool
unfolding is_digit
closes n [] = false
closes zero (c ∷ s) = c == b']'
closes (suc n) (c ∷ s) = let rest = closes n s in if is_digit c then rest else c == b']'

unfoldable pub opens_citation : Text → Bool
unfolding is_digit closes
opens_citation (b ∷ d ∷ s) = b == b'[' && is_digit d && closes 2 s
opens_citation _ = false

-- fabricatedCitationRe: a bracket, one to three digits, a bracket
unfoldable pub matches_citation : Text → Bool
unfolding opens_citation
matches_citation [] = false
matches_citation (c ∷ s) = opens_citation (c ∷ s) || matches_citation s

unfoldable pub is_word_char : ℕ → Bool
unfolding is_digit
is_word_char c = is_digit c || (leb b'a' c && leb c b'z') || (leb b'A' c && leb c b'Z') || c == b'_'

unfoldable pub ends_word : Text → Bool
unfolding is_word_char
ends_word [] = true
ends_word (c ∷ s) = not (is_word_char c)

abbrev pub overassertive_words : List Text
overassertive_words =
    lit "always" ∷ lit "never" ∷ lit "guaranteed" ∷ lit "certainly" ∷ lit "undeniably" ∷ []

-- Whether one of the words stands at a boundary from here on, after a word character or not.
unfoldable pub word_from : Bool → Text → Bool
unfolding is_word_char ends_word any has_prefix drop_prefix
word_from inside [] = false
word_from inside (c ∷ s) =
    (not inside
      && any (λ w. has_prefix (c ∷ s) w && ends_word (drop_prefix (c ∷ s) w)) overassertive_words)
    || word_from (is_word_char c) s

-- overassertiveClaimRe
unfoldable pub matches_overassertive : Text → Bool
unfolding word_from
matches_overassertive = word_from false

-- sort.Strings
unfoldable pub sort_strings : List Text → List Text
unfolding sort_slice text_less
sort_strings = sort_slice text_less

-- The loop of dedupe, after the strings of `seen`.
unfoldable pub dedupe_after : List Text → List Text → List Text
unfolding any text_eq
dedupe_after seen [] = []
dedupe_after seen (s ∷ ss) =
    let kept = s ∷ dedupe_after (s ∷ seen) ss in
    let skipped = dedupe_after seen ss in if any (text_eq s) seen then skipped else kept

unfoldable pub dedupe : List Text → List Text
unfolding dedupe_after
dedupe = dedupe_after []
