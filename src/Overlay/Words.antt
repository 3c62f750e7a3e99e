-- ===== src/Overlay/Words.antt =====
-- internal/symbolicoverlay/extract.go: words, sentences and keywords of ASCII texts.
use g_lm.Prelude.{
  ℕ, Bool, not, ◌&&◌, ◌||◌, List, [], ◌∷◌, map, any, keep, length, take, leb, ◌==◌, if◌then◌else◌,
}
use g_lm.Prelude.Texts.{Text, lit, text_eq, is_empty, to_lower, trim_space, split}
use g_lm.Prelude.Maps.{Map}
use g_lm.Prelude.Tokens.{fields_func}
use g_lm.Prelude.Ranking.{count_tokens, rank}
use g_lm.Metareasoning.Patterns.{is_digit}

-- The first class of wordRe, and the second.
unfoldable pub starts_word : ℕ → Bool
unfolding is_digit
starts_word c = (leb b'a' c && leb c b'z') || is_digit c

unfoldable pub is_word_byte : ℕ → Bool
unfolding starts_word
is_word_byte c = starts_word c || c == b'_' || c == b'-'

-- The bytes from the first on that may start a word.
unfoldable pub word_of : Text → Text
unfolding starts_word
word_of [] = []
word_of (c ∷ s) = let rest = word_of s in if starts_word c then c ∷ s else rest

-- A match of wordRe is what a run of word bytes has from its first start on, if that is two bytes long.
unfoldable pub tokenize : Text → List Text
unfolding fields_func is_word_byte word_of keep to_lower
tokenize s =
    keep (λ t. leb 2 (length t))
      (map word_of (fields_func (λ c. not (is_word_byte c)) (to_lower s)))

abbrev pub stopwords : List Text
stopwords = map lit (
    "the" ∷ "and" ∷ "for" ∷ "with" ∷ "this" ∷ "that" ∷ "from" ∷ "have" ∷ "your" ∷ "you" ∷ "into"
    ∷ "will" ∷ "could" ∷ "should" ∷ "would" ∷ "there" ∷ "their" ∷ "about" ∷ "when" ∷ "where"
    ∷ "what" ∷ "which" ∷ "need" ∷ "needs" ∷ "using" ∷ "used" ∷ "are" ∷ "was" ∷ "were" ∷ "has"
    ∷ "had" ∷ "our" ∷ "all" ∷ "can" ∷ "not" ∷ [])

unfoldable pub is_stopword : Text → Bool
unfolding any text_eq
is_stopword t = any (text_eq t) stopwords

-- What the loops over tokens do not pass over.
unfoldable pub is_significant : Text → Bool
unfolding is_stopword
is_significant t = not (is_stopword t) && leb 3 (length t)

unfoldable pub top_entities : Map ℕ → List Text
unfolding rank
top_entities freq = map (λ (e : Text × ℕ). e.0) (rank freq)

unfoldable pub top_keywords : Text → ℕ → List Text
unfolding tokenize keep is_significant count_tokens top_entities
top_keywords s n = take n (top_entities (count_tokens (keep is_significant (tokenize s)) []))

abbrev pub ends_sentence : ℕ → Bool
ends_sentence c = c == b'\n' || c == b'!' || c == b'?' || c == b';'

unfoldable pub split_sentences : Text → List Text
unfolding split trim_space keep
split_sentences s =
    let replaced = map (λ c. if ends_sentence c then b'.' else c) s in
    keep (λ p. not (is_empty p)) (map trim_space (split replaced b'.'))
