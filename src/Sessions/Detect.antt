-- ===== src/Sessions/Detect.antt =====
-- internal/state/manager.go: what is read off a text, on ASCII texts.
use mathlib.Core.List.{reverse}
use g_lm.Prelude.{
  ℕ, suc, Bool, not, ◌&&◌, ◌||◌, List, [], ◌∷◌, map, any, keep, length, take, ltb, leb, ◌==◌,
  if◌then◌else◌,
}
use g_lm.Prelude.Texts.{
  Text, lit, text_eq, is_empty, to_lower, trim_space, contains, equal_fold, join,
}
use g_lm.Prelude.Ranking.{count_tokens, rank}
use g_lm.Prelude.Floats.{Float64, clamp01}
use g_lm.Model.Chat.{Message}

unfoldable pub join_user_messages : List Message → Text
unfolding join keep equal_fold
join_user_messages ms =
    join (map (λ (m : Message). m.content) (keep (λ m. equal_fold m.role (lit "user")) ms))
      (10 ∷ [])

abbrev pub coding_words : List Text
coding_words =
    lit "implement"
    ∷ lit "debug"
    ∷ lit "refactor"
    ∷ lit "stack trace"
    ∷ lit "panic"
    ∷ lit "exception"
    ∷ lit "compile"
    ∷ lit "function"
    ∷ lit "code"
    ∷ []

abbrev pub extraction_words : List Text
extraction_words =
    lit "extract"
    ∷ lit "classify"
    ∷ lit "label"
    ∷ lit "return json"
    ∷ lit "fields"
    ∷ lit "categorize"
    ∷ []

unfoldable pub detect_task_mode : Text → Text
unfolding to_lower trim_space any contains
detect_task_mode text =
    let t = to_lower (trim_space text) in
    if is_empty t
    then lit "general"
    else if any (contains t) coding_words
    then lit "coding"
    else if any (contains t) extraction_words
    then lit "extraction"
    else if leb (length t) 120 && contains t (lit "?")
    then lit "qa_light"
    else lit "general"

abbrev pub positive_words : List Text
positive_words =
    lit "good"
    ∷ lit "great"
    ∷ lit "excellent"
    ∷ lit "happy"
    ∷ lit "love"
    ∷ lit "awesome"
    ∷ lit "thanks"
    ∷ lit "perfect"
    ∷ lit "nice"
    ∷ lit "solid"
    ∷ []

abbrev pub negative_words : List Text
negative_words =
    lit "bad"
    ∷ lit "terrible"
    ∷ lit "hate"
    ∷ lit "broken"
    ∷ lit "angry"
    ∷ lit "sad"
    ∷ lit "issue"
    ∷ lit "problem"
    ∷ lit "fail"
    ∷ lit "frustrated"
    ∷ []

abbrev pub urgent_words : List Text
urgent_words =
    lit "urgent"
    ∷ lit "asap"
    ∷ lit "critical"
    ∷ lit "now"
    ∷ lit "immediately"
    ∷ lit "panic"
    ∷ lit "help"
    ∷ []

unfoldable pub count_byte : ℕ → Text → ℕ
count_byte b [] = 0
count_byte b (c ∷ s) = let rest = count_byte b s in if c == b then suc rest else rest

abbrev pub is_letter : ℕ → Bool
is_letter c = (leb b'a' c && leb c b'z') || (leb b'A' c && leb c b'Z')

abbrev pub is_token_char : ℕ → Bool
is_token_char c = is_letter c || (leb b'0' c && leb c b'9') || c == b'_' || c == b'-'

-- wordRe.FindAllString: a letter and the token characters after it, three or more in all. The word
-- that is being read stands reversed in `w`.
unfoldable pub words_after : Text → Text → List Text
words_after w [] = if ltb (length w) 3 then [] else reverse w ∷ []
words_after [] (c ∷ s) = words_after (if is_letter c then c ∷ [] else []) s
words_after (d ∷ w) (c ∷ s) =
    let longer = words_after (c ∷ d ∷ w) s in
    let next = words_after [] s in
    if is_token_char c
    then longer
    else if ltb (length (d ∷ w)) 3
    then next
    else reverse (d ∷ w) ∷ next

abbrev pub stop_words : List Text
stop_words =
    lit "the"
    ∷ lit "and"
    ∷ lit "for"
    ∷ lit "with"
    ∷ lit "this"
    ∷ lit "that"
    ∷ lit "you"
    ∷ lit "your"
    ∷ lit "are"
    ∷ lit "from"
    ∷ lit "have"
    ∷ lit "what"
    ∷ lit "when"
    ∷ lit "where"
    ∷ lit "which"
    ∷ lit "will"
    ∷ lit "about"
    ∷ lit "please"
    ∷ lit "need"
    ∷ []

unfoldable pub extract_topic_tokens : Text → List Text
unfolding trim_space to_lower words_after keep any text_eq rank count_tokens
extract_topic_tokens text =
    let words = keep (λ w. not (any (text_eq w) stop_words)) (words_after [] (to_lower text)) in
    if is_empty (trim_space text)
    then []
    else map (λ (e : Text × ℕ). e.0) (take 3 (rank (count_tokens words [])))

module _ (fl : Float64) where
  open fl use {F, lt, le, milli, of_int, add, sub, mul, div, neg, eq}

  -- Between -1 and 1.
  unfoldable pub clamp : F → F
  clamp v =
      if lt (milli 1000) v
      then milli 1000
      else if lt v (neg (milli 1000))
      then neg (milli 1000)
      else v

  unfoldable pub add_hits : Text → F → List Text → F → F
  unfolding contains
  add_hits t w [] score = score
  add_hits t w (p ∷ ps) score = add_hits t w ps (if contains t p then add score w else score)

  unfoldable pub sub_hits : Text → F → List Text → F → F
  unfolding contains
  sub_hits t w [] score = score
  sub_hits t w (p ∷ ps) score = sub_hits t w ps (if contains t p then sub score w else score)

  unfoldable pub detect_sentiment_score : Text → F
  unfolding to_lower trim_space add_hits sub_hits clamp
  detect_sentiment_score text =
      let t = to_lower text in
      let one = milli 1000 in
      let score = sub_hits t one negative_words (add_hits t one positive_words (milli 0)) in
      if is_empty (trim_space t)
      then milli 0
      else if eq score (milli 0)
      then milli 0
      else clamp (div score (milli 3000))

  unfoldable pub detect_arousal : Text → F
  unfolding to_lower trim_space contains count_byte add_hits clamp01
  detect_arousal text =
      let t = trim_space text in
      let a0 = if contains t (lit "!") then add (milli 350) (milli 180) else milli 350 in
      let a1 = if ltb 1 (count_byte b'?' t) then add a0 (milli 100) else a0 in
      if is_empty t
      then milli 300
      else clamp01 fl (add_hits (to_lower t) (milli 100) urgent_words a1)

  unfoldable pub sentiment_label : F → Text
  sentiment_label v =
      if lt (milli 200) v
      then lit "positive"
      else if lt v (neg (milli 200))
      then lit "negative"
      else lit "neutral"
