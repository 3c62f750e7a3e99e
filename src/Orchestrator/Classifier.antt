-- ===== src/Orchestrator/Classifier.antt =====
-- internal/orchestrator/classifier.go: the task class of a prompt, by markers.
use g_lm.Prelude.{Bool, ◌||◌, ◌&&◌, List, [], ◌∷◌, any, leb, length, if◌then◌else◌}
use g_lm.Prelude.Texts.{Text, lit, is_empty, to_lower, trim_space, contains, has_prefix, join}

pub data TaskClass : Type 0 where
  general coding_reasoning light_qa extraction_classification : TaskClass

-- The string of a class.
abbrev pub class_name : TaskClass → Text
class_name general = lit "general"
class_name coding_reasoning = lit "coding_reasoning"
class_name light_qa = lit "light_qa"
class_name extraction_classification = lit "extraction_classification"

abbrev pub coding_markers : List Text
coding_markers =
    lit "```"
    ∷ lit "stack trace"
    ∷ lit "stacktrace"
    ∷ lit "panic:"
    ∷ lit "exception"
    ∷ lit "compile"
    ∷ lit "compiler"
    ∷ lit "build failed"
    ∷ lit "refactor"
    ∷ lit "debug"
    ∷ lit "implement"
    ∷ lit "write a function"
    ∷ lit "fix bug"
    ∷ lit "unit test"
    ∷ lit "golang"
    ∷ lit "typescript"
    ∷ lit "python"
    ∷ lit "sql query"
    ∷ []

abbrev pub extract_markers : List Text
extract_markers =
    lit "extract"
    ∷ lit "classify"
    ∷ lit "label"
    ∷ lit "return json"
    ∷ lit "structured output"
    ∷ lit "regex"
    ∷ lit "fields"
    ∷ lit "entity"
    ∷ lit "categorize"
    ∷ []

abbrev pub question_words : List Text
question_words =
    lit "what"
    ∷ lit "who"
    ∷ lit "when"
    ∷ lit "where"
    ∷ lit "why"
    ∷ lit "how"
    ∷ lit "is "
    ∷ lit "are "
    ∷ lit "can "
    ∷ lit "do "
    ∷ lit "does "
    ∷ []

-- Whether some marker stands in the text.
unfoldable pub marked : List Text → Text → Bool
marked markers t = any (contains t) markers

unfoldable pub asks : Text → Bool
asks t = leb (length t) 120 && any (λ q. has_prefix t q || contains t (lit "?")) question_words

classify_lowered : Text → TaskClass
classify_lowered t =
    if is_empty t
    then general
    else if marked coding_markers t
    then coding_reasoning
    else if marked extract_markers t
    then extraction_classification
    else if asks t
    then light_qa
    else general

unfoldable pub classify_prompt : Text → TaskClass
unfolding classify_lowered to_lower trim_space marked asks any contains has_prefix
classify_prompt text = classify_lowered (to_lower (trim_space text))

-- ClassifyMessages
unfoldable pub classify_messages : List Text → TaskClass
unfolding classify_prompt join
classify_messages messages = classify_prompt (join messages (lit "\n"))
