-- ===== src/Reasoning/Decompose/Planner.antt =====
-- internal/reasoning/decompose.go: the limits of a decomposition, and the subtasks of a planner's
-- answer.
use g_lm.Prelude.{
  ℕ, Bool, false, not, ◌&&◌, ◌||◌, Option, none, some, List, [], ◌∷◌, ◌++◌, map, any, keep, length,
  leb, if◌then◌else◌,
}
use g_lm.Prelude.Int.{pos, pos_part}
use g_lm.Prelude.Texts.{
  Text, lit, text_eq, is_empty, trim_space, equal_fold, has_prefix, trim_prefix, trim_suffix, join,
}
use g_lm.Prelude.Results.{Result, ok, err}
use g_lm.Model.Chat.{
  Json, null, string, array, object, Items, nil, cons, Fields, end, field, ReasoningOptions,
  Message,
}
use g_lm.Reasoning.Config.{Config, at_least, at_most}
use g_lm.Reasoning.Geometry.{asked_or}

pub record DecomposeConfig : Type 0 where
  pub max_subtasks : ℕ
  pub max_depth : ℕ
  pub budget_tokens : ℕ

-- The depth is always 1.
unfoldable pub resolve_decompose_config :
    {F : Type 0} → Config F → Option (ReasoningOptions F) → DecomposeConfig
resolve_decompose_config cfg o = record {
  max_subtasks = pos_part (
      at_most cfg.decompose_max_subtasks
        (at_least (pos 1) (asked_or cfg.decompose_max_subtasks (λ o. o.decompose_max_subtasks) o)));
  max_depth = 1;
  budget_tokens = pos_part (
      at_most cfg.decompose_budget_tokens (
        at_least (pos 200)
          (asked_or cfg.decompose_budget_tokens (λ o. o.decompose_budget_tokens) o)));
}

-- encoding/json into a list of strings: null is the empty string.
unfoldable pub string_items : Items → Option (List Text)
string_items nil = some []
string_items (cons (string s) js) = elim (string_items js) [ none ↦ none | some ts ↦ some (s ∷ ts) ]
string_items (cons null js) = elim (string_items js) [ none ↦ none | some ts ↦ some ([] ∷ ts) ]
string_items (cons j js) = none

unfoldable pub decode_strings : Json → Option (List Text)
unfolding string_items
decode_strings (array js) = string_items js
decode_strings null = some []
decode_strings j = none

abbrev pub elements : Items → List Json
elements nil = []
elements (cons j js) = j ∷ elements js

-- encoding/json into the field of the subtasks: a key may differ in its case, and the last one counts.
unfoldable pub decode_subtasks_after : List Json → Fields → Option (List Json)
unfolding equal_fold
decode_subtasks_after found end = some found
decode_subtasks_after found (field k (array js) fs) =
    let taken = decode_subtasks_after (elements js) fs in
    let left = decode_subtasks_after found fs in
    if equal_fold k (lit "subtasks") then taken else left
decode_subtasks_after found (field k null fs) =
    let taken = decode_subtasks_after [] fs in
    let left = decode_subtasks_after found fs in
    if equal_fold k (lit "subtasks") then taken else left
decode_subtasks_after found (field k j fs) =
    let left = decode_subtasks_after found fs in
    if equal_fold k (lit "subtasks") then none else left

unfoldable pub decode_subtasks : Json → Option (List Json)
unfolding decode_subtasks_after
decode_subtasks (object fs) = decode_subtasks_after [] fs
decode_subtasks null = some []
decode_subtasks j = none

-- The value of a key, the last of those that it has.
unfoldable pub string_field : Text → Fields → Text
unfolding text_eq
string_field key end = []
string_field key (field k (string s) fs) =
    let rest = string_field key fs in if text_eq k key && not (has_key key fs) then s else rest
  where
    has_key : Text → Fields → Bool
    has_key key end = false
    has_key key (field k j fs) = text_eq k key || has_key key fs
string_field key (field k j fs) = string_field key fs

abbrev pub subtask_keys : List Text
subtask_keys = lit "task" ∷ lit "title" ∷ lit "objective" ∷ lit "instruction" ∷ lit "prompt" ∷ []

-- The first of the keys with a string that is not blank.
unfoldable pub first_field : List Text → Fields → Text
unfolding string_field trim_space
first_field [] fs = []
first_field (k ∷ ks) fs =
    let rest = first_field ks fs in
    if is_empty (trim_space (string_field k fs)) then rest else string_field k fs

-- The text of an entry, blank where it has none.
unfoldable pub entry_text : Json → Text
unfolding first_field
entry_text (string s) = s
entry_text (object fs) = first_field subtask_keys fs
entry_text j = []

unfoldable pub add_unique : List Text → Text → List Text
unfolding trim_space any text_eq
add_unique out item =
    let v = trim_space item in if is_empty v || any (text_eq v) out then out else out ++ v ∷ []

-- The loop over the entries, up to the number that is allowed.
unfoldable pub gather : ℕ → List Text → List Text → List Text
unfolding add_unique
gather max out [] = out
gather max out (t ∷ ts) =
    let next = add_unique out t in
    let rest = gather max next ts in if leb max (length next) then next else rest

unfoldable pub clean_answer : Text → Text
unfolding trim_space has_prefix trim_prefix trim_suffix
clean_answer raw =
    let clean = trim_space raw in
    if has_prefix clean (lit "```")
    then trim_space
        (trim_suffix (trim_prefix (trim_prefix clean (lit "```json")) (lit "```")) (lit "```"))
    else clean

abbrev pub texts_or_none : Option (List Text) → List Text
texts_or_none none = []
texts_or_none (some ts) = ts

abbrev pub entries_or_none : Option (List Json) → List Text
unfolding entry_text
entries_or_none none = []
entries_or_none (some js) = map entry_text js

-- The subtasks of a decoded answer: those of a list of strings, or else of the field.
unfoldable pub subtasks_of : ℕ → Json → List Text
unfolding decode_strings decode_subtasks entry_text gather
subtasks_of max j =
    let listed = gather max [] (texts_or_none (decode_strings j)) in
    if is_empty listed then gather max [] (entries_or_none (decode_subtasks j)) else listed

-- parseDecomposeSubtasks, over json.Unmarshal
unfoldable pub parse_decompose_subtasks : (Text → Option Json) → Text → ℕ → Result Text (List Text)
unfolding trim_space clean_answer subtasks_of
parse_decompose_subtasks unmarshal raw max =
    if is_empty (trim_space raw)
    then err (lit "empty planner output")
    else elim (unmarshal (clean_answer raw)) [
      | none ↦ err (lit "unable to parse planner subtasks")
      | some j ↦
          if is_empty (subtasks_of max j)
          then err (lit "unable to parse planner subtasks")
          else ok (subtasks_of max j)
    ]

abbrev pub user_contents : List Message → List Text
unfolding trim_space equal_fold keep
user_contents messages =
    keep (λ c. not (is_empty c))
      (map (λ (m : Message). trim_space m.content)
        (keep (λ m. equal_fold (trim_space m.role) (lit "user")) messages))

unfoldable pub decompose_seed : List Message → Text
unfolding user_contents join
decompose_seed messages =
    if is_empty (user_contents messages)
    then lit "Deliver a complete response for the original request."
    else join (user_contents messages) (lit "\n")
