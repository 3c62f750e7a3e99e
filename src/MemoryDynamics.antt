-- ===== src/MemoryDynamics.antt =====
-- internal/memorydynamics/service.go: the configuration, the scores of the nodes of a session, and the
-- context that is built of them.
use g_lm.Prelude.{
  ℕ, ◌+◌, ◌-◌, ◌==◌, Bool, true, false, not, ◌||◌, Option, none, some, List, [], ◌∷◌, ◌++◌, map,
  any, take, length, ltb, if◌then◌else◌,
}
use g_lm.Prelude.Int.{ℤ, pos, pos_part, leb_ℤ}
use g_lm.Prelude.Texts.{Text, lit, is_empty, join, trim_right}
use g_lm.Prelude.Sorting.{sort_slice, text_less}
use g_lm.Prelude.Floats.{Float64, clamp01}
use g_lm.Model.Chat.{Message, ChatCompletionRequest}
use g_lm.Model.Records.{Time, MemoryNode}
use g_lm.Sessions.Topics.{hours}
pub mod Concepts
pub mod Turns
pub mod Stored
pub mod Weights
mod Tests

pub record Config (F : Type 0) : Type 0 where
  pub enabled : Bool
  pub half_life_hours : F
  pub replay_threshold : F
  pub freshness_window_hours : F
  pub context_node_limit : ℤ
  pub update_concepts_per_turn : ℤ

-- The two methods of the store that the service calls: none of an error to list, false of one to write.
pub record NodeStore (F S : Type 0) : Type 0 where
  pub list_memory_nodes : Text → Text → ℤ → S → Option (List (MemoryNode F))
  pub upsert_memory_node : MemoryNode F → S → S × Bool

pub record ContextResult : Type 0 where
  pub applied : Bool
  pub node_count : ℕ
  pub replay_triggered : Bool
  pub keys : List Text

abbrev pub unapplied : Bool → ContextResult
unapplied applied = record {
  applied = applied;
  node_count = 0;
  replay_triggered = false;
  keys = [];
}

pub record ScoredNode (F : Type 0) : Type 0 where
  pub node : MemoryNode F
  pub score : F
  pub freshness : F

-- The time of a node's last use: of its access, of its change, or of its creation.
unfoldable pub last_use : {F : Type 0} → MemoryNode F → Time
last_use n =
    if n.last_seen_at == 0
    then (if n.updated_at == 0 then n.created_at else n.updated_at)
    else n.last_seen_at

-- time.Time.Sub, which stops at the largest Duration; a negative age counts as none.
abbrev pub elapsed : Time → Time → ℕ
elapsed now last = if ltb 9223372036854775807 (now - last) then 9223372036854775807 else now - last

module _ (fl : Float64) where
  open fl use {F, lt, le, milli, add, sub, mul, div, neg, exp, eq}

  -- New
  unfoldable pub complete_config : Config F → Config F
  complete_config c = record c {
    half_life_hours = if le c.half_life_hours (milli 0) then milli 168000 else c.half_life_hours;
    replay_threshold = if le c.replay_threshold (milli 0) then milli 680 else c.replay_threshold;
    freshness_window_hours =
        if le c.freshness_window_hours (milli 0) then milli 72000 else c.freshness_window_hours;
    context_node_limit = if leb_ℤ c.context_node_limit (pos 0) then pos 5 else c.context_node_limit;
    update_concepts_per_turn =
        if leb_ℤ c.update_concepts_per_turn (pos 0) then pos 6 else c.update_concepts_per_turn;
  }

  -- `ln_2` is math.Ln2.
  unfoldable pub score_node : F → Config F → Time → MemoryNode F → ScoredNode F
  unfolding hours last_use clamp01
  score_node ln_2 cfg now n =
      let lambda = div ln_2 cfg.half_life_hours in
      let age = hours fl (elapsed now (last_use n)) in
      let forget = exp (mul (neg lambda) age) in
      let fresh = exp (div (neg age) cfg.freshness_window_hours) in
      record {
        node = n;
        score = clamp01 fl (
            add (add (mul (mul n.weight forget) (milli 550)) (mul n.importance (milli 300)))
              (mul fresh (milli 150)));
        freshness = fresh;
      }

  unfoldable pub by_score : ScoredNode F → ScoredNode F → Bool
  unfolding text_less
  by_score a b = if eq a.score b.score then text_less a.node.key b.node.key else lt b.score a.score

  unfoldable pub score_loop : F → Config F → Time → List (MemoryNode F) → List (ScoredNode F)
  unfolding score_node
  score_loop ln_2 cfg now [] = []
  score_loop ln_2 cfg now (n ∷ ns) =
      let rest = score_loop ln_2 cfg now ns in
      if is_empty n.key then rest else score_node ln_2 cfg now n ∷ rest

  unfoldable pub score_nodes : F → Config F → Time → List (MemoryNode F) → List (ScoredNode F)
  unfolding score_loop by_score sort_slice
  score_nodes ln_2 cfg now ns = sort_slice by_score (score_loop ln_2 cfg now ns)

  -- f3, over strconv.FormatFloat to three decimals
  unfoldable pub f3 : (F → Text) → F → Text
  unfolding trim_right
  f3 format v = trim_right (trim_right (format v) b'0') b'.'

  unfoldable pub context_line : (F → Text) → ScoredNode F → Text
  unfolding f3
  context_line format sn =
      lit "- key="
      ++ sn.node.key
      ++ lit " label="
      ++ sn.node.label
      ++ lit " score="
      ++ f3 format sn.score
      ++ lit " freshness="
      ++ f3 format sn.freshness

  unfoldable pub context_message : (F → Text) → List (ScoredNode F) → Message
  unfolding context_line join
  context_message format selected = record {
    role = lit "system";
    content =
        lit "memory_dynamics context (deterministic):\n"
        ++ join (map (context_line format) selected) (lit "\n")
        ++ lit "\nUse only as prioritization hints. Do not fabricate details.";
    name = [];
    tool_call_id = [];
    tool_calls = [];
  }

  unfoldable pub context_of :
      (F → Text)
      → Config F
      → List (ScoredNode F)
      → ChatCompletionRequest F
      → ChatCompletionRequest F × ContextResult
  unfolding context_message any
  context_of format cfg selected req = (
    record req { messages = context_message format selected ∷ req.messages },
    record {
      applied = true;
      node_count = length selected;
      replay_triggered = any (λ sn. le cfg.replay_threshold sn.score) selected;
      keys = map (λ (sn : ScoredNode F). sn.node.key) selected;
    },
  )

  module _ {S : Type 0} (ns : NodeStore F S) where
    -- BuildContext; none for the error of the store.
    unfoldable pub build_context :
        F
        → (F → Text)
        → Config F
        → Time
        → Text
        → Text
        → ChatCompletionRequest F
        → S
        → Option (ChatCompletionRequest F × ContextResult)
    unfolding score_nodes context_of
    build_context ln_2 format cfg now tenant_id session_id req s =
        if not cfg.enabled
        then some (req, unapplied false)
        else elim (ns.list_memory_nodes tenant_id session_id (pos 100) s) [
          | none ↦ none
          | some nodes ↦
              let scored = score_nodes ln_2 cfg now nodes in
              if is_empty scored
              then some (req, unapplied true)
              else some (context_of format cfg (take (pos_part cfg.context_node_limit) scored) req)
        ]
