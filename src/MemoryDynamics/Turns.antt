-- ===== src/MemoryDynamics/Turns.antt =====
-- internal/memorydynamics/service.go: UpdateFromTurn.
use g_lm.Prelude.{Bool, true, false, not, ◌||◌, none, some, List, [], ◌∷◌, ◌++◌, if◌then◌else◌}
use g_lm.Prelude.Int.{pos, ◌+ℤ◌}
use g_lm.Prelude.Texts.{Text, lit, is_empty, trim_space}
use g_lm.Prelude.Maps.{Map, lookup, insert}
use g_lm.Prelude.Floats.{Float64, clamp01}
use g_lm.Model.Chat.{string}
use g_lm.Model.Records.{Time, MemoryNode}
use g_lm.MemoryDynamics.{Config, NodeStore}
use g_lm.MemoryDynamics.Concepts.{top_concepts, importance_score}

-- The nodes by their keys, the last of those with the same key.
unfoldable pub nodes_by_key :
    {F : Type 0} → List (MemoryNode F) → Map (MemoryNode F) → Map (MemoryNode F)
unfolding insert
nodes_by_key [] m = m
nodes_by_key (n ∷ ns) m = nodes_by_key ns (insert n.key n m)

module _ (fl : Float64) where
  open fl use {F, milli, add, mul}

  unfoldable pub new_node : Text → Text → F → Text → MemoryNode F
  new_node tenant_id session_id importance c = record {
    id = [];
    tenant_id = tenant_id;
    session_id = session_id;
    key = c;
    label = c;
    metadata = (lit "session_id", string session_id) ∷ [];
    weight = milli 450;
    importance = importance;
    access_count = pos 0;
    last_seen_at = 0;
    created_at = 0;
    updated_at = 0;
  }

  -- The node of a concept before the turn.
  unfoldable pub node_for : Text → Text → F → Map (MemoryNode F) → Text → MemoryNode F
  unfolding lookup new_node
  node_for tenant_id session_id importance known c = elim (lookup c known) [
    | none ↦ new_node tenant_id session_id importance c
    | some n ↦ if is_empty n.key then new_node tenant_id session_id importance c else n
  ]

  unfoldable pub reinforce : Text → F → Time → MemoryNode F → MemoryNode F
  unfolding clamp01 insert ◌+ℤ◌
  reinforce session_id importance now n = record n {
    metadata = insert (lit "session_id") (string session_id) n.metadata;
    weight =
        clamp01 fl (add (add (mul n.weight (milli 720)) (mul importance (milli 280))) (milli 80));
    importance = clamp01 fl (add (mul n.importance (milli 650)) (mul importance (milli 350)));
    access_count = n.access_count +ℤ pos 1;
    last_seen_at = now;
  }

  module _ {S : Type 0} (ns : NodeStore F S) where
    -- The loop over the concepts, up to the first error of the store.
    unfoldable pub write_concepts :
        Text → Text → F → Time → Map (MemoryNode F) → List Text → S → S × Bool
    unfolding node_for reinforce
    write_concepts tenant_id session_id importance now known [] s = (s, true)
    write_concepts tenant_id session_id importance now known (c ∷ cs) s =
        let n = node_for tenant_id session_id importance known c in
        let wrote = ns.upsert_memory_node (reinforce session_id importance now n) s in
        let rest = write_concepts tenant_id session_id importance now known cs wrote.0 in
        if wrote.1 then rest else (wrote.0, false)

    -- UpdateFromTurn; false for an error of the store.
    unfoldable pub update_from_turn :
        (Text → Text) → Config F → Time → Text → Text → Text → Text → S → S × Bool
    unfolding trim_space top_concepts importance_score nodes_by_key write_concepts
    update_from_turn sum_1 cfg now tenant_id session_id user_text assistant_text s =
        let combined = trim_space (user_text ++ (lit "\n" ++ assistant_text)) in
        let concepts = top_concepts sum_1 combined cfg.update_concepts_per_turn in
        let importance = importance_score fl combined in
        if not cfg.enabled || is_empty combined || is_empty concepts
        then (s, true)
        else elim (ns.list_memory_nodes tenant_id session_id (pos 200) s) [
          | none ↦ (s, false)
          | some existing ↦
              write_concepts tenant_id session_id importance now (nodes_by_key existing []) concepts
                s
        ]
