-- ===== src/MemoryDynamics/Tests.antt =====
-- The memory of a session at concrete inputs, in thousandths.
use g_lm.Prelude.{ℕ, ◌≡◌, refl, true, [], ◌∷◌, map}
use g_lm.Prelude.Int.{pos}
use g_lm.Prelude.Texts.{Text, lit}
use g_lm.Prelude.Maps.{values}
use g_lm.Prelude.Floats.{thousandths, thousandths-IsOrdered, mul_small, always}
use g_lm.Model.Records.{MemoryNode}
use g_lm.Store.Memory.State.{MemoryStore, memory_key}
use g_lm.Store.Memory.{new, upsert_memory_node, list_memory_nodes}
use g_lm.MemoryDynamics.{Config, f3}
use g_lm.MemoryDynamics.Concepts.{top_concepts, importance_score}
use g_lm.MemoryDynamics.Turns.{update_from_turn}
use g_lm.MemoryDynamics.Weights.{IsFinite, update_from_turn_keeps}
use g_lm.MemoryDynamics.Stored.{memory_nodes, Weighted, memory_nodes-IsKept}

abbrev no_digest : Text → Text
no_digest t = []

top_concepts_test :
    top_concepts no_digest (lit "Deploy the gateway; the Gateway (staging)\nmust\tdeploy") (pos 2)
    ≡ lit "deploy" ∷ lit "gateway" ∷ []
unfolding top_concepts
top_concepts_test = refl

importance_score_test : importance_score thousandths (lit "Urgent: a decision") ≡ 900
unfolding importance_score
importance_score_test = refl

f3_test : f3 thousandths (λ v. lit "0.500") 500 ≡ lit "0.5"
unfolding f3
f3_test = refl

abbrev config : Config ℕ
config = record {
  enabled = true;
  half_life_hours = 168000;
  replay_threshold = 680;
  freshness_window_hours = 72000;
  context_node_limit = pos 5;
  update_concepts_per_turn = pos 6;
}

abbrev empty_store : MemoryStore ℕ
unfolding new
empty_store = new

abbrev after_turn : MemoryStore ℕ
unfolding update_from_turn memory_nodes
after_turn =
    (update_from_turn thousandths (memory_nodes thousandths (lit "u1") 9) no_digest config 8
      (lit "t1") (lit "s1") (lit "urgent deploy") (lit "deploy done") empty_store).0

after_turn_test :
    map {B = Text × ℕ} (λ (n : MemoryNode ℕ). (n.key, n.weight)) (values after_turn.memory_nodes)
    ≡ (lit "deploy", 600) ∷ (lit "done", 600) ∷ (lit "urgent", 600) ∷ []
unfolding update_from_turn memory_nodes upsert_memory_node list_memory_nodes memory_key empty_store
after_turn_test = refl

thousandths-IsFinite : IsFinite thousandths thousandths-IsOrdered
thousandths-IsFinite = record {
  mul_unit = λ v w h k. (always _, mul_small v w h.1 k.1);
  add_unit = λ v w h k. tt;
  add_milli = λ v n h. tt;
}

empty_store-Weighted : Weighted thousandths (lit "u1") 9 empty_store
unfolding new
empty_store-Weighted = tt

update_from_turn_keeps_example : Weighted thousandths (lit "u1") 9 (
    (update_from_turn thousandths
      (memory_nodes thousandths (lit "u1") 9)
      no_digest
      config
      8
      (lit "t1")
      (lit "s1")
      (lit "urgent deploy")
      (lit "deploy done")
      empty_store).0)
update_from_turn_keeps_example =
    update_from_turn_keeps thousandths thousandths-IsOrdered thousandths-IsFinite
      (memory_nodes thousandths (lit "u1") 9) (Weighted thousandths (lit "u1") 9) no_digest config 8
      (lit "t1") (lit "s1") (lit "urgent deploy") (lit "deploy done") empty_store
      (memory_nodes-IsKept thousandths (lit "u1") 9) empty_store-Weighted
