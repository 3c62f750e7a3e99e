-- ===== src/MemoryDynamics/Stored.antt =====
-- The store of internal/store/memory/memory.go as the one of internal/memorydynamics/service.go.
use g_lm.Prelude.{
  ◌≡◌, refl, subst, inl, inr, true, Option, none, some, List, [], ◌∷◌, Elem, All, All_of_Elem,
}
use g_lm.Prelude.Texts.{Text}
use g_lm.Prelude.Maps.{Map, lookup, values}
use g_lm.Prelude.Floats.{Float64}
use g_lm.Model.Records.{Time, MemoryNode}
use g_lm.Store.Memory.State.{MemoryStore, memory_key}
use g_lm.Store.Memory.{stamp_node, upsert_memory_node, list_memory_nodes}
use g_lm.Store.Memory.Listing.{list_memory_nodes_lem}
use g_lm.MemoryDynamics.{NodeStore}
use g_lm.MemoryDynamics.Weights.{IsWeighted, IsKept, AllWeighted, insert-AllWeighted}

module _ (fl : Float64) (uuid : Text) (now : Time) where
  open fl use {F}

  unfoldable pub memory_nodes : NodeStore F (MemoryStore F)
  unfolding upsert_memory_node list_memory_nodes
  memory_nodes = record {
    list_memory_nodes = λ t sid limit s. some (list_memory_nodes t sid limit s);
    upsert_memory_node = λ n s. ((upsert_memory_node uuid now n s).0, true);
  }

  abbrev pub Weighted : MemoryStore F → Type 0
  Weighted s = AllWeighted fl s.memory_nodes

  stamp_node-IsWeighted :
      (n : MemoryNode F) (old : Option (MemoryNode F))
      → IsWeighted fl n
      → IsWeighted fl (stamp_node uuid now n old)
  unfolding stamp_node
  stamp_node-IsWeighted n none w = record { weight = w.weight; importance = w.importance }
  stamp_node-IsWeighted n (some old) w = record { weight = w.weight; importance = w.importance }

  values-All : (m : Map (MemoryNode F)) → AllWeighted fl m → All (IsWeighted fl) (values m)
  values-All [] h = tt
  values-All ((k, n) ∷ m) h = (h.0, values-All m h.1)

  All-of_Elem :
      (ns : List (MemoryNode F))
      → ((n : MemoryNode F) → Elem n ns → IsWeighted fl n)
      → All (IsWeighted fl) ns
  All-of_Elem [] h = tt
  All-of_Elem (n ∷ ns) h = (h n (inl refl), All-of_Elem ns (λ a m. h a (inr m)))

  -- The in-memory store
  pub memory_nodes-IsKept : IsKept fl memory_nodes Weighted
  unfolding memory_nodes upsert_memory_node
  memory_nodes-IsKept = record {
    listed = λ t sid limit s ns v h.
        let same : list_memory_nodes t sid limit s ≡ ns = cc (h) in
        subst (All (IsWeighted fl)) same (
          All-of_Elem (list_memory_nodes t sid limit s) (λ n m.
            All_of_Elem (IsWeighted fl) (values s.memory_nodes) (values-All s.memory_nodes v)
              ((list_memory_nodes_lem t sid s).0 limit n m).0));
    written = λ n s v w.
        let idx = memory_key n.tenant_id n.session_id n.key in
        insert-AllWeighted fl idx (stamp_node uuid now n (lookup idx s.memory_nodes)) s.memory_nodes
          (stamp_node-IsWeighted n (lookup idx s.memory_nodes) w) v;
  }
