-- ===== src/MemoryDynamics/Weights.antt =====
-- internal/memorydynamics/service.go: the figures of the nodes that a turn writes.
use g_lm.Prelude.{
  ℕ, ◌≡◌, ◌≤◌, inl, inr, Bool, true, false, not, ◌||◌, Option, none, some, List, [], ◌∷◌, ◌++◌, All,
  arith, Bool-cases, Option-cases, if◌then◌else◌,
}
use g_lm.Prelude.Int.{ℤ, pos}
use g_lm.Prelude.Texts.{Text, lit, text_eq, is_empty, to_lower, trim_space}
use g_lm.Prelude.Maps.{Map, lookup, insert}
use g_lm.Prelude.Floats.{Float64, IsOrdered, InUnit, clamp01-InUnit}
use g_lm.Model.Records.{Time, MemoryNode}
use g_lm.MemoryDynamics.{Config, NodeStore}
use g_lm.MemoryDynamics.Concepts.{
  sounds_critical, sounds_decisive, sounds_active, top_concepts, importance_score,
}
use g_lm.MemoryDynamics.Turns.{
  nodes_by_key, new_node, node_for, reinforce, write_concepts, update_from_turn,
}

module _ (fl : Float64) where
  open fl use {F, milli, add, mul}

  -- What IEEE 754 gives on the values at hand: a product of figures of the unit interval is one, and
  -- the sums are numbers.
  pub record IsFinite (o : IsOrdered fl) : Type 0 where
    pub mul_unit : (v w : F) → InUnit fl v → InUnit fl w → InUnit fl (mul v w)
    pub add_unit : (v w : F) → InUnit fl v → InUnit fl w → o.IsNumber (add v w)
    pub add_milli : (v : F) (n : ℕ) → o.IsNumber v → o.IsNumber (add v (milli n))

  -- The weight and the importance of a node lie between 0 and 1.
  pub record IsWeighted (n : MemoryNode F) : Type 0 where
    pub weight : InUnit fl n.weight
    pub importance : InUnit fl n.importance

  -- A store whose nodes are weighted, before and after each call.
  pub record IsKept {S : Type 0} (ns : NodeStore F S) (Valid : S → Type 0) : Type 0 where
    pub listed :
        (t sid : Text) (limit : ℤ) (s : S) (nodes : List (MemoryNode F))
        → Valid s
        → ns.list_memory_nodes t sid limit s ≡ some nodes
        → All IsWeighted nodes
    pub written :
        (n : MemoryNode F) (s : S) → Valid s → IsWeighted n → Valid (ns.upsert_memory_node n s).0

  abbrev pub AllWeighted : Map (MemoryNode F) → Type 0
  AllWeighted = All (λ e. IsWeighted e.1)

  pub insert-AllWeighted :
      (k : Text) (n : MemoryNode F) (m : Map (MemoryNode F))
      → IsWeighted n
      → AllWeighted m
      → AllWeighted (insert k n m)
  unfolding insert
  insert-AllWeighted k n [] w h = (w, tt)
  insert-AllWeighted k n ((j, v) ∷ m) w h = elim (Bool-cases (text_eq j k)) [
    | inl e ↦ rw (e, insert) (w, h.1)
    | inr e ↦ rw (e, insert) (h.0, insert-AllWeighted k n m w h.1)
  ]

  nodes_by_key-AllWeighted :
      (ns : List (MemoryNode F)) (m : Map (MemoryNode F))
      → All IsWeighted ns
      → AllWeighted m
      → AllWeighted (nodes_by_key ns m)
  unfolding nodes_by_key
  nodes_by_key-AllWeighted [] m h w = w
  nodes_by_key-AllWeighted (n ∷ ns) m h w =
      nodes_by_key-AllWeighted ns (insert n.key n m) h.1 (insert-AllWeighted n.key n m h.0 w)

  abbrev pub SomeWeighted : Option (MemoryNode F) → Type 0
  SomeWeighted none = Unit
  SomeWeighted (some n) = IsWeighted n

  lookup-SomeWeighted :
      (k : Text) (m : Map (MemoryNode F)) → AllWeighted m → SomeWeighted (lookup k m)
  unfolding lookup
  lookup-SomeWeighted k [] h = tt
  lookup-SomeWeighted k ((j, v) ∷ m) h = elim (Bool-cases (text_eq j k)) [
    | inl e ↦ rw (e, lookup) h.0
    | inr e ↦ rw (e, lookup) (lookup-SomeWeighted k m h.1)
  ]

  milli-InUnit : (o : IsOrdered fl) (n : ℕ) → n ≤ 1000 → InUnit fl (milli n)
  milli-InUnit o n h = (o.milli_mono 0 n (omega arith), o.milli_mono n 1000 h)

  node_for-IsWeighted :
      (o : IsOrdered fl) (t sid : Text) (i : F) (m : Map (MemoryNode F)) (c : Text)
      → InUnit fl i
      → AllWeighted m
      → IsWeighted (node_for fl t sid i m c)
  unfolding node_for new_node
  node_for-IsWeighted o t sid i m c u h =
      let fresh : IsWeighted (new_node fl t sid i c) = record {
        weight = milli-InUnit o 450 (omega arith);
        importance = u;
      } in
      let found = lookup-SomeWeighted c m h in
      elim (Option-cases (lookup c m)) [
        | inl p ↦ rw (p, node_for) fresh
        | inr (n, p) ↦ elim (Bool-cases (is_empty n.key)) [
          | inl e ↦ rw (p, e, node_for) fresh
          | inr e ↦ rw (p, e, node_for) (rw p at found)
        ]
      ]

  module _ (o : IsOrdered fl) (b : IsFinite o) where
    raised_number :
        (c : Bool) (v : F) (n : ℕ) → o.IsNumber v → o.IsNumber (if c then add v (milli n) else v)
    raised_number true v n h = b.add_milli v n h
    raised_number false v n h = h

    importance_score-InUnit : (text : Text) → InUnit fl (importance_score fl text)
    unfolding importance_score
    importance_score-InUnit text =
        let t = to_lower text in
        clamp01-InUnit fl o _ (
          raised_number (sounds_active t) _ 100 (
            raised_number (sounds_decisive t) _ 200
              (raised_number (sounds_critical t) (milli 450) 250 (o.milli_number 450))))

    reinforce-IsWeighted :
        (sid : Text) (i : F) (now : Time) (n : MemoryNode F)
        → InUnit fl i
        → IsWeighted n
        → IsWeighted (reinforce fl sid i now n)
    unfolding reinforce
    reinforce-IsWeighted sid i now n u w =
        let share = λ (v : F) (m : ℕ) (h : InUnit fl v) (k : m ≤ 1000).
          b.mul_unit v (milli m) h (milli-InUnit o m k) in
        record {
          weight = clamp01-InUnit fl o _ (
              b.add_milli _ 80 (
                b.add_unit _ _ (share n.weight 720 w.weight (omega arith))
                  (share i 280 u (omega arith))));
          importance = clamp01-InUnit fl o _ (
              b.add_unit _ _ (share n.importance 650 w.importance (omega arith))
                (share i 350 u (omega arith)));
        }

    write_concepts_keeps :
        {S : Type 0} (ns : NodeStore F S) (Valid : S → Type 0) (t sid : Text) (i : F) (now : Time)
        (m : Map (MemoryNode F)) (cs : List Text) (s : S)
        → IsKept ns Valid
        → InUnit fl i
        → AllWeighted m
        → Valid s
        → Valid (write_concepts fl ns t sid i now m cs s).0
    unfolding write_concepts
    write_concepts_keeps ns Valid t sid i now m [] s k u h v = v
    write_concepts_keeps ns Valid t sid i now m (c ∷ cs) s k u h v =
        let n = reinforce fl sid i now (node_for fl t sid i m c) in
        let v1 = k.written n s v (
          reinforce-IsWeighted sid i now (node_for fl t sid i m c) u
            (node_for-IsWeighted o t sid i m c u h)) in
        let rest =
          write_concepts_keeps ns Valid t sid i now m cs (ns.upsert_memory_node n s).0 k u h v1 in
        elim (Bool-cases (ns.upsert_memory_node n s).1) [
          | inl e ↦ rw (e, write_concepts) rest
          | inr e ↦ rw (e, write_concepts) v1
        ]

    -- A turn keeps every node of the store with a weight and an importance between 0 and 1, also
    -- where the store fails on the way: it writes only such nodes if those that it lists are such.
    pub update_from_turn_keeps :
        {S : Type 0} (ns : NodeStore F S) (Valid : S → Type 0) (sum_1 : Text → Text)
        (cfg : Config F) (now : Time) (t sid user assistant : Text) (s : S)
        → IsKept ns Valid
        → Valid s
        → Valid (update_from_turn fl ns sum_1 cfg now t sid user assistant s).0
    unfolding update_from_turn
    update_from_turn_keeps ns Valid sum_1 cfg now t sid user assistant s k v =
        let combined = trim_space (user ++ (lit "\n" ++ assistant)) in
        let concepts = top_concepts sum_1 combined cfg.update_concepts_per_turn in
        elim (Bool-cases (not cfg.enabled || is_empty combined || is_empty concepts)) [
          | inl e ↦ rw (e, update_from_turn) v
          | inr e ↦ elim (Option-cases (ns.list_memory_nodes t sid (pos 200) s)) [
            | inl p ↦ rw (e, p, update_from_turn) v
            | inr (nodes, p) ↦
                rw (e, p, update_from_turn)
                  (write_concepts_keeps ns Valid t sid (importance_score fl combined) now
                    (nodes_by_key nodes []) concepts s k (importance_score-InUnit combined)
                    (nodes_by_key-AllWeighted nodes [] (k.listed t sid (pos 200) s nodes v p) tt) v)
          ]
        ]
