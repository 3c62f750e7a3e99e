-- ===== src/Reasoning/Mcts/Tree.antt =====
-- internal/reasoning/mcts.go: the tree of a search. A node stands for a pointer by its place, the
-- numbers of the children on the way from the root; the field Parent is not read.
use g_lm.Prelude.{
  ℕ, zero, suc, ◌+◌, Bool, false, Option, none, some, List, [], ◌∷◌, ◌++◌, length, ltb,
  if◌then◌else◌,
}
use g_lm.Prelude.Texts.{Text, lit, text_eq, to_lower, trim_space}
use g_lm.Prelude.Results.{decimal}
use g_lm.Prelude.Floats.{Float64}

pub record MctsNode (F : Type 0) : Type 0 where
  pub id : Text
  pub path : List Text
  pub visits : ℕ
  pub value : F
  pub prior : F
  pub terminal : Bool
  pub depth : ℕ
  pub output : Text

mutual
  pub data Tree (F : Type 0) : Type 0 where
    node : MctsNode F → Children F → Tree F

  pub data Children (F : Type 0) : Type 0 where
    nil : Children F
    cons : Tree F → Children F → Children F

abbrev pub info : {F : Type 0} → Tree F → MctsNode F
info (node n cs) = n

abbrev pub children : {F : Type 0} → Tree F → Children F
children (node n cs) = cs

pub record ActionPrior (F : Type 0) : Type 0 where
  pub action : Text
  pub prior : F

-- The child with a number, if there is one.
unfoldable pub child_at : {F : Type 0} → ℕ → Children F → Option (Tree F)
child_at n nil = none
child_at zero (cons t ts) = some t
child_at (suc n) (cons t ts) = child_at n ts

-- The tree with a node's children and fields changed at a place.
unfoldable mutual
  pub update : {F : Type 0} → List ℕ → (Tree F → Tree F) → Tree F → Tree F
  update [] f t = f t
  update (i ∷ place) f (node n cs) = node n (update_child i place f cs)

  pub update_child : {F : Type 0} → ℕ → List ℕ → (Tree F → Tree F) → Children F → Children F
  update_child i place f nil = nil
  update_child zero place f (cons t ts) = cons (update place f t) ts
  update_child (suc i) place f (cons t ts) = cons t (update_child i place f ts)

-- The tree below a place; that of the root for a place that is not in the tree.
unfoldable pub below : {F : Type 0} → List ℕ → Tree F → Tree F
unfolding child_at
below [] t = t
below (i ∷ place) (node n cs) = elim (child_at i cs) [ none ↦ node n cs | some t ↦ below place t ]

module _ (fl : Float64) where
  open fl use {F, lt, milli, of_int, add, sub, mul, div, sqrt, log, inf, neg}

  unfoldable pub mcts_uct : MctsNode F → F → F → F
  mcts_uct n parent_visits exploration =
      let q = div n.value (of_int n.visits) in
      let u = mul exploration (sqrt (div (log parent_visits) (of_int (1 + n.visits)))) in
      if ltb 0 n.visits then add (add q u) (mul (milli 10) n.prior) else inf

  unfoldable pub mcts_ucb_tuned : MctsNode F → F → F → F
  mcts_ucb_tuned n parent_visits exploration =
      let mean = div n.value (of_int n.visits) in
      let variance = mul mean (sub (milli 1000) mean) in
      let wide =
        add variance (sqrt (div (mul (milli 2000) (log parent_visits)) (of_int n.visits))) in
      let bound = if lt (milli 250) wide then milli 250 else wide in
      let u = mul exploration (sqrt (mul (div (log parent_visits) (of_int n.visits)) bound)) in
      if ltb 0 n.visits then add (add mean u) (mul (milli 20) n.prior) else inf

  unfoldable pub rating : Bool → MctsNode F → F → F → F
  unfolding mcts_uct mcts_ucb_tuned
  rating v2 n parent_visits exploration =
      if v2
      then mcts_ucb_tuned n parent_visits exploration
      else mcts_uct n parent_visits exploration

  -- The loop over the children from the number `i` on, with the best so far.
  unfoldable pub best_child : Bool → F → F → ℕ → Option ℕ → F → Children F → Option ℕ
  unfolding rating
  best_child v2 parent_visits exploration i best best_score nil = best
  best_child v2 parent_visits exploration i best best_score (cons t ts) =
      let score = rating v2 (info t) parent_visits exploration in
      let better = best_child v2 parent_visits exploration (i + 1) (some i) score ts in
      let worse = best_child v2 parent_visits exploration (i + 1) best best_score ts in
      if lt best_score score then better else worse

  -- selectMCTSChild, as the number of the child
  unfoldable pub select_mcts_child : F → Bool → Tree F → Option ℕ
  unfolding best_child
  select_mcts_child exploration v2 t =
      let visits = (info t).visits in
      best_child v2 (of_int (if ltb 1 visits then visits else 1)) exploration 0 none (neg inf)
        (children t)

  -- selectMCTSLeaf, as the place of the leaf
  unfoldable mutual
    unfolding select_mcts_child

    pub select_mcts_leaf : F → Bool → Tree F → List ℕ
    select_mcts_leaf exploration v2 (node n cs) =
        elim (select_mcts_child exploration v2 (node n cs)) [
          | none ↦ []
          | some i ↦ i ∷ select_below exploration v2 i cs
        ]

    -- The rest of the place, below the child with a number.
    pub select_below : F → Bool → ℕ → Children F → List ℕ
    select_below exploration v2 i nil = []
    select_below exploration v2 zero (cons t ts) =
        let rest = select_mcts_leaf exploration v2 t in if (info t).terminal then [] else rest
    select_below exploration v2 (suc i) (cons t ts) = select_below exploration v2 i ts

  unfoldable pub sum_priors : F → List (ActionPrior F) → F
  sum_priors sum [] = sum
  sum_priors sum (a ∷ actions) = sum_priors (add sum a.prior) actions

  -- The new children from the number `i` on.
  unfoldable pub new_children : MctsNode F → F → ℕ → List (ActionPrior F) → Children F
  unfolding decimal
  new_children n total i [] = nil
  new_children n total i (a ∷ actions) =
      cons
        (node
          (record {
            id = n.id ++ (lit "-" ++ decimal (i + 1));
            path = n.path ++ a.action ∷ [];
            visits = 0;
            value = milli 0;
            prior = div a.prior total;
            terminal = false;
            depth = n.depth + 1;
            output = [];
          })
          nil)
        (new_children n total (i + 1) actions)

  abbrev append_children : Children F → Children F → Children F
  append_children nil ds = ds
  append_children (cons t ts) ds = cons t (append_children ts ds)

  unfoldable pub expand_mcts_leaf : List (ActionPrior F) → Tree F → Tree F
  unfolding sum_priors new_children
  expand_mcts_leaf actions (node n cs) =
      let sum = sum_priors (milli 0) actions in
      let total = if fl.le sum (milli 0) then of_int (length actions) else sum in
      node n (append_children cs (new_children n total 0 actions))

  abbrev credit : F → MctsNode F → MctsNode F
  credit score n = record n { visits = n.visits + 1; value = add n.value score }

  -- backpropagateMCTS along the nodes from the root to a place
  unfoldable mutual
    pub backpropagate_mcts : F → List ℕ → Tree F → Tree F
    backpropagate_mcts score [] (node n cs) = node (credit score n) cs
    backpropagate_mcts score (i ∷ place) (node n cs) =
        node (credit score n) (backpropagate_child score i place cs)

    pub backpropagate_child : F → ℕ → List ℕ → Children F → Children F
    backpropagate_child score i place nil = nil
    backpropagate_child score zero place (cons t ts) = cons (backpropagate_mcts score place t) ts
    backpropagate_child score (suc i) place (cons t ts) =
        cons t (backpropagate_child score i place ts)

  abbrev prior : Text → ℕ → ActionPrior F
  prior action n = record { action = action; prior = milli n }

  unfoldable pub mcts_action_priors : Text → List (ActionPrior F)
  unfolding to_lower trim_space text_eq
  mcts_action_priors task =
      let t = to_lower (trim_space task) in
      if text_eq t (lit "coding")
      then prior (lit "evidence_first") 500
        ∷ prior (lit "plan_first") 320
        ∷ prior (lit "risk_first") 180
        ∷ []
      else if text_eq t (lit "extraction")
      then prior (lit "evidence_first") 460
        ∷ prior (lit "plan_first") 300
        ∷ prior (lit "risk_first") 240
        ∷ []
      else prior (lit "plan_first") 400
        ∷ prior (lit "risk_first") 340
        ∷ prior (lit "evidence_first") 260
        ∷ []

  abbrev pub new_root : Tree F
  new_root =
      node
        (record {
          id = lit "mcts-root";
          path = [];
          visits = 0;
          value = milli 0;
          prior = milli 1000;
          terminal = false;
          depth = 0;
          output = [];
        })
        nil
