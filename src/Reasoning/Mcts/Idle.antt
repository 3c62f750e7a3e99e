-- ===== src/Reasoning/Mcts/Idle.antt =====
-- internal/reasoning/mcts.go: a search that has reached a leaf at the largest depth.
use g_lm.Prelude.{
  ℕ, zero, suc, ◌+◌, ◌≡◌, refl, subst, ap, sym, ◌∙◌, inl, inr, Bool, true, false, Option, none,
  some, List, [], ◌∷◌, leb, Bool-cases, Option-cases, if◌then◌else◌,
}
use g_lm.Prelude.Floats.{Float64}
use g_lm.Model.Chat.{ChatCompletionRequest}
use g_lm.Model.Session.{CognitiveState}
use g_lm.Reasoning.Config.{Config}
use g_lm.Reasoning.Records.{World}
use g_lm.Reasoning.Mcts.Tree.{
  MctsNode, Tree, Children, node, nil, cons, info, child_at, update, update_child, below, rating,
  mcts_uct, mcts_ucb_tuned, best_child, select_mcts_child, select_mcts_leaf, select_below,
}
use g_lm.Reasoning.Mcts.Rollouts.{Search, Progress, set_terminal, rollout, run_rollouts}

module _ (fl : Float64) where
  open fl use {F, lt}

  -- A change at a place leaves what the selection reads of the root of the tree.
  info-update :
      (place : List ℕ) (t : Tree F)
      → ((info (update place set_terminal t)).visits ≡ (info t).visits)
        × ((v2 : Bool) (n e : F)
            → rating fl v2 (info (update place set_terminal t)) n e ≡ rating fl v2 (info t) n e)
  unfolding update rating mcts_uct mcts_ucb_tuned
  info-update [] (node n cs) = (refl, λ v2 m e. refl)
  info-update (i ∷ place) (node n cs) = (refl, λ v2 m e. refl)

  best_child-update :
      (i : ℕ) (place : List ℕ) (v2 : Bool) (n e : F) (j : ℕ) (best : Option ℕ) (score : F)
      (cs : Children F)
      → best_child fl v2 n e j best score (update_child i place set_terminal cs)
        ≡ best_child fl v2 n e j best score cs
  unfolding best_child update
  best_child-update i place v2 n e j best score nil = refl
  best_child-update zero place v2 n e j best score (cons t ts) =
      let same = (info-update place t).1 v2 n e in rw same refl
  best_child-update (suc i) place v2 n e j best score (cons t ts) =
      let s = rating fl v2 (info t) n e in
      let better = best_child-update i place v2 n e (j + 1) (some j) s ts in
      let worse = best_child-update i place v2 n e (j + 1) best score ts in rw (better, worse) refl

  select_mcts_child-update :
      (i : ℕ) (place : List ℕ) (v2 : Bool) (e : F) (n : MctsNode F) (cs : Children F)
      → select_mcts_child fl e v2 (node n (update_child i place set_terminal cs))
        ≡ select_mcts_child fl e v2 (node n cs)
  unfolding select_mcts_child
  select_mcts_child-update i place v2 e n cs = best_child-update i place v2 _ e 0 none _ cs

  abbrev place_of : F → Bool → Children F → Option ℕ → List ℕ
  place_of e v2 cs none = []
  place_of e v2 cs (some i) = i ∷ select_below fl e v2 i cs

  select_of_none :
      (e : F) (v2 : Bool) (n : MctsNode F) (cs : Children F)
      → select_mcts_child fl e v2 (node n cs) ≡ none
      → select_mcts_leaf fl e v2 (node n cs) ≡ []
  unfolding select_mcts_leaf select_mcts_child
  select_of_none e v2 n cs p = ap (place_of e v2 cs) p

  select_of_some :
      (e : F) (v2 : Bool) (n : MctsNode F) (cs : Children F) (i : ℕ)
      → select_mcts_child fl e v2 (node n cs) ≡ some i
      → select_mcts_leaf fl e v2 (node n cs) ≡ i ∷ select_below fl e v2 i cs
  unfolding select_mcts_leaf select_mcts_child
  select_of_some e v2 n cs i p = ap (place_of e v2 cs) p

  abbrev stop : Bool → List ℕ → List ℕ
  stop terminal place = if terminal then [] else place

  -- The rest of a place ends at a node that has become terminal.
  stop-update :
      (n : MctsNode F) (cs : Children F) (place rest : List ℕ)
      → n.terminal ≡ false
      → rest ≡ place
      → stop (info (update place set_terminal (node n cs))).terminal rest ≡ place
  unfolding update
  stop-update n cs [] rest q e = refl
  stop-update n cs (i ∷ place) rest q e = ap (λ b. stop b rest) q ∙ e

  mutual
    unfolding select_mcts_leaf update select_mcts_child

    select-update :
        (e : F) (v2 : Bool) (t : Tree F)
        → let place = select_mcts_leaf fl e v2 t in
          select_mcts_leaf fl e v2 (update place set_terminal t) ≡ place
    select-update e v2 (node n cs) = elim (Option-cases (select_mcts_child fl e v2 (node n cs))) [
      | inl p ↦
          let here = select_of_none e v2 n cs p in
          let there = select_of_none e v2 (record n { terminal = true }) cs p in
          subst (λ pl. select_mcts_leaf fl e v2 (update pl set_terminal (node n cs)) ≡ pl)
            (sym here) there
      | inr (i, p) ↦
          let pl = select_below fl e v2 i cs in
          let here = select_of_some e v2 n cs i p in
          let same = select_mcts_child-update i pl v2 e n cs ∙ p in
          let there = select_of_some e v2 n (update_child i pl set_terminal cs) i same in
          subst (λ pl. select_mcts_leaf fl e v2 (update pl set_terminal (node n cs)) ≡ pl)
            (sym here) (there ∙ ap (λ l. i ∷ l) (below-update e v2 i cs))
    ]

    below-update :
        (e : F) (v2 : Bool) (i : ℕ) (cs : Children F)
        → let place = select_below fl e v2 i cs in
          select_below fl e v2 i (update_child i place set_terminal cs) ≡ place
    below-update e v2 i nil = refl
    below-update e v2 zero (cons (node n ds) ts) =
        let P = λ (pl : List ℕ).
          select_below fl e v2 zero (update_child zero pl set_terminal (cons (node n ds) ts))
          ≡ pl in
        let sel = select_mcts_leaf fl e v2 (node n ds) in
        elim (Bool-cases n.terminal) [
          | inl q ↦ subst P (sym (ap (λ b. stop b sel) q)) refl
          | inr q ↦
              subst P (sym (ap (λ b. stop b sel) q))
                (stop-update n ds sel _ q (select-update e v2 (node n ds)))
        ]
    below-update e v2 (suc i) (cons t ts) = below-update e v2 i ts

  abbrev updated : List ℕ → Option (Tree F) → Option (Tree F)
  updated place none = none
  updated place (some t) = some (update place set_terminal t)

  child_at-update :
      (i : ℕ) (place : List ℕ) (cs : Children F)
      → child_at i (update_child i place set_terminal cs) ≡ updated place (child_at i cs)
  unfolding child_at update
  child_at-update i place nil = refl
  child_at-update zero place (cons t ts) = refl
  child_at-update (suc i) place (cons t ts) = child_at-update i place ts

  abbrev depth_at : ℕ → List ℕ → Option (Tree F) → ℕ
  depth_at d place none = d
  depth_at d place (some t) = (info (below place t)).depth

  depth-below :
      (i : ℕ) (place : List ℕ) (n : MctsNode F) (cs : Children F)
      → (info (below (i ∷ place) (node n cs))).depth ≡ depth_at n.depth place (child_at i cs)
  unfolding below
  depth-below i place n cs = elim (Option-cases (child_at i cs)) [
    | inl p ↦ rw (p, below) refl
    | inr (t, p) ↦ rw (p, below) refl
  ]

  abbrev KeepsDepth : List ℕ → Tree F → Type 0
  KeepsDepth place t =
      (info (below place (update place set_terminal t))).depth ≡ (info (below place t)).depth

  depth-updated :
      (d : ℕ) (place : List ℕ) (o : Option (Tree F))
      → ((t : Tree F) → KeepsDepth place t)
      → depth_at d place (updated place o) ≡ depth_at d place o
  depth-updated d place none h = refl
  depth-updated d place (some t) h = h t

  depth-update : (place : List ℕ) (t : Tree F) → KeepsDepth place t
  unfolding below update
  depth-update [] (node n cs) = refl
  depth-update (i ∷ place) (node n cs) =
      depth-below i place n (update_child i place set_terminal cs)
      ∙ ap (depth_at n.depth place) (child_at-update i place cs)
      ∙ depth-updated n.depth place (child_at i cs) (λ t. depth-update place t)
      ∙ sym (depth-below i place n cs)

module _ (fl : Float64) {S : Type 0} (w : World fl.F S) where
  open fl use {F}

  -- The selection leads to a leaf at the largest depth.
  abbrev pub IsDeep : Search F → Progress F S → Type 0
  IsDeep x p =
      leb x.max_depth (info (below (select_mcts_leaf fl x.exploration x.v2 p.tree) p.tree)).depth
      ≡ true

  rollout-IsDeep :
      (cfg : Config F) (req : ChatCompletionRequest F) (st : CognitiveState F) (x : Search F)
      (i : ℕ) (p : Progress F S)
      → IsDeep x p
      → let q = rollout fl w cfg req st x i p in IsDeep x q × (record q { tree = p.tree } ≡ p)
  unfolding rollout
  rollout-IsDeep cfg req st x i p h =
      let place = select_mcts_leaf fl x.exploration x.v2 p.tree in
      let deep = λ (pl : List ℕ).
        leb x.max_depth (info (below pl (update place set_terminal p.tree))).depth ≡ true in
      let there = ap (leb x.max_depth) (depth-update fl place p.tree) ∙ h in
      rw (h, rollout) (subst deep (sym (select-update fl x.exploration x.v2 p.tree)) there, refl)

  -- Once the selection leads to a leaf at the largest depth, the rollouts that are left change the
  -- marks of the tree alone: none of them calls the model or adds a candidate.
  pub run_rollouts_idle :
      (cfg : Config F) (req : ChatCompletionRequest F) (st : CognitiveState F) (x : Search F)
      (i left : ℕ) (p : Progress F S)
      → IsDeep x p
      → record (run_rollouts fl w cfg req st x i left p) { tree = p.tree } ≡ p
  unfolding run_rollouts
  run_rollouts_idle cfg req st x i zero p h = refl
  run_rollouts_idle cfg req st x i (suc left) p h =
      let q = rollout fl w cfg req st x i p in
      let (deep, same) = rollout-IsDeep cfg req st x i p h in
      let rest = run_rollouts_idle cfg req st x (i + 1) left q deep in
      elim (Option-cases (w.context_error p.world)) [
        | inr (e, o) ↦ rw (o, run_rollouts) refl
        | inl o ↦ elim (Bool-cases q.early_stop) [
          | inl b ↦ rw (o, b, run_rollouts) same
          | inr b ↦
              rw (o, b, run_rollouts)
                (ap (λ (r : Progress F S). record r { tree = p.tree }) rest ∙ same)
        ]
      ]
