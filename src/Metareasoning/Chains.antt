-- ===== src/Metareasoning/Chains.antt =====
-- internal/metareasoning/chain.go: how far a chain of evaluators runs.
use g_lm.Prelude.{
  ℕ, ◌+◌, zero, suc, ◌≡◌, ◌≤◌, ◌⊎◌, ◌++◌, refl, inl, inr, true, false, Option, none, some, List, [],
  ◌∷◌, arith, length, take, length-take-le, Option-cases, map, ap, ◌∙◌,
}
use g_lm.Prelude.Int.{pos, leb_ℤ}
use g_lm.Prelude.Texts.{Text, lit, text_eq_iff, equal_fold}
use g_lm.Prelude.Floats.{Float64}
use g_lm.Model.Chat.{ChatCompletionRequest, ChatCompletionResponse}
use g_lm.Model.Session.{CognitiveState}
use g_lm.Metareasoning.{Evaluator, Result, evaluate}
use g_lm.Metareasoning.Signals.{Trace}
use g_lm.Metareasoning.Chain.{
  ChainNode, normalize_evaluator_name, depth_limit, apply_evaluator_lens, node_of, stop_at,
  unchanged, run_chain, evaluate_chain,
}

depth_limit_le : (d n : ℕ) → (depth_limit (pos d) n ≤ d) × (depth_limit (pos d) n ≤ n)
unfolding depth_limit
depth_limit_le d n = ground arith

depth_limit-suc : (d n : ℕ) → depth_limit (pos (suc d)) (suc n) ≡ suc (depth_limit (pos d) n)
unfolding depth_limit
depth_limit-suc d n = ground arith

depth_positive : (d : ℕ) → leb_ℤ (pos (suc d)) (pos 0) ≡ false
depth_positive d = ground arith

-- A shorter prefix does not see that the list was cut.
take-map-take :
    {A B : Type 0} (f : A → B) (m n : ℕ) (xs : List A)
    → m ≤ length (take n xs)
    → take m (map f (take n xs)) ≡ take m (map f xs)
take-map-take f zero n xs h = refl
take-map-take f (suc m) zero xs h = absurd (omega (arith, h))
take-map-take f (suc m) (suc n) [] h = refl
take-map-take f (suc m) (suc n) (x ∷ xs) h =
    ap (λ ys. f x ∷ ys) (take-map-take f m n xs (omega (arith, h)))

module _ (fl : Float64) where
  open fl use {F, lt, le, milli, sub, abs}

  -- What ends a run at a node, each told by the node and the one before it.
  abbrev IsRejected : ChainNode F → Type 0
  IsRejected n = (n.name ≡ lit "policy") × (equal_fold n.decision (lit "reject") ≡ true)

  abbrev IsLow : ChainNode F → Type 0
  IsLow n = le n.risk_score (milli 300) ≡ true

  abbrev IsStuck : Option (ChainNode F) → ChainNode F → Type 0
  IsStuck none n = ⊥
  IsStuck (some p) n =
      (lt (abs (sub p.risk_score n.risk_score)) (milli 10) ≡ true)
      × (lt (abs (sub p.confidence n.confidence)) (milli 10) ≡ true)

  -- A node at which the run goes on.
  abbrev GoesOn : Option (ChainNode F) → ChainNode F → Type 0
  GoesOn prev n = ¬ (IsRejected n) × ¬ (IsLow n) × ¬ (IsStuck prev n)

  -- Why a run over `size` names stops with `n` nodes, the last of them after `prev`.
  abbrev StopsFor : ℕ → ℕ → Option (ChainNode F) → ChainNode F → Text → Type 0
  StopsFor size n prev node reason =
      ((reason ≡ lit "policy_reject") × IsRejected node)
      ⊎ ((reason ≡ lit "risk_below_threshold") × ¬ (IsRejected node) × IsLow node)
      ⊎ ((reason ≡ lit "no_improvement") × ¬ (IsRejected node) × ¬ (IsLow node) × IsStuck prev node)
      ⊎ ((reason ≡ lit "budget_exhausted") × (n ≡ size) × GoesOn prev node)

  -- The nodes of a run after `prev`, over `size` names, of which `n` have run.
  abbrev pub Stops : ℕ → ℕ → Option (ChainNode F) → List (ChainNode F) → Text → Type 0
  Stops size n prev [] reason = ⊥
  Stops size n prev (node ∷ []) reason = StopsFor size (suc n) prev node reason
  Stops size n prev (node ∷ next ∷ rest) reason =
      GoesOn prev node × Stops size (suc n) (some node) (next ∷ rest) reason

  stop_at-some :
      (prev : Option (ChainNode F)) (node : ChainNode F) (reason : Text) (size n : ℕ)
      → stop_at fl prev node ≡ some reason
      → StopsFor size n prev node reason
  unfolding stop_at unchanged
  stop_at-some none node reason size n h = ground (arith, text_eq_iff node.name (lit "policy"))
  stop_at-some (some p) node reason size n h = ground (arith, text_eq_iff node.name (lit "policy"))

  stop_at-none :
      (prev : Option (ChainNode F)) (node : ChainNode F)
      → stop_at fl prev node ≡ none
      → GoesOn prev node
  unfolding stop_at unchanged
  stop_at-none none node h = ground (arith, text_eq_iff node.name (lit "policy"))
  stop_at-none (some p) node h = ground (arith, text_eq_iff node.name (lit "policy"))

  Stops-cons :
      (size n : ℕ) (prev : Option (ChainNode F)) (node : ChainNode F) (nodes : List (ChainNode F))
      (reason : Text)
      → GoesOn prev node
      → Stops size (suc n) (some node) nodes reason
      → Stops size n prev (node ∷ nodes) reason
  Stops-cons size n prev node [] reason g h = absurd h
  Stops-cons size n prev node (next ∷ rest) reason g h = (g, h)

  -- The last node holds the final figures.
  abbrev pub EndsIn : List (ChainNode F) → Result F → Type 0
  EndsIn nodes final =
      (init : List (ChainNode F)) × (name : Text) × (nodes ≡ init ++ node_of fl name final ∷ [])

  module _ (req : ChatCompletionRequest F) (resp : ChatCompletionResponse) where
    run_chain-Stops :
        (prev : Option (ChainNode F)) (start : Result F) (v : Text) (vs : List Text) (size n : ℕ)
        → size ≡ n + length (v ∷ vs)
        → let r = run_chain fl req resp prev start (v ∷ vs) in
          Stops size n prev r.nodes r.stop_reason
    unfolding run_chain
    run_chain-Stops prev start v [] size n h =
        let name = normalize_evaluator_name v in
        let node = node_of fl name (apply_evaluator_lens fl name start req resp) in
        elim (Option-cases (stop_at fl prev node)) [
          | inl e ↦
              rw (e, run_chain) (inr (inr (inr (refl, omega (arith, h), stop_at-none prev node e))))
          | inr (reason, e) ↦ rw (e, run_chain) (stop_at-some prev node reason size (suc n) e)
        ]
    run_chain-Stops prev start v (w ∷ ws) size n h =
        let name = normalize_evaluator_name v in
        let cur = apply_evaluator_lens fl name start req resp in
        let node = node_of fl name cur in
        elim (Option-cases (stop_at fl prev node)) [
          | inl e ↦
              let rest = run_chain-Stops (some node) cur w ws size (suc n) (omega (arith, h)) in
              rw (e, run_chain) (Stops-cons size n prev node _ _ (stop_at-none prev node e) rest)
          | inr (reason, e) ↦ rw (e, run_chain) (stop_at-some prev node reason size (suc n) e)
        ]

    run_chain-EndsIn :
        (prev : Option (ChainNode F)) (start : Result F) (v : Text) (vs : List Text)
        → let r = run_chain fl req resp prev start (v ∷ vs) in EndsIn r.nodes r.final
    unfolding run_chain
    run_chain-EndsIn prev start v [] =
        let name = normalize_evaluator_name v in
        let node = node_of fl name (apply_evaluator_lens fl name start req resp) in
        elim (Option-cases (stop_at fl prev node)) [
          | inl e ↦ rw (e, run_chain) ([], name, refl)
          | inr (reason, e) ↦ rw (e, run_chain) ([], name, refl)
        ]
    run_chain-EndsIn prev start v (w ∷ ws) =
        let name = normalize_evaluator_name v in
        let cur = apply_evaluator_lens fl name start req resp in
        let node = node_of fl name cur in
        let (init, last, nodes) = run_chain-EndsIn (some node) cur w ws in
        elim (Option-cases (stop_at fl prev node)) [
          | inl e ↦ rw (e, run_chain) (node ∷ init, last, ap (λ ns. node ∷ ns) nodes)
          | inr (reason, e) ↦ rw (e, run_chain) ([], name, refl)
        ]

    length-run_chain :
        (prev : Option (ChainNode F)) (start : Result F) (vs : List Text)
        → length (run_chain fl req resp prev start vs).nodes ≤ length vs
    unfolding run_chain
    length-run_chain prev start [] = ground arith
    length-run_chain prev start (v ∷ vs) =
        let name = normalize_evaluator_name v in
        let cur = apply_evaluator_lens fl name start req resp in
        let node = node_of fl name cur in
        elim (Option-cases (stop_at fl prev node)) [
          | inl e ↦ rw (e, run_chain) (ground (arith, length-run_chain (some node) cur vs))
          | inr (reason, e) ↦ rw (e, run_chain) (ground arith)
        ]

    names-run_chain :
        (prev : Option (ChainNode F)) (start : Result F) (vs : List Text)
        → let r = run_chain fl req resp prev start vs in
          map (λ (n : ChainNode F). n.name) r.nodes
          ≡ take (length r.nodes) (map normalize_evaluator_name vs)
    unfolding run_chain
    names-run_chain prev start [] = refl
    names-run_chain prev start (v ∷ vs) =
        let name = normalize_evaluator_name v in
        let cur = apply_evaluator_lens fl name start req resp in
        let node = node_of fl name cur in
        elim (Option-cases (stop_at fl prev node)) [
          | inl e ↦ rw (e, run_chain) (ap (λ ns. name ∷ ns) (names-run_chain (some node) cur vs))
          | inr (reason, e) ↦ rw (e, run_chain) refl
        ]

  -- A chain with names and a positive depth runs at most as many evaluators as the depth and the
  -- chain allow, under the normalized names from the first on, and the last node holds the final
  -- figures. A node ends the run exactly if it is a rejection by the policy's lens, if its risk is at
  -- most the threshold, or if neither its risk nor its confidence moved by a hundredth from the node
  -- before; the reason of the stop is the first of these that holds of the last node, or else that
  -- all names have run.
  pub evaluate_chain_lem :
      (e : Evaluator F) (req : ChatCompletionRequest F) (resp : ChatCompletionResponse)
      (trace : Option Trace) (st : CognitiveState F) (v : Text) (vs : List Text) (depth : ℕ)
      → let r = evaluate_chain fl e req resp trace st (v ∷ vs) (pos (suc depth)) in
        (r.depth ≤ suc depth)
        × (r.depth ≤ length (v ∷ vs))
        × (map (λ (n : ChainNode F). n.name) r.nodes
            ≡ take r.depth (map normalize_evaluator_name (v ∷ vs)))
        × EndsIn r.nodes r.final
        × Stops (length r.chain) 0 none r.nodes r.stop_reason
  unfolding evaluate_chain depth_limit
  evaluate_chain_lem e req resp trace st v vs depth =
      let k = depth_limit (pos depth) (length vs) in
      let base = evaluate fl e req resp trace st in
      let nodes = (run_chain fl req resp none base (v ∷ take k vs)).nodes in
      let short = length-run_chain req resp none base (v ∷ take k vs) in
      let cut = length-take-le k vs in
      let (d, n) = depth_limit_le depth (length vs) in
      rw (depth_limit-suc depth (length vs), depth_positive depth, evaluate_chain)
        (
          omega (arith, short, cut, d),
          omega (arith, short, cut, n),
          names-run_chain req resp none base (v ∷ take k vs)
              ∙ take-map-take normalize_evaluator_name (length nodes) (suc k) (v ∷ vs) short,
          run_chain-EndsIn req resp none base v (take k vs),
          run_chain-Stops req resp none base v (take k vs) (length (v ∷ take k vs)) 0 (omega arith),
        )
