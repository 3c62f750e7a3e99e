-- ===== src/Reasoning/Answers.antt =====
-- internal/reasoning/executor.go: a run of branches gives an answer.
use g_lm.Prelude.{
  ℕ, zero, suc, ◌+◌, ◌≡◌, ◌≤◌, refl, inl, inr, false, List, [], ◌∷◌, ◌++◌, arith, Bool-cases,
}
use g_lm.Prelude.Int.{ℤ, pos, negsuc, pos_part, ◌≤ℤ◌}
use g_lm.Prelude.Texts.{Text, is_empty, lit}
use g_lm.Prelude.Results.{ok}
use g_lm.Prelude.Floats.{Float64}
use g_lm.Model.Chat.{ChatCompletionRequest, ChatCompletionResponse}
use g_lm.Model.Records.{ModelPolicy}
use g_lm.Model.Session.{CognitiveState}
use g_lm.Orchestrator.Router.{Router}
use g_lm.Orchestrator.Lookup.{Order}
use g_lm.Reasoning.Config.{Config, at_least, at_most}
use g_lm.Reasoning.Records.{World, BranchResult, Trace}
use g_lm.Reasoning.Evaluation.{resolve_memory_anchors}
use g_lm.Reasoning.Geometry.{asked_or}
use g_lm.Reasoning.Contradictions.{detect_contradictions}
use g_lm.Reasoning.Messages.{build_branch_messages, build_synthesis_messages}
use g_lm.Reasoning.Start.{Execution, started, safe_mode, start}
use g_lm.Reasoning.Tot.{
  Branches, resolve_branches, keep_branch, branch_step, run_branches, no_branches,
  synthesis_branches, synthesize, run_tot, execute_tot,
}

-- A server that answers each call with a response.
abbrev pub DoesAnswer : {F S : Type 0} → World F S → Type 0
DoesAnswer {F} {S} w =
    (req : ChatCompletionRequest F) (s : S)
    → (resp : ChatCompletionResponse) × ((w.chat req s).1 ≡ ok resp)

append-filled : {A : Type 0} → (xs : List A) (x : A) → is_empty (xs ++ x ∷ []) ≡ false
append-filled [] x = refl
append-filled (y ∷ ys) x = refl

branches_limit :
    (limit asked : ℤ) → pos 1 ≤ℤ limit → 1 ≤ pos_part (at_most limit (at_least (pos 2) asked))
branches_limit (pos n) (pos m) h = ground arith
branches_limit (pos n) (negsuc m) h = ground arith
branches_limit (negsuc n) asked h = absurd (omega (arith, h))

module _ (fl : Float64) {S : Type 0} (w : World fl.F S) (answers : DoesAnswer w) (cfg : Config fl.F)
    (req : ChatCompletionRequest fl.F) (st : CognitiveState fl.F) where
  open fl use {F}

  keep_branch-filled :
      (b : BranchResult F) (l : Branches F S)
      → is_empty (keep_branch fl w cfg b l).successful ≡ false
  unfolding keep_branch
  keep_branch-filled b l = elim (Bool-cases cfg.pruning_enabled) [
    | inl e ↦ rw (e, keep_branch) (append-filled l.successful b)
    | inr e ↦ rw (e, keep_branch) (append-filled l.successful b)
  ]

  branch_step-filled :
      (model : Text) (anchors : List Text) (total i : ℕ) (l : Branches F S)
      → is_empty (branch_step fl w cfg req st model anchors total i l).successful ≡ false
  unfolding branch_step
  branch_step-filled model anchors total i l =
      let messages = build_branch_messages req.messages i total anchors in
      let (resp, e) = answers (record req { model = model; messages = messages }) l.world in
      rw (e, branch_step) (keep_branch-filled _ _)

  run_branches-filled :
      (model : Text) (anchors : List Text) (total i left : ℕ) (l : Branches F S)
      → is_empty (run_branches fl w cfg req st model anchors total i (suc left) l).successful
        ≡ false
  unfolding run_branches
  run_branches-filled model anchors total i zero l = branch_step-filled model anchors total i l
  run_branches-filled model anchors total i (suc left) l =
      run_branches-filled model anchors total (i + 1) left
        (branch_step fl w cfg req st model anchors total i l)

  branches-filled :
      (model : Text) (anchors : List Text) (total i n : ℕ) (l : Branches F S)
      → 1 ≤ n
      → is_empty (run_branches fl w cfg req st model anchors total i n l).successful ≡ false
  branches-filled model anchors total i zero l h = absurd (omega (arith, h))
  branches-filled model anchors total i (suc n) l h = run_branches-filled model anchors total i n l

  abbrev HasAnswer : Execution F S → Type 0
  HasAnswer x = (resp : ChatCompletionResponse) × (x.result ≡ ok resp)

  synthesize-HasAnswer :
      (anchors : List Text) (r : Router F) (trace : Trace F) (l : Branches F S)
      → HasAnswer (synthesize fl w cfg req anchors r trace l)
  unfolding synthesize
  synthesize-HasAnswer anchors r trace l =
      let branches = (synthesis_branches fl w cfg l).0 in
      let report = detect_contradictions fl branches in
      let messages = build_synthesis_messages w req.messages branches report anchors in
      let (resp, e) =
        answers (record req { model = trace.chosen_model; messages = messages }) l.world in
      rw (e, synthesize) (resp, refl)

  run_tot-HasAnswer :
      (s : S) (r : Router F) (trace : Trace F)
      → 1 ≤ resolve_branches cfg req.reasoning
      → HasAnswer (run_tot fl w cfg req st s r trace)
  unfolding run_tot
  run_tot-HasAnswer s r trace h =
      let n = resolve_branches cfg req.reasoning in
      let anchors = resolve_memory_anchors fl cfg req in
      let first = no_branches fl w s anchors in
      let l = run_branches fl w cfg req st trace.chosen_model anchors n 0 n first in
      let filled = branches-filled trace.chosen_model anchors n 0 n first h in
      rw (filled, run_tot) (synthesize-HasAnswer anchors r trace l)

  -- With at least one branch configured, a run of branches whose choice of a model succeeds ends with
  -- a response if the server answers each call, whatever the scores and the pruning.
  pub execute_tot-HasAnswer :
      (order : Order) (pol : ModelPolicy) (r : Router F) (s : S) (s' : S) (r' : Router F)
      (trace : Trace F)
      → pos 1 ≤ℤ cfg.max_branches
      → start w order
          (lit "pipeline model inventory failed: ")
          (safe_mode req.reasoning)
          req
          pol
          st
          r
          s
        ≡ started s' r' trace
      → (resp : ChatCompletionResponse) × ((execute_tot fl w order cfg req pol st r s).result
          ≡ ok resp)
  unfolding execute_tot resolve_branches
  execute_tot-HasAnswer order pol r s s' r' trace h e =
      let asked = asked_or cfg.default_branches (λ o. o.branches) req.reasoning in
      rw (e, execute_tot) (run_tot-HasAnswer s' r' trace (branches_limit cfg.max_branches asked h))
