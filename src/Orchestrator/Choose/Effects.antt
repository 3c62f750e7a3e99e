-- ===== src/Orchestrator/Choose/Effects.antt =====
-- internal/orchestrator/router.go: what a choice changes in the router.
use g_lm.Prelude.{Bool, true, false, ◌∷◌, if◌then◌else◌, ◌≡◌, arith, any}
use g_lm.Prelude.Texts.{Text, text_eq, to_lower, trim_space}
use g_lm.Prelude.Maps.{insert}
use g_lm.Model.Records.{Time}
use g_lm.Orchestrator.Router.{Router}
use g_lm.Orchestrator.Candidates.{trigger_background_pull, mark_model_used}
use g_lm.Orchestrator.Choose.{Outcome}

-- The router of an outcome is the one that was called, up to the start of a pull, with the chosen
-- model marked as used unless the choice failed.
abbrev Marks : {F : Type 0} → Outcome F → Time → Router F → Type 0
Marks o now r =
    (o.failed ≡ false → o.router ≡ mark_model_used o.decision.chosen_model now r)
    × (o.failed ≡ true → o.router ≡ r)

module _ {F : Type 0} where
  -- What a call that starts a pull finds and leaves; one that starts none changes nothing.
  pub trigger_background_pull_lem :
      (model : Text) (now : Time) (r : Router F)
      → let key = to_lower (trim_space model) in
        let p = trigger_background_pull model now r in
        (p.1 ≡ false → p.0 ≡ r)
        × (p.1 ≡ true
            → (r.cfg.jit_inventory_enabled ≡ true)
              × (r.has_control ≡ true)
              × (any (text_eq key) r.pull_in_flight ≡ false)
              × (p.0 ≡ record r {
                pull_in_flight = key ∷ r.pull_in_flight;
                pull_recent = insert key now r.pull_recent;
              }))
  unfolding trigger_background_pull
  trigger_background_pull_lem model now r = ground arith

  pull_or_same : Bool → Text → Time → Router F → Router F
  pull_or_same started ideal now r = if started then (trigger_background_pull ideal now r).0 else r
