-- ===== src/Orchestrator/Inventory/Pulls.antt =====
-- internal/orchestrator/router.go: the life of a background pull.
use g_lm.Prelude.{◌≡◌}
use g_lm.Orchestrator.Router.{Router}

module _ {F : Type 0} where
  -- What no reconciliation changes.
  abbrev KeepsPulls : Router F → Router F → Type 0
  KeepsPulls q r =
      (q.cfg ≡ r.cfg) × (q.has_control ≡ r.has_control) × (q.pull_recent ≡ r.pull_recent)
