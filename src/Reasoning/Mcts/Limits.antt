-- ===== src/Reasoning/Mcts/Limits.antt =====
-- internal/reasoning/mcts.go: the limits of a search that a request may set.
use g_lm.Prelude.{ℕ, ◌-◌, Bool, false, ◌||◌, Option, none, some, List, length, ltb, if◌then◌else◌}
use g_lm.Prelude.Int.{pos, pos_part}
use g_lm.Prelude.Floats.{Float64}
use g_lm.Model.Chat.{ReasoningOptions}
use g_lm.Reasoning.Config.{Config, at_least, at_most}
use g_lm.Reasoning.Geometry.{asks, asked_or}
use g_lm.Reasoning.Pruning.{nth}

module _ {F : Type 0} (cfg : Config F) (o : Option (ReasoningOptions F)) where
  unfoldable pub resolve_mcts_rollouts : ℕ
  resolve_mcts_rollouts = pos_part (
      at_most cfg.mcts_max_rollouts
        (at_least (pos 1) (asked_or cfg.mcts_default_rollouts (λ o. o.mcts_max_rollouts) o)))

  unfoldable pub resolve_mcts_depth : ℕ
  resolve_mcts_depth = pos_part (
      at_most cfg.mcts_max_depth
        (at_least (pos 1) (asked_or cfg.mcts_default_depth (λ o. o.mcts_max_depth) o)))

  unfoldable pub resolve_mcts_v2_enabled : Bool
  resolve_mcts_v2_enabled = asks (λ o. o.mcts_v2_enabled) o || cfg.mcts_v2_enabled

  unfoldable pub resolve_mcts_early_stop_window : ℕ
  resolve_mcts_early_stop_window =
      pos_part
        (at_least (pos 2) (asked_or cfg.mcts_early_stop_window (λ o. o.mcts_early_stop_window) o))

module _ (fl : Float64) where
  open fl use {F, lt, le, milli, sub}

  -- A figure of the options, where it is positive, or the configured one.
  abbrev asked_figure : F → (ReasoningOptions F → F) → Option (ReasoningOptions F) → F
  asked_figure configured figure none = configured
  asked_figure configured figure (some o) = if lt (milli 0) (figure o) then figure o else configured

  unfoldable pub resolve_mcts_exploration : Config F → Option (ReasoningOptions F) → F
  resolve_mcts_exploration cfg o =
      let e = asked_figure cfg.mcts_default_exploration (λ o. o.mcts_exploration) o in
      if le e (milli 0) then milli 1200 else if lt (milli 3000) e then milli 3000 else e

  unfoldable pub resolve_mcts_early_stop_delta : Config F → Option (ReasoningOptions F) → F
  resolve_mcts_early_stop_delta cfg o =
      let d = asked_figure cfg.mcts_early_stop_delta (λ o. o.mcts_early_stop_delta) o in
      if lt d (milli 0) then milli 0 else if lt (milli 200) d then milli 200 else d

  abbrev figure_or_zero : Option F → F
  figure_or_zero none = milli 0
  figure_or_zero (some v) = v

  -- The history holds the best score after each answer; a window is not empty.
  unfoldable pub should_early_stop : List F → ℕ → F → Bool
  unfolding nth
  should_early_stop history window delta =
      let n = length history in
      let improvement =
        sub (figure_or_zero (nth (n - 1) history)) (figure_or_zero (nth (n - window) history)) in
      if ltb n window then false else lt improvement delta
