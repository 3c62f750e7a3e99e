-- ===== src/Reasoning/Config.antt =====
-- internal/reasoning/executor.go: the configuration, NewExecutor and ShouldExecute.
use g_lm.Prelude.{Bool, true, false, not, ◌&&◌, ◌||◌, none, some, List, [], ◌∷◌, any, if◌then◌else◌}
use g_lm.Prelude.Int.{ℤ, pos, ltb_ℤ, leb_ℤ}
use g_lm.Prelude.Texts.{Text, lit, text_eq, to_lower, trim_space}
use g_lm.Prelude.Floats.{Float64}
use g_lm.Model.Chat.{ReasoningOptions, ChatCompletionRequest}
use g_lm.Model.Session.{CognitiveState}

pub record Config (F : Type 0) : Type 0 where
  pub enabled : Bool
  pub default_branches : ℤ
  pub max_branches : ℤ
  pub pruning_enabled : Bool
  pub pruning_min_score : F
  pub pruning_tot_top_k : ℤ
  pub pruning_tot_synth_top_k : ℤ
  pub pruning_mcts_pool_top_k : ℤ
  pub pruning_mcts_synth_top_k : ℤ
  pub pruning_ma_round_top_k : ℤ
  pub pruning_ma_synth_top_k : ℤ
  pub self_eval_curve_enabled : Bool
  pub self_eval_curve_low_max : F
  pub self_eval_curve_mid_max : F
  pub self_eval_curve_low_weight : F
  pub self_eval_curve_mid_weight : F
  pub self_eval_curve_high_weight : F
  pub self_eval_curve_bias : F
  pub mcts_enabled : Bool
  pub mcts_default_rollouts : ℤ
  pub mcts_max_rollouts : ℤ
  pub mcts_default_depth : ℤ
  pub mcts_max_depth : ℤ
  pub mcts_default_exploration : F
  pub mcts_v2_enabled : Bool
  pub mcts_early_stop_window : ℤ
  pub mcts_early_stop_delta : F
  pub multi_agent_enabled : Bool
  pub multi_agent_max_agents : ℤ
  pub multi_agent_max_rounds : ℤ
  pub multi_agent_budget_tokens : ℤ
  pub decompose_enabled : Bool
  pub decompose_max_subtasks : ℤ
  pub decompose_max_depth : ℤ
  pub decompose_budget_tokens : ℤ
  pub shape_transform_enabled : Bool
  pub geometry_mode : Text
  pub worldview_fusion_enabled : Bool
  pub worldview_fusion_stages : ℤ
  pub memory_anchored_reasoning_enabled : Bool
  pub memory_anchored_reasoning_max_anchors : ℤ
  pub memory_anchored_reasoning_min_coverage : F
  pub memory_anchored_reasoning_score_bonus : F

abbrev pub or_default : ℤ → ℤ → ℤ
or_default n d = if leb_ℤ n (pos 0) then d else n

abbrev pub at_most : ℤ → ℤ → ℤ
at_most limit n = if ltb_ℤ limit n then limit else n

abbrev pub at_least : ℤ → ℤ → ℤ
at_least limit n = if ltb_ℤ n limit then limit else n

abbrev pub is_zero : ℤ → Bool
is_zero n = leb_ℤ n (pos 0) && leb_ℤ (pos 0) n

abbrev pub geometry_modes : List Text
geometry_modes =
    lit "linear" ∷ lit "tree" ∷ lit "mesh" ∷ lit "adversarial_pair" ∷ lit "synthesis_first" ∷ []

unfoldable pub normalize_geometry_mode : Text → Text
unfolding to_lower trim_space any text_eq
normalize_geometry_mode v =
    if any (text_eq (to_lower (trim_space v))) geometry_modes
    then to_lower (trim_space v)
    else lit "linear"

module _ (fl : Float64) where
  open fl use {F, lt, le, eq, milli, neg}

  abbrev pub float_or : F → F → F
  float_or v d = if le v (milli 0) then d else v

  -- A value that is kept between 0 and a limit.
  abbrev pub float_within : F → F → F
  float_within limit v = if lt v (milli 0) then milli 0 else if lt limit v then limit else v

  abbrev pub open_unit_or : F → F → F
  open_unit_or v d = if le v (milli 0) || le (milli 1000) v then d else v

  -- The two bounds of the curve, in their order.
  unfoldable pub curve_bounds : F → F → F × F
  curve_bounds low mid =
      if le mid low
      then (if le (milli 820) low then (milli 600, milli 820) else (low, milli 820))
      else (low, mid)

  unfoldable pub unset_pruning : Config F → Bool
  unset_pruning c =
      not c.pruning_enabled
      && eq c.pruning_min_score (milli 0)
      && is_zero c.pruning_tot_top_k
      && is_zero c.pruning_tot_synth_top_k
      && is_zero c.pruning_mcts_pool_top_k
      && is_zero c.pruning_mcts_synth_top_k
      && is_zero c.pruning_ma_round_top_k
      && is_zero c.pruning_ma_synth_top_k

  -- The limits of the pruning.
  unfoldable pub complete_pruning : Config F → Config F
  unfolding unset_pruning
  complete_pruning c =
      let tot = or_default c.pruning_tot_top_k (pos 3) in
      let pool = or_default c.pruning_mcts_pool_top_k (pos 6) in
      let round = or_default c.pruning_ma_round_top_k (pos 4) in
      record c {
        pruning_enabled = c.pruning_enabled || unset_pruning c;
        pruning_min_score = float_within (milli 1000) c.pruning_min_score;
        pruning_tot_top_k = tot;
        pruning_tot_synth_top_k = at_most tot (or_default c.pruning_tot_synth_top_k (pos 2));
        pruning_mcts_pool_top_k = pool;
        pruning_mcts_synth_top_k = at_most pool (or_default c.pruning_mcts_synth_top_k (pos 3));
        pruning_ma_round_top_k = round;
        pruning_ma_synth_top_k = at_most round (or_default c.pruning_ma_synth_top_k (pos 3));
      }

  unfoldable pub complete_curve : Config F → Config F
  unfolding curve_bounds
  complete_curve c =
      let bounds =
        curve_bounds (open_unit_or c.self_eval_curve_low_max (milli 600))
          (open_unit_or c.self_eval_curve_mid_max (milli 820)) in
      record c {
        self_eval_curve_low_max = bounds.0;
        self_eval_curve_mid_max = bounds.1;
        self_eval_curve_low_weight = float_or c.self_eval_curve_low_weight (milli 900);
        self_eval_curve_mid_weight = float_or c.self_eval_curve_mid_weight (milli 1000);
        self_eval_curve_high_weight = float_or c.self_eval_curve_high_weight (milli 1080);
      }

  unfoldable pub complete_search : Config F → Config F
  complete_search c = record c {
    mcts_default_rollouts = or_default c.mcts_default_rollouts (pos 12);
    mcts_max_rollouts = or_default c.mcts_max_rollouts (pos 24);
    mcts_default_depth = or_default c.mcts_default_depth (pos 3);
    mcts_max_depth = or_default c.mcts_max_depth (pos 5);
    mcts_default_exploration = float_or c.mcts_default_exploration (milli 1200);
    mcts_early_stop_window =
        if ltb_ℤ c.mcts_early_stop_window (pos 2) then pos 4 else c.mcts_early_stop_window;
    mcts_early_stop_delta = float_within (milli 200) c.mcts_early_stop_delta;
  }

  unfoldable pub complete_budgets : Config F → Config F
  unfolding normalize_geometry_mode
  complete_budgets c = record c {
    multi_agent_max_agents = or_default c.multi_agent_max_agents (pos 4);
    multi_agent_max_rounds = or_default c.multi_agent_max_rounds (pos 2);
    multi_agent_budget_tokens = or_default c.multi_agent_budget_tokens (pos 700);
    decompose_max_subtasks = or_default c.decompose_max_subtasks (pos 6);
    decompose_max_depth = or_default c.decompose_max_depth (pos 1);
    decompose_budget_tokens = or_default c.decompose_budget_tokens (pos 900);
    geometry_mode = normalize_geometry_mode c.geometry_mode;
    worldview_fusion_stages = at_most (pos 5) (or_default c.worldview_fusion_stages (pos 2));
    memory_anchored_reasoning_max_anchors =
        or_default c.memory_anchored_reasoning_max_anchors (pos 3);
    memory_anchored_reasoning_min_coverage =
        float_within (milli 1000) c.memory_anchored_reasoning_min_coverage;
    memory_anchored_reasoning_score_bonus =
        float_within (milli 200) c.memory_anchored_reasoning_score_bonus;
  }

  -- NewExecutor
  unfoldable pub new_executor : Config F → Config F
  unfolding complete_pruning complete_curve complete_search complete_budgets
  new_executor c = complete_budgets (
      complete_search (
        complete_curve (
          complete_pruning (record c {
            default_branches = or_default c.default_branches (pos 3);
            max_branches = or_default c.max_branches (pos 5);
          }))))

-- The mode of a request, in lower case.
unfoldable pub mode_is : {F : Type 0} → Text → ReasoningOptions F → Bool
unfolding text_eq to_lower trim_space
mode_is mode o = text_eq (to_lower (trim_space o.mode)) mode

unfoldable pub should_execute :
    {F : Type 0} → Config F → ChatCompletionRequest F → CognitiveState F → Bool
unfolding mode_is text_eq
should_execute cfg req st = elim req.reasoning [
  | none ↦ false
  | some o ↦
      cfg.enabled
      && (if mode_is (lit "tot") o || mode_is (lit "pipeline") o
          then true
          else if mode_is (lit "mcts") o
          then cfg.mcts_enabled
          else if mode_is (lit "multi_agent") o
          then cfg.multi_agent_enabled
          else if mode_is (lit "decompose") o
          then cfg.decompose_enabled
          else mode_is (lit "auto") o
            && (text_eq st.task_mode (lit "coding") || text_eq st.task_mode (lit "general")))
]
