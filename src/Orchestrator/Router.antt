-- ===== src/Orchestrator/Router.antt =====
-- internal/orchestrator/router.go: the router's configuration, state and constructor. The store of
-- the inventory snapshot is one field; the sync.Maps are a list of keys in flight and a map of times.
use g_lm.Prelude.{ℕ, ◌*◌, Bool, true, false, ◌||◌, List, [], ◌∷◌, if◌then◌else◌}
use g_lm.Prelude.Int.{ℤ, pos, leb_ℤ, ltb_ℤ}
use g_lm.Prelude.Texts.{Text, lit, is_empty, to_lower, trim_space, text_eq}
use g_lm.Prelude.Maps.{Map}
use g_lm.Prelude.Floats.{Float64}
use g_lm.Model.Records.{Time}
use g_lm.Orchestrator.Classifier.{
  TaskClass, general, coding_reasoning, light_qa, extraction_classification,
}

pub record RouterConfig (F : Type 0) : Type 0 where
  pub jit_inventory_enabled : Bool
  pub reconcile_interval : ℤ
  pub reconcile_jitter : ℤ
  pub max_models : ℤ
  pub storage_high_watermark : F
  pub storage_target_watermark : F
  pub pull_timeout : ℤ
  pub prune_enabled : Bool
  pub ideal_coding : Text
  pub ideal_extraction : Text
  pub ideal_light_qa : Text
  pub ideal_general : Text

pub record Snapshot : Type 0 where
  pub available : Map Text
  pub updated_at : Time
  pub stale : Bool

pub record Router (F : Type 0) : Type 0 where
  pub default_model : Text
  pub default_aliases : List Text
  pub fallback_default : Text
  pub cfg : RouterConfig F
  -- control != nil
  pub has_control : Bool
  pub inventory : Snapshot
  pub pull_in_flight : List Text
  pub pull_recent : Map Time
  pub last_used : Map Time

-- Nanoseconds.
abbrev second : ℕ
second = 1000000000

module _ (fl : Float64) where
  open fl use {F, lt, le, milli}

  unfoldable pub default_router_config : RouterConfig F
  default_router_config = record {
    jit_inventory_enabled = false;
    reconcile_interval = pos (30 * second);
    reconcile_jitter = pos (5 * second);
    max_models = pos 20;
    storage_high_watermark = milli 850;
    storage_target_watermark = milli 750;
    pull_timeout = pos (15 * 60 * second);
    prune_enabled = true;
    ideal_coding = lit "deepseek-coder:6.7b";
    ideal_extraction = lit "phi3:medium";
    ideal_light_qa = lit "llama3.2:1b";
    ideal_general = lit "qwen3-8b-instruct-Q4_K_M";
  }

  -- The defaults that NewRouterWithControl fills in.
  or_default_blank : Text → Text → Text
  or_default_blank v d = if is_empty (trim_space v) then d else v

  unfoldable pub normalize_config : Text → RouterConfig F → RouterConfig F
  unfolding or_default_blank
  normalize_config default_model cfg =
      let high =
        if le cfg.storage_high_watermark (milli 0) || lt (milli 1000) cfg.storage_high_watermark
        then milli 850
        else cfg.storage_high_watermark in
      record cfg {
        reconcile_interval =
            if leb_ℤ cfg.reconcile_interval (pos 0)
            then pos (30 * second)
            else cfg.reconcile_interval;
        reconcile_jitter =
            if ltb_ℤ cfg.reconcile_jitter (pos 0) then pos 0 else cfg.reconcile_jitter;
        max_models = if ltb_ℤ cfg.max_models (pos 1) then pos 20 else cfg.max_models;
        storage_high_watermark = high;
        storage_target_watermark =
            if le cfg.storage_target_watermark (milli 0) || lt high cfg.storage_target_watermark
            then milli 750
            else cfg.storage_target_watermark;
        pull_timeout =
            if leb_ℤ cfg.pull_timeout (pos 0) then pos (15 * 60 * second) else cfg.pull_timeout;
        ideal_general = or_default_blank cfg.ideal_general default_model;
        ideal_coding = or_default_blank cfg.ideal_coding (lit "deepseek-coder:6.7b");
        ideal_extraction = or_default_blank cfg.ideal_extraction (lit "phi3:medium");
        ideal_light_qa = or_default_blank cfg.ideal_light_qa (lit "llama3.2:1b");
      }

  unfoldable pub new_router_with_control :
      Text → List Text → Text → RouterConfig F → Bool → Router F
  new_router_with_control default_model aliases fallback cfg has_control = record {
    default_model = default_model;
    default_aliases = if is_empty aliases then default_model ∷ [] else aliases;
    fallback_default = fallback;
    cfg = normalize_config default_model cfg;
    has_control = has_control;
    inventory = record { available = []; updated_at = 0; stale = true };
    pull_in_flight = [];
    pull_recent = [];
    last_used = [];
  }

  unfoldable pub new_router : Text → List Text → Text → Router F
  unfolding new_router_with_control
  new_router default_model aliases fallback =
      new_router_with_control default_model aliases fallback default_router_config false

module _ {F : Type 0} where
  -- taskMap, which the constructor fills from the default and the fallback
  unfoldable pub task_map : Router F → TaskClass → List Text
  task_map r general =
      r.default_model ∷ r.fallback_default ∷ lit "mistral:7b" ∷ lit "gemma2:2b" ∷ []
  task_map r coding_reasoning = lit "mistral:7b" ∷ r.default_model ∷ r.fallback_default ∷ []
  task_map r light_qa = lit "llama3.2:1b" ∷ lit "qwen2.5:3b-instruct" ∷ lit "gemma2:2b" ∷ []
  task_map r extraction_classification =
      lit "qwen2.5:3b-instruct" ∷ lit "phi3:mini" ∷ lit "gemma2:2b" ∷ []

  -- idealModels
  unfoldable pub ideal_models : Router F → TaskClass → Text
  ideal_models r coding_reasoning = r.cfg.ideal_coding
  ideal_models r extraction_classification = r.cfg.ideal_extraction
  ideal_models r light_qa = r.cfg.ideal_light_qa
  ideal_models r general = r.cfg.ideal_general

-- ShouldAutoRoute
unfoldable pub should_auto_route : Text → Bool
should_auto_route requested =
    let m = trim_space (to_lower requested) in is_empty m || text_eq m (lit "auto")
