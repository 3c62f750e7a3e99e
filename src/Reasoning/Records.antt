-- ===== src/Reasoning/Records.antt =====
-- internal/reasoning/executor.go and mcts.go, multiagent.go: what the modes record of a run. An `int` that counts is a
-- natural number.
use g_lm.Prelude.{ℕ, Bool, false, Option, none, List, []}
use g_lm.Prelude.Int.{ℤ}
use g_lm.Prelude.Texts.{Text}
use g_lm.Prelude.Maps.{Map}
use g_lm.Prelude.Results.{Result}
use g_lm.Model.Chat.{Json, ChatCompletionRequest, ChatCompletionResponse}
use g_lm.Model.Records.{Time}
use g_lm.Metareasoning.Signals.{ContradictionReport}

-- What the modes use of the world `S`: the model's server, the context of the call, the clock, and
-- encoding/json.
pub record World (F S : Type 0) : Type 0 where
  pub list_models : S → S × Result Text (List Text)
  pub chat : ChatCompletionRequest F → S → S × Result Text ChatCompletionResponse
  pub context_error : S → Option Text
  pub now : S → Time
  pub marshal : Json → Text
  pub unmarshal : Text → Option Json
  pub float_text : F → Text

pub record Node (F : Type 0) : Type 0 where
  pub id : Text
  pub type : Text
  pub model : Text
  pub score : F
  pub metadata : Map Json
  pub started_at : Time
  pub ended_at : Time
  pub error : Text

pub record BranchResult (F : Type 0) : Type 0 where
  pub index : ℕ
  pub model : Text
  pub output : Text
  pub evaluation_score : F
  pub evaluation_reason : Text
  pub warnings : List Text

pub record MemoryAnchorTrace (F : Type 0) : Type 0 where
  pub enabled : Bool
  pub applied : Bool
  pub mode : Text
  pub anchors_in : ℕ
  pub anchors_used : ℕ
  pub candidates_evaluated : ℕ
  pub coverage_avg : F
  pub bonus_avg : F

pub record PruningTrace (F : Type 0) : Type 0 where
  pub mode : Text
  pub enabled : Bool
  pub min_score : F
  pub top_k : ℤ
  pub candidates_in : ℕ
  pub candidates_out : ℕ
  pub dropped_low_score : ℕ
  pub dropped_top_k : ℕ

pub record PruneStats : Type 0 where
  pub candidates_in : ℕ
  pub candidates_out : ℕ
  pub dropped_low_score : ℕ
  pub dropped_top_k : ℕ

pub record MctsResult (F : Type 0) : Type 0 where
  pub rollouts : ℕ
  pub rollouts_executed : ℕ
  pub depth : ℕ
  pub best_score : F
  pub early_stop : Bool
  pub early_stop_reason : Text
  pub fallback : Text

pub record MultiAgentResult (F : Type 0) : Type 0 where
  pub agents : ℕ
  pub rounds : ℕ
  pub winner : Text
  pub consensus : Text
  pub score : F
  pub fallback : Text

pub record DecomposeResult (F : Type 0) : Type 0 where
  pub subtasks_planned : ℕ
  pub subtasks_executed : ℕ
  pub depth : ℕ
  pub best_score : F
  pub fallback : Text

pub record SymbolicSupervisionTrace : Type 0 where
  pub enabled : Bool
  pub decision : Text
  pub action : Text
  pub reason : Text
  pub nodes : ℕ
  pub violations : ℕ
  pub passes : ℕ

pub record Trace (F : Type 0) : Type 0 where
  pub mode : Text
  pub task_class : Text
  pub chosen_model : Text
  pub branches : List (BranchResult F)
  pub contradictions : ContradictionReport
  pub pruning : Option (PruningTrace F)
  pub memory_anchor : Option (MemoryAnchorTrace F)
  pub symbolic_supervision : Option SymbolicSupervisionTrace
  pub mcts : Option (MctsResult F)
  pub multi_agent : Option (MultiAgentResult F)
  pub decompose : Option (DecomposeResult F)
  pub geometry_mode : Text
  pub geometry_path : List Text
  pub fusion_stage_scores : List F
  pub fusion_conflict_map : List Text
  pub nodes : List (Node F)

abbrev pub no_contradictions : ContradictionReport
no_contradictions = record { detected = false; pairs = []; summary = [] }

abbrev pub new_trace : {F : Type 0} → Text → Text → Trace F
new_trace mode task_class = record {
  mode = mode;
  task_class = task_class;
  chosen_model = [];
  branches = [];
  contradictions = no_contradictions;
  pruning = none;
  memory_anchor = none;
  symbolic_supervision = none;
  mcts = none;
  multi_agent = none;
  decompose = none;
  geometry_mode = [];
  geometry_path = [];
  fusion_stage_scores = [];
  fusion_conflict_map = [];
  nodes = [];
}
