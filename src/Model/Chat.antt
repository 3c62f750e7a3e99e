-- ===== src/Model/Chat.antt =====
-- internal/model/types.go, lines 5-197: requests, messages, tools, options, responses and lists of models.
use g_lm.Prelude.{Bool, Option, List}
use g_lm.Prelude.Int.{ℤ}
use g_lm.Prelude.Texts.{Text}

-- A decoded JSON value; a number keeps its text.
mutual
  pub data Json : Type 0 where
    null : Json
    bool : Bool → Json
    number : Text → Json
    string : Text → Json
    array : Items → Json
    object : Fields → Json

  pub data Items : Type 0 where
    nil : Items
    cons : Json → Items → Items

  pub data Fields : Type 0 where
    end : Fields
    field : Text → Json → Fields → Fields

pub record ToolFunction : Type 0 where
  pub name : Text
  pub description : Text
  pub parameters : Json

pub record ToolDefinition : Type 0 where
  pub type : Text
  pub function : ToolFunction

pub record ToolFunctionCall : Type 0 where
  pub name : Text
  pub arguments : Text

pub record ToolCall : Type 0 where
  pub id : Text
  pub type : Text
  pub function : ToolFunctionCall

pub record Message : Type 0 where
  pub role : Text
  pub content : Text
  pub name : Text
  pub tool_call_id : Text
  pub tool_calls : List ToolCall

pub record SymbolicOverlayOptions : Type 0 where
  pub mode : Text
  pub schema_version : Text
  pub overlay_profile : Text
  pub max_overlay_hops : ℤ
  pub types : List Text
  pub max_symbols : ℤ
  pub include_state : Bool
  pub include_documents : Bool

pub record ReasoningOptions (F : Type 0) : Type 0 where
  pub mode : Text
  pub branches : ℤ
  pub self_evaluate : Bool
  pub detect_contradictions : Bool
  pub decompose_enabled : Bool
  pub decompose_max_subtasks : ℤ
  pub decompose_max_depth : ℤ
  pub decompose_budget_tokens : ℤ
  pub mcts_max_rollouts : ℤ
  pub mcts_max_depth : ℤ
  pub mcts_exploration : F
  pub mcts_timeout_ms : ℤ
  pub mcts_v2_enabled : Bool
  pub mcts_early_stop_window : ℤ
  pub mcts_early_stop_delta : F
  pub multi_agent_enabled : Bool
  pub multi_agent_max_agents : ℤ
  pub multi_agent_max_rounds : ℤ
  pub multi_agent_timeout_ms : ℤ
  pub multi_agent_budget_tokens : ℤ
  pub meta_enabled : Bool
  pub meta_profile : Text
  pub reflection_layers_enabled : Bool
  pub reflection_layer_count : ℤ
  pub evaluator_chain_enabled : Bool
  pub evaluator_chain : List Text
  pub evaluator_chain_max_depth : ℤ
  pub meta_reflection_enabled : Bool
  pub meta_reflection_max_passes : ℤ
  pub self_alignment_enabled : Bool
  pub self_alignment_max_passes : ℤ
  pub context_reindex_enabled : Bool
  pub context_reindex_scope : Text
  pub skill_compiler_enabled : Bool
  pub skill_compiler_profile : Text
  pub skill_compiler_budget_tokens : ℤ
  pub geometry_mode : Text
  pub shape_transform_enabled : Bool
  pub worldview_fusion_enabled : Bool
  pub worldview_fusion_stages : ℤ
  pub worldview_profiles : List Text
  pub constraint_breaking_enabled : Bool
  pub constraint_breaking_level : Text
  pub adversarial_self_play_enabled : Bool
  pub adversarial_rounds : ℤ
  pub adversarial_roles : List Text

pub record DocumentInput : Type 0 where
  pub id : Text
  pub title : Text
  pub section : Text
  pub text : Text

pub record DocumentOrchestration : Type 0 where
  pub mode : Text
  pub chunk_size : ℤ
  pub max_documents : ℤ

pub record ResponseStyle (F : Type 0) : Type 0 where
  pub breathing_weight : F
  pub tone_shift : Text
  pub style_adjustment : Text
  pub register : Text
  pub verbosity_target : Text
  pub justification_density : Text
  pub audience_mode : Text
  pub pacing : Text
  pub micro_switches : List Text
  pub mood_shift : F
  pub topic_drift : F
  pub subtext_detection : Text
  pub rolling_sentiment : F
  pub conversation_drift : F
  pub risk_flags : List Text

pub record ChatCompletionRequest (F : Type 0) : Type 0 where
  pub model : Text
  pub session_id : Text
  pub memory_anchor_keys : List Text
  pub reasoning : Option (ReasoningOptions F)
  pub symbolic_overlay : Option SymbolicOverlayOptions
  pub response_style : Option (ResponseStyle F)
  pub documents : List DocumentInput
  pub document_flow : Option DocumentOrchestration
  pub messages : List Message
  pub tools : List ToolDefinition
  pub tool_choice : Option Json
  pub temperature : Option F
  pub max_tokens : Option ℤ
  pub stream : Bool

pub record ChoiceMessage : Type 0 where
  pub role : Text
  pub content : Text
  pub name : Text
  pub tool_calls : List ToolCall

pub record Choice : Type 0 where
  pub index : ℤ
  pub message : ChoiceMessage
  pub finish_reason : Text

pub record ChatCompletionResponse : Type 0 where
  pub id : Text
  pub object : Text
  pub created : ℤ
  pub model : Text
  pub choices : List Choice
  pub usage : Option Json

pub record CognitionRequest (F : Type 0) : Type 0 where
  pub task : Text
  pub input : Text
  pub model : Text
  pub session_id : Text
  pub messages : List Message
  pub response_style : Option (ResponseStyle F)
  pub documents : List DocumentInput
  pub reasoning : Option (ReasoningOptions F)
  pub symbolic_overlay : Option SymbolicOverlayOptions
  pub document_flow : Option DocumentOrchestration
  pub tools : List ToolDefinition
  pub tool_choice : Option Json
  pub temperature : Option F
  pub max_tokens : Option ℤ
  pub stream : Bool

pub record ModelInfo : Type 0 where
  pub id : Text
  pub object : Text
  pub created : ℤ
  pub owned_by : Text

pub record ModelListResponse : Type 0 where
  pub object : Text
  pub data_of : List ModelInfo
