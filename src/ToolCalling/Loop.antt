-- ===== src/ToolCalling/Loop.antt =====
-- internal/http/toolcalling.go: a chat completion with tools, as the loop of model and tool calls. The
-- model's server is the parameter `Upstream` over the same state as the tool server's network.
use g_lm.Prelude.{
  ℕ, zero, suc, ◌+◌, ◌-◌, length, Bool, false, Option, none, some, List, [], ◌∷◌, ◌++◌,
  if◌then◌else◌,
}
use g_lm.Prelude.Int.{ℤ, pos, negsuc}
use g_lm.Prelude.Texts.{Text, lit, is_empty, trim_space, equal_fold}
use g_lm.Prelude.Results.{Result, ok, err, decimal}
use g_lm.Model.Chat.{
  Json, string, object, end, field, ToolCall, Message, ChatCompletionRequest,
  ChatCompletionResponse, Choice,
}
use g_lm.ToolCalling.{Network, JsonCodec, Client, CallError, supported_tool, error_text, call}
use g_lm.ToolCalling.Discovery.{DiscoveryError, get_field}

pub data ChatError : Type 0 where
  not_configured discovery_not_configured max_iterations : ChatError
  discovery : DiscoveryError → ChatError
  upstream : Text → ChatError

pub record Upstream (F W : Type 0) : Type 0 where
  pub chat : ChatCompletionRequest F → W → W × Result Text ChatCompletionResponse

-- The four results: the response, the number of tool calls, of rounds, and the error.
pub record ChatOutcome : Type 0 where
  pub response : ChatCompletionResponse
  pub calls : ℕ
  pub iterations : ℕ
  pub error : Option ChatError

abbrev pub no_response : ChatCompletionResponse
no_response = record {
  id = [];
  object = [];
  created = pos 0;
  model = [];
  choices = [];
  usage = none;
}

abbrev pub is_auto : Text → Bool
unfolding equal_fold trim_space
is_auto s = equal_fold (trim_space s) (lit "auto")

abbrev pub text_or_empty : Option Json → Text
text_or_empty (some (string s)) = s
text_or_empty _ = []

unfoldable pub autoloads : Option Json → Bool
unfolding get_field
autoloads (some (string s)) = is_auto s
autoloads (some (object fs)) = is_auto (text_or_empty (get_field (lit "type") fs))
autoloads _ = false

unfoldable pub should_autoload_tools : {F : Type 0} → ChatCompletionRequest F → Bool
unfolding autoloads
should_autoload_tools req = autoloads req.tool_choice

-- The assistant's message, if it asks for tools.
unfoldable pub assistant_of : List Choice → Option Message
unfolding trim_space
assistant_of [] = none
assistant_of (c ∷ cs) =
    if is_empty c.message.tool_calls
    then none
    else some (record {
      role =
          if is_empty (trim_space c.message.role)
          then lit "assistant"
          else trim_space c.message.role;
      content = c.message.content;
      name = c.message.name;
      tool_call_id = [];
      tool_calls = c.message.tool_calls;
    })

abbrev pub payload_of : Text → Text
unfolding trim_space
payload_of arguments = if is_empty (trim_space arguments) then lit "{}" else arguments

abbrev pub result_object : Text → Text → Text → Text → Json
result_object k v k' v' = object (field k (string v) (field k' (string v') end))

unfoldable pub reply_id : ℕ → ℕ → Text → Text
unfolding trim_space decimal
reply_id iter idx id =
    if is_empty (trim_space id)
    then lit "call_" ++ (decimal iter ++ (lit "_" ++ decimal (idx + 1)))
    else trim_space id

-- ToolCallingMaxIterations, or the default.
unfoldable pub max_rounds : ℤ → ℕ
max_rounds (pos zero) = 4
max_rounds (pos (suc n)) = suc n
max_rounds (negsuc n) = 4

module _ {W : Type 0} (net : Network W) (json : JsonCodec) where
  unfoldable pub content_of : Text → Result CallError Text → Text
  unfolding error_text
  content_of name (err e) =
      json.marshal (result_object (lit "error") (error_text e) (lit "tool") name)
  content_of name (ok out) =
      if json.valid out then out else json.marshal (result_object (lit "raw") out (lit "tool") name)

  unfoldable pub execute_tool_call : Client → ToolCall → W → W × Text
  unfolding content_of supported_tool call trim_space
  execute_tool_call c tc w =
      let name = trim_space tc.function.name in
      let sent = call net c name (payload_of tc.function.arguments) w in
      if supported_tool name then (sent.0, content_of name sent.1) else (
        w,
        json.marshal (result_object (lit "error") (lit "unsupported tool") (lit "tool") name),
      )

  -- The inner loop: the answers to the tool calls from an index on.
  unfoldable pub answer_all : Client → ℕ → ℕ → List ToolCall → W → W × List Message
  unfolding execute_tool_call reply_id
  answer_all c iter idx [] w = (w, [])
  answer_all c iter idx (tc ∷ tcs) w =
      let (w', content) = execute_tool_call c tc w in
      let (w'', rest) = answer_all c iter (idx + 1) tcs w' in
      (
        w'',
        record {
          role = lit "tool";
          content = content;
          name = tc.function.name;
          tool_call_id = reply_id iter idx tc.id;
          tool_calls = [];
        }
            ∷ rest,
      )

  module _ {F : Type 0} (up : Upstream F W) where
    -- The outer loop, with so many rounds left of `iter` and the calls made so far.
    unfoldable pub rounds :
        Client → ℕ → ℕ → ℕ → ChatCompletionResponse → ChatCompletionRequest F → W → W × ChatOutcome
    unfolding assistant_of answer_all
    rounds c zero iter calls last working w = (
      w,
      record { response = last; calls = calls; iterations = iter - 1; error = some max_iterations },
    )
    rounds c (suc left) iter calls last working w =
        let (w', reply) = up.chat working w in
        elim reply [
          | err e ↦ (
            w',
            record {
              response = no_response;
              calls = calls;
              iterations = iter - 1;
              error = some (upstream e);
            },
          )
          | ok resp ↦ elim (assistant_of resp.choices) [
            | none ↦
                (w', record { response = resp; calls = calls; iterations = iter; error = none })
            | some asked ↦
                let (w'', answers) = answer_all c iter 0 asked.tool_calls w' in
                rounds c left (iter + 1) (length answers + calls) resp
                  (record working { messages = working.messages ++ (asked ∷ answers) }) w''
          ]
        ]
