-- ===== src/ToolCalling/Chat.antt =====
-- internal/http/toolcalling.go: what stands before the rounds of a chat, and the choice of the upstream.
-- The pointer to the client of the tools is an option, whose cache the discovery may fill.
use g_lm.Prelude.{not, ◌&&◌, Option, none, some, if◌then◌else◌}
use g_lm.Prelude.Int.{ℤ}
use g_lm.Prelude.Texts.{is_empty}
use g_lm.Prelude.Results.{Result, ok, err}
use g_lm.Model.Chat.{ChatCompletionRequest}
use g_lm.ToolCalling.{Network, JsonCodec, Client, enabled}
use g_lm.ToolCalling.Discovery.{PathOrder, tool_definitions}
use g_lm.ToolCalling.Loop.{
  ChatError, not_configured, discovery_not_configured, discovery, upstream, Upstream, ChatOutcome,
  no_response, should_autoload_tools, max_rounds, rounds,
}

abbrev pub failure : ChatError → ChatOutcome
failure e = record { response = no_response; calls = 0; iterations = 0; error = some e }

module _ {F W : Type 0} (net : Network W) (json : JsonCodec) (up : Upstream F W) where
  -- A chat without tools: one call of the model.
  unfoldable pub plain_chat : ChatCompletionRequest F → W → W × ChatOutcome
  plain_chat req w =
      let (w', reply) = up.chat req w in
      elim reply [
        | err e ↦ (w', failure (upstream e))
        | ok resp ↦ (w', record { response = resp; calls = 0; iterations = 0; error = none })
      ]

  -- The request with its tools, which may be read from the tool server.
  unfoldable pub prepare_tools :
      PathOrder
      → Option Client
      → ChatCompletionRequest F
      → W
      → Option Client × W × Result ChatError (ChatCompletionRequest F)
  unfolding should_autoload_tools tool_definitions
  prepare_tools order tools req w =
      if not (is_empty req.tools)
      then (tools, w, ok req)
      else if not (should_autoload_tools req)
      then (tools, w, ok req)
      else elim tools [
        | none ↦ (none, w, err discovery_not_configured)
        | some c ↦
            let found = tool_definitions net json order c w in
            if not (enabled c) then (some c, w, err discovery_not_configured) else (
              some found.0,
              found.1,
              elim found.2 [
                | err e ↦ err (discovery e)
                | ok defs ↦ ok (record req { tools = defs })
              ],
            )
      ]

  -- The rounds of a configured client, for a request with tools.
  unfoldable pub chat_rounds : ℤ → Option Client → ChatCompletionRequest F → W → W × ChatOutcome
  unfolding rounds max_rounds
  chat_rounds max none req w = (w, failure not_configured)
  chat_rounds max (some c) req w =
      let run = rounds net json up c (max_rounds max) 1 0 no_response req w in
      if enabled c then run else (w, failure not_configured)

  unfoldable pub chat_prepared :
      ℤ
      → Option Client × W × Result ChatError (ChatCompletionRequest F)
      → Option Client × W × ChatOutcome
  unfolding plain_chat chat_rounds
  chat_prepared max (tools, w, err e) = (tools, w, failure e)
  chat_prepared max (tools, w, ok req) =
      let plain = plain_chat req w in
      let looped = chat_rounds max tools req w in
      if is_empty req.tools then (tools, plain.0, plain.1) else (tools, looped.0, looped.1)

  -- The client with its cache, the network and the model's server, and the results.
  unfoldable pub chat_with_tools :
      PathOrder → ℤ → Option Client → ChatCompletionRequest F → W → Option Client × W × ChatOutcome
  unfolding prepare_tools chat_prepared
  chat_with_tools order max tools req w = chat_prepared max (prepare_tools order tools req w)

  -- toolAwareUpstream, where a request names tools or asks for them
  unfoldable pub upstream_for_request :
      PathOrder → ℤ → Option Client → ChatCompletionRequest F → W → Option Client × W × ChatOutcome
  unfolding chat_with_tools plain_chat should_autoload_tools
  upstream_for_request order max tools req w =
      let plain = plain_chat req w in
      if is_empty req.tools && not (should_autoload_tools req)
      then (tools, plain.0, plain.1)
      else chat_with_tools order max tools req w
