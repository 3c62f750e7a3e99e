-- ===== src/ToolCalling/Discovery.antt =====
-- internal/toolcalling/client.go: the tools that the server's OpenAPI document names, and their cache.
use g_lm.Prelude.{ℕ, ◌-◌, not, ◌&&◌, Option, none, some, List, [], ◌∷◌, ◌++◌, ltb, if◌then◌else◌}
use g_lm.Prelude.Texts.{Text, lit, text_eq, is_empty, trim_space, trim_prefix, has_prefix}
use g_lm.Prelude.Results.{Result, ok, err}
use g_lm.Prelude.Sorting.{sort_slice, text_less}
use g_lm.Model.Chat.{Json, Fields, null, string, object, end, field, ToolDefinition}
use g_lm.ToolCalling.{
  Reply, failed, answered, Network, JsonCodec, Client, supported_tool, is_success,
}

pub data DiscoveryError : Type 0 where
  no_base_url : DiscoveryError
  fetch_failed : Text → DiscoveryError
  fetch_status : ℕ → Text → DiscoveryError
  parse_failed missing_paths no_supported_tools : DiscoveryError

-- A member of an object that has the key once.
unfoldable pub get_field : Text → Fields → Option Json
unfolding text_eq
get_field k end = none
get_field k (field j v fs) = if text_eq j k then some v else get_field k fs

-- m[key] of a value that is asserted to be a map; a failed assertion gives the empty map.
unfoldable pub member : Text → Option Json → Option Json
unfolding get_field
member k (some (object fs)) = get_field k fs
member k _ = none

unfoldable pub text_of : Option Json → Text
unfolding trim_space
text_of (some (string s)) = trim_space s
text_of _ = []

-- exists and not nil
unfoldable pub schema_or_default : Option Json → Json
schema_or_default none = object (field (lit "type") (string (lit "object")) end)
schema_or_default (some null) = object (field (lit "type") (string (lit "object")) end)
schema_or_default (some v) = v

unfoldable pub definition_of : Text → Fields → ToolDefinition
unfolding get_field member text_of schema_or_default
definition_of name op =
    let post = get_field (lit "post") op in
    let summary = text_of (member (lit "summary") post) in
    let content = member (lit "content") (member (lit "requestBody") post) in
    record {
      type = lit "function";
      function = record {
        name = name;
        description =
            if is_empty summary then text_of (member (lit "description") post) else summary;
        parameters =
            schema_or_default (member (lit "schema") (member (lit "application/json") content));
      };
    }

-- One round of the loop over the document's paths.
unfoldable pub tool_of_path : Text → Json → Option ToolDefinition
unfolding has_prefix trim_prefix trim_space supported_tool definition_of
tool_of_path path (object op) =
    let name = trim_space (trim_prefix path (lit "/tools/")) in
    if has_prefix path (lit "/tools/") && supported_tool name
    then some (definition_of name op)
    else none
tool_of_path path _ = none

-- The loop, over the document's paths in an order of Go's choice.
unfoldable pub tools_of_paths : List (Text × Json) → List ToolDefinition
unfolding tool_of_path
tools_of_paths [] = []
tools_of_paths ((path, op) ∷ ps) =
    let rest = tools_of_paths ps in elim (tool_of_path path op) [ none ↦ rest | some d ↦ d ∷ rest ]

unfoldable pub entries : Fields → List (Text × Json)
entries end = []
entries (field k v fs) = (k, v) ∷ entries fs

unfoldable pub by_name : List ToolDefinition → List ToolDefinition
unfolding sort_slice text_less
by_name = sort_slice (λ a b. text_less a.function.name b.function.name)

abbrev pub PathOrder : Type 0
PathOrder = List (Text × Json) → List (Text × Json)

unfoldable pub read_paths : PathOrder → Option Json → Result DiscoveryError (List ToolDefinition)
unfolding tools_of_paths entries by_name
read_paths order (some (object ps)) =
    let defs = by_name (tools_of_paths (order (entries ps))) in
    if is_empty defs then err no_supported_tools else ok defs
read_paths order _ = err missing_paths

-- The document is asserted to be a map; json.Unmarshal leaves the nil map at null.
unfoldable pub read_document : PathOrder → Option Json → Result DiscoveryError (List ToolDefinition)
unfolding read_paths get_field
read_document order (some (object fs)) = read_paths order (get_field (lit "paths") fs)
read_document order (some null) = err missing_paths
read_document order _ = err parse_failed

unfoldable pub read_openapi :
    JsonCodec → PathOrder → Reply → Result DiscoveryError (List ToolDefinition)
unfolding read_document trim_space
read_openapi json order (failed e) = err (fetch_failed e)
read_openapi json order (answered status body) =
    if is_success status
    then read_document order (json.unmarshal body)
    else err (fetch_status status (trim_space body))

module _ {W : Type 0} (net : Network W) (json : JsonCodec) where
  unfoldable pub fetch_tool_definitions :
      PathOrder → Client → W → W × Result DiscoveryError (List ToolDefinition)
  unfolding read_openapi
  fetch_tool_definitions order c w =
      let sent = net.fetch (c.base_url ++ lit "/openapi.json") w in
      (sent.0, read_openapi json order sent.1)

  -- The client with its cache, the network and the answer.
  unfoldable pub tool_definitions :
      PathOrder → Client → W → Client × W × Result DiscoveryError (List ToolDefinition)
  unfolding fetch_tool_definitions
  tool_definitions order c w =
      let fetched = fetch_tool_definitions order c w in
      if is_empty c.base_url
      then (c, w, err no_base_url)
      else if not (is_empty c.cached_tools) && ltb (net.clock w - c.cached_at) c.cache_ttl
      then (c, w, ok c.cached_tools)
      else elim fetched.1 [
        | err e ↦ (c, fetched.0, err e)
        | ok defs ↦
            (record c { cached_tools = defs; cached_at = net.clock fetched.0 }, fetched.0, ok defs)
      ]
