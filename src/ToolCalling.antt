-- ===== src/ToolCalling.antt =====
-- internal/toolcalling/client.go: the client of the tool server. The network, the clock and the
-- random numbers are the parameter `Network` over a state `W`; encoding/json is `JsonCodec`. A
-- duration counts nanoseconds.
pub mod Discovery
pub mod Attempts
pub mod Loop
pub mod Chat
pub mod Rounds
pub mod Conversation
mod Tests
use g_lm.Prelude.{
  ℕ, zero, suc, ◌+◌, ◌*◌, Bool, true, false, not, ◌&&◌, ◌||◌, Option, none, some, List, [], ◌∷◌,
  ◌++◌, any, ltb, leb, ◌==◌, if◌then◌else◌,
}
use g_lm.Prelude.Int.{ℤ, pos, negsuc}
use g_lm.Prelude.Texts.{Text, lit, text_eq, is_empty, trim_space, trim_right}
use g_lm.Prelude.Results.{Result, ok, err, decimal}
use g_lm.Model.Chat.{Json, ToolDefinition}
use g_lm.Model.Records.{Time}

-- An exchange that failed on the network, or an answer: its status and its body.
pub data Reply : Type 0 where
  failed : Text → Reply
  answered : ℕ → Text → Reply

pub record Post : Type 0 where
  pub url : Text
  pub authorization : Text
  pub client_id : Text
  pub body : Text
  pub timeout : ℕ

-- `post` makes the request and sends it: where none can be made, as with a malformed URL, it fails.
pub record Network (W : Type 0) : Type 0 where
  pub fetch : Text → W → W × Reply
  pub post : Post → W → W × Reply
  pub sleep : ℕ → W → W
  pub rand_intn : ℕ → W → W × ℕ
  pub clock : W → Time

pub record JsonCodec : Type 0 where
  pub unmarshal : Text → Option Json
  pub marshal : Json → Text
  pub valid : Text → Bool

pub record Client : Type 0 where
  pub base_url : Text
  pub api_key : Text
  pub client_id : Text
  pub hard_ceiling : ℕ
  pub cache_ttl : ℕ
  pub cached_tools : List ToolDefinition
  pub cached_at : Time

pub record ToolPolicy : Type 0 where
  pub timeout : ℕ
  pub retries : ℕ

-- What a call may fail with. An error of the package net/http is a net.Error.
pub data CallError : Type 0 where
  unsupported_tool : Text → CallError
  not_configured : CallError
  net_error : Text → CallError
  status_error : ℕ → Text → CallError

abbrev pub second : ℕ
second = 1000000000

abbrev pub millisecond : ℕ
millisecond = 1000000

-- The time that is given, but one minute at most, and in the place of one that is not positive.
unfoldable pub ceiling : ℤ → ℕ
ceiling (pos zero) = 60 * second
ceiling (pos (suc n)) = if ltb (60 * second) (suc n) then 60 * second else suc n
ceiling (negsuc n) = 60 * second

unfoldable pub new_client : Text → Text → Text → ℤ → Client
unfolding ceiling trim_space trim_right
new_client base_url api_key client_id timeout = record {
  base_url = trim_right (trim_space base_url) b'/';
  api_key = trim_space api_key;
  client_id = trim_space client_id;
  hard_ceiling = ceiling timeout;
  cache_ttl = 5 * 60 * second;
  cached_tools = [];
  cached_at = 0;
}

abbrev pub supported_tools : List Text
supported_tools =
    lit "web_search"
    ∷ lit "fetch_url"
    ∷ lit "http_request"
    ∷ lit "vector_retrieve"
    ∷ lit "code_exec_sandbox"
    ∷ []

unfoldable pub supported_tool : Text → Bool
unfolding any text_eq trim_space
supported_tool name = any (text_eq (trim_space name)) supported_tools

unfoldable pub enabled : Client → Bool
enabled c = not (is_empty c.base_url) && not (is_empty c.api_key) && not (is_empty c.client_id)

unfoldable pub policy_for : Text → ToolPolicy
unfolding text_eq
policy_for name =
    if text_eq name (lit "web_search")
    then record { timeout = 12 * second; retries = 2 }
    else if text_eq name (lit "fetch_url")
    then record { timeout = 15 * second; retries = 1 }
    else if text_eq name (lit "vector_retrieve")
    then record { timeout = 20 * second; retries = 1 }
    else if text_eq name (lit "http_request")
    then record { timeout = 20 * second; retries = 0 }
    else if text_eq name (lit "code_exec_sandbox")
    then record { timeout = 45 * second; retries = 0 }
    else record { timeout = 20 * second; retries = 0 }

unfoldable pub should_retry : Text → CallError → Bool
unfolding text_eq
should_retry name (net_error e) =
    text_eq name (lit "web_search")
    || text_eq name (lit "fetch_url")
    || text_eq name (lit "vector_retrieve")
should_retry name (status_error status body) =
    if text_eq name (lit "web_search") || text_eq name (lit "fetch_url")
    then leb 500 status
    else text_eq name (lit "vector_retrieve") && (status == 429 || leb 500 status)
should_retry name (unsupported_tool t) = false
should_retry name not_configured = false

-- The text of an error.
unfoldable pub error_text : CallError → Text
unfolding decimal trim_space
error_text (unsupported_tool name) = lit "unsupported tool: " ++ name
error_text not_configured = lit "tool client is not configured"
error_text (net_error e) = e
error_text (status_error status body) =
    lit "tool status " ++ (decimal status ++ (lit ": " ++ trim_space body))

abbrev pub is_success : ℕ → Bool
is_success status = leb 200 status && ltb status 300

-- What callOnce makes of an exchange.
unfoldable pub read_reply : Reply → Result CallError Text
unfolding trim_space
read_reply (failed e) = err (net_error e)
read_reply (answered status body) =
    if is_success status
    then ok (if is_empty (trim_space body) then lit "{}" else body)
    else err (status_error status body)

-- The timeout of a call: the default in the place of none, and the client's ceiling at most.
unfoldable pub call_timeout : Client → ℕ → ℕ
call_timeout c timeout =
    let t = if timeout == 0 then 20 * second else timeout in
    if ltb 0 c.hard_ceiling && ltb c.hard_ceiling t then c.hard_ceiling else t

unfoldable pub retry_backoff : ℕ → ℕ → ℕ
retry_backoff attempt jitter = (attempt + 1) * (150 * millisecond) + jitter * millisecond

module _ {W : Type 0} (net : Network W) (c : Client) where
  unfoldable pub call_once : Text → Text → ℕ → W → W × Result CallError Text
  unfolding read_reply call_timeout trim_space
  call_once name payload timeout w =
      let sent =
        net.post
          (record {
            url = c.base_url ++ (lit "/tools/" ++ name);
            authorization = lit "Bearer " ++ c.api_key;
            client_id = c.client_id;
            body = if is_empty (trim_space payload) then lit "{}" else payload;
            timeout = call_timeout c timeout;
          })
          w in
      (sent.0, read_reply sent.1)

  -- time.Sleep(c.retryBackoff(attempt))
  unfoldable pub back_off : ℕ → W → W
  unfolding retry_backoff
  back_off attempt w =
      let (w', jitter) = net.rand_intn 150 w in net.sleep (retry_backoff attempt jitter) w'

  -- The loop of Call from an attempt on, with so many retries left.
  unfoldable pub attempt_from : ℕ → ℕ → Text → Text → ℕ → W → W × Result CallError Text
  unfolding call_once should_retry back_off
  attempt_from zero attempt name payload timeout w = call_once name payload timeout w
  attempt_from (suc left) attempt name payload timeout w =
      let sent = call_once name payload timeout w in
      elim sent.1 [
        | ok out ↦ sent
        | err e ↦ elim (should_retry name e) [
          | true ↦ attempt_from left (attempt + 1) name payload timeout (back_off attempt sent.0)
          | false ↦ sent
        ]
      ]

  unfoldable pub call : Text → Text → W → W × Result CallError Text
  unfolding supported_tool enabled policy_for attempt_from trim_space
  call tool_name payload w =
      let name = trim_space tool_name in
      let policy = policy_for name in
      if not (supported_tool name)
      then (w, err (unsupported_tool name))
      else if not (enabled c)
      then (w, err not_configured)
      else attempt_from policy.retries 0 name payload policy.timeout w
