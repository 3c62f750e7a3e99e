-- ===== src/ToolCalling/Tests.antt =====
-- The tool client and the loop at concrete inputs.
use g_lm.Prelude.{ℕ, suc, ◌≡◌, ◌≤◌, refl, true, false, none, some, List, [], ◌∷◌, All}
use g_lm.Prelude.Int.{pos}
use g_lm.Prelude.Texts.{lit, trim_space}
use g_lm.Prelude.Results.{ok, decimal}
use g_lm.Model.Chat.{ToolCall, ChatCompletionRequest, ChatCompletionResponse}
use g_lm.ToolCalling.{
  answered, failed, Network, JsonCodec, Client, enabled, supported_tool, policy_for, call,
}
use g_lm.ToolCalling.Attempts.{IsCount, call_lem}
use g_lm.ToolCalling.Loop.{Upstream, max_rounds, no_response}
use g_lm.ToolCalling.Chat.{chat_rounds}
use g_lm.ToolCalling.Rounds.{IsKept, IsAskCount, chat_rounds-bound}
use g_lm.ToolCalling.Conversation.{Sent, chat_rounds-Sent}

-- A tool server that fails with 503, over the number of posts.
abbrev busy : Network ℕ
busy = record {
  fetch = λ url w. (w, failed (lit "down"));
  post = λ p w. (suc w, answered 503 (lit "busy"));
  sleep = λ n w. w;
  rand_intn = λ n w. (w, 7);
  clock = λ w. 0;
}

abbrev client : Client
client = record {
  base_url = lit "http://tools";
  api_key = lit "k";
  client_id = lit "glm";
  hard_ceiling = 60000000000;
  cache_ttl = 300000000000;
  cached_tools = [];
  cached_at = 0;
}

decimal_test : decimal 429 ≡ lit "429"
unfolding decimal
decimal_test = refl

call_test : (call busy client (lit " web_search") (lit "{}") 0).0 ≡ 3
unfolding call
call_test = refl

busy-IsCount : IsCount busy (λ w. w)
busy-IsCount = record {
  count_post = λ p w. refl;
  count_sleep = λ n w. refl;
  count_rand = λ n w. refl;
}

call_lem_example : (call busy client (lit " web_search") (lit "{}") 0).0 ≤ 3
unfolding policy_for trim_space supported_tool enabled
call_lem_example =
    ((call_lem busy client (λ w. w) busy-IsCount (lit " web_search") (lit "{}") 0).0 refl refl).1

abbrev codec : JsonCodec
codec = record { unmarshal = λ t. none; marshal = λ j. lit "{}"; valid = λ t. true }

abbrev question : ChatCompletionRequest ℕ
question = record {
  model = lit "m1";
  session_id = lit "s1";
  memory_anchor_keys = [];
  reasoning = none;
  symbolic_overlay = none;
  response_style = none;
  documents = [];
  document_flow = none;
  messages = [];
  tools = [];
  tool_choice = none;
  temperature = none;
  max_tokens = none;
  stream = false;
}

abbrev search : ToolCall
search = record {
  id = [];
  type = lit "function";
  function = record { name = lit "web_search"; arguments = [] };
}

-- A model that asks for a search whatever it is told.
abbrev asking : ChatCompletionResponse
asking = record no_response {
  choices =
      record {
        index = pos 0;
        message = record { role = []; content = []; name = []; tool_calls = search ∷ [] };
        finish_reason = [];
      }
      ∷ [];
}

-- A model's server that counts its calls, beside tools that do not.
abbrev quiet : Network ℕ
quiet = record busy { post = λ p w. (w, answered 200 (lit "{}")) }

abbrev curious : Upstream ℕ ℕ
curious = record { chat = λ r w. (suc w, ok asking) }

quiet-IsKept : (P : ℕ → Type 0) → IsKept quiet P
quiet-IsKept P = record { post = λ p w h. h; sleep = λ n w h. h; rand = λ n w h. h }

curious-IsAskCount : IsAskCount quiet codec curious (λ w. w)
curious-IsAskCount = record { count_chat = λ r w. refl; no_tool = λ n. quiet-IsKept (λ w. w ≡ n) }

chat_rounds-bound_example : (chat_rounds quiet codec curious (pos 2) (some client) question 0).0 ≤ 2
unfolding max_rounds enabled
chat_rounds-bound_example =
    (chat_rounds-bound quiet codec curious (λ w. w) client (pos 2) question 0 curious-IsAskCount
      refl).1

-- The requests that a model's server has seen, the last one first.
abbrev Log : Type 0
Log = List (ChatCompletionRequest ℕ)

abbrev silent : Network Log
silent = record {
  fetch = λ url w. (w, failed (lit "down"));
  post = λ p w. (w, answered 200 (lit "{}"));
  sleep = λ n w. w;
  rand_intn = λ n w. (w, 7);
  clock = λ w. 0;
}

abbrev recorder : Upstream ℕ Log
recorder = record { chat = λ r w. (r ∷ w, ok asking) }

chat_rounds-Sent_example :
    All (Sent question) (chat_rounds silent codec recorder (pos 2) (some client) question []).0
chat_rounds-Sent_example =
    chat_rounds-Sent silent codec recorder (All (Sent question))
      (record { post = λ p w h. h; sleep = λ n w h. h; rand = λ n w h. h }) question
      (λ r w s h. (s, h)) client (pos 2) [] tt
