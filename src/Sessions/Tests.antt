-- ===== src/Sessions/Tests.antt =====
-- The sessions at concrete inputs, in thousandths.
use g_lm.Prelude.{ℕ, ◌*◌, ◌/◌, ◌+◌, ◌-◌, ◌≡◌, ◌≤◌, refl, true, false, none, [], ◌∷◌, leb, arith}
use g_lm.Prelude.Texts.{lit}
use g_lm.Prelude.Floats.{thousandths, thousandths-IsOrdered, share_small, mul_small, always}
use g_lm.Prelude.Maps.{lookup}
use g_lm.Model.Chat.{ChatCompletionRequest}
use g_lm.Sessions.Detect.{extract_topic_tokens, detect_task_mode}
use g_lm.Sessions.Ranges.{IsBounded}
use g_lm.Sessions.Invariant.{AllInRange, record_turn-InRange}
use g_lm.Sessions.{Manager, record_user_input}

extract_topic_tokens_test :
    extract_topic_tokens (lit "The router, the Router of a model-host is up")
    ≡ lit "router" ∷ lit "model-host" ∷ []
unfolding extract_topic_tokens
extract_topic_tokens_test = refl

detect_task_mode_test : detect_task_mode (lit "Who is it?") ≡ lit "qa_light"
unfolding detect_task_mode
detect_task_mode_test = refl

mean_small :
    (a v w : ℕ)
    → a ≤ 1000
    → leb v 1000 ≡ true
    → leb w 1000 ≡ true
    → leb ((1000 - a) * v / 1000 + a * w / 1000) 1000 ≡ true
mean_small a v w n h k = ground (arith, share_small (1000 - a) v h, share_small a w k)

centre_small : (v : ℕ) → leb v 1000 ≡ true → leb (v * 2000 / 1000 - 1000) 1000 ≡ true
centre_small v h = ground arith

thousandths-IsBounded : IsBounded thousandths thousandths-IsOrdered
thousandths-IsBounded = record {
  number_of_le = λ a b h. (tt, tt);
  neg_one-le = refl;
  add_milli = λ v n h. tt;
  sub_milli = λ v n h. tt;
  div_three = λ v h. tt;
  add_band = λ v w h k. tt;
  mul_band = λ v w h k. (always _, mul_small v w h.1 k.1);
  centre = λ v h. (always _, centre_small v h.1);
  abs_band = λ v h. h;
  mean_band = λ a v w n h k. (always _, mean_small a v w n h.1 k.1);
  mean_unit = λ a v w n h k. (always _, mean_small a v w n h.1 k.1);
  decay_unit = λ d. (refl, refl);
}

abbrev urgent : ChatCompletionRequest ℕ
urgent = record {
  model = lit "m1";
  session_id = lit "s1";
  memory_anchor_keys = [];
  reasoning = none;
  symbolic_overlay = none;
  response_style = none;
  documents = [];
  document_flow = none;
  messages =
      record {
        role = lit "user";
        content = lit "Help now! Why, why, why??";
        name = [];
        tool_call_id = [];
        tool_calls = [];
      }
      ∷ [];
  tools = [];
  tool_choice = none;
  temperature = none;
  max_tokens = none;
  stream = false;
}

abbrev idle : Manager ℕ
idle = record { window = 20; sessions = [] }

idle-AllInRange : AllInRange thousandths thousandths-IsOrdered thousandths-IsBounded idle
unfolding lookup
idle-AllInRange id s h = absurd (cc h)

record_turn-InRange_example :
    AllInRange thousandths thousandths-IsOrdered thousandths-IsBounded
      (record_user_input thousandths (lit "s1") urgent 50 idle).0
record_turn-InRange_example =
    (record_turn-InRange thousandths thousandths-IsOrdered thousandths-IsBounded (lit "s1")
      (lit "ok") urgent 50 idle idle-AllInRange).0
