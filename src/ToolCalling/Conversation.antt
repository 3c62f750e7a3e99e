-- ===== src/ToolCalling/Conversation.antt =====
-- internal/http/toolcalling.go: the conversations that a chat with tools sends to the model.
use mathlib.Core.List.{append_assoc, append-nil}
use g_lm.Prelude.{
  ap, sym, ◌∙◌, ℕ, zero, suc, ◌+◌, ◌≡◌, refl, inl, inr, false, some, List, [], ◌∷◌, ◌++◌, length,
  arith, Bool-cases, Option-cases,
}
use g_lm.Prelude.Int.{ℤ}
use g_lm.Prelude.Texts.{Text, lit, is_empty, trim_space}
use g_lm.Prelude.Results.{Result-cases}
use g_lm.Model.Chat.{Choice, ToolCall, Message, ChatCompletionRequest, ChatCompletionResponse}
use g_lm.ToolCalling.{Network, JsonCodec, Client, enabled}
use g_lm.ToolCalling.Loop.{
  Upstream, no_response, assistant_of, reply_id, execute_tool_call, answer_all, rounds, max_rounds,
}
use g_lm.ToolCalling.Chat.{chat_rounds}
use g_lm.ToolCalling.Rounds.{IsKept, keep-answer_all}

-- One message of the role tool for each tool call, in their order, under the call's identifier or,
-- where that is blank, under one that is not.
abbrev pub Answers : List ToolCall → List Message → Type 0
Answers [] [] = Unit
Answers [] (m ∷ ms) = ⊥
Answers (tc ∷ tcs) [] = ⊥
Answers (tc ∷ tcs) (m ∷ ms) =
    ((m.role ≡ lit "tool")
      × (m.name ≡ tc.function.name)
      × (is_empty m.tool_call_id ≡ false)
      × (is_empty (trim_space tc.id) ≡ false → m.tool_call_id ≡ trim_space tc.id))
    × Answers tcs ms

-- Rounds of an assistant's message that asks for tools and the answers to all of its calls.
pub data Exchange : List Message → Type 0 where
  start : Exchange []
  round :
      {more : List Message} (asked : Message) (answers : List Message)
      → Exchange more
      → is_empty asked.tool_calls ≡ false
      → Answers asked.tool_calls answers
      → Exchange (more ++ (asked ∷ answers))

-- The request with the messages of such rounds after its own.
abbrev pub Sent : {F : Type 0} → ChatCompletionRequest F → ChatCompletionRequest F → Type 0
Sent req r =
    (more : List Message) × Exchange more × (r ≡ record req { messages = req.messages ++ more })

reply_id_lem :
    (iter idx : ℕ) (id : Text)
    → (is_empty (reply_id iter idx id) ≡ false)
      × (is_empty (trim_space id) ≡ false → reply_id iter idx id ≡ trim_space id)
unfolding reply_id
reply_id_lem iter idx id = elim (Bool-cases (is_empty (trim_space id))) [
  | inl e ↦ rw (e, reply_id) (refl, λ h. absurd (cc h))
  | inr e ↦ rw (e, reply_id) (e, λ h. refl)
]

assistant_of-asks :
    (cs : List Choice) (asked : Message)
    → assistant_of cs ≡ some asked
    → is_empty asked.tool_calls ≡ false
unfolding assistant_of
assistant_of-asks [] asked h = absurd (cc h)
assistant_of-asks (c ∷ cs) asked h = ground arith

longer :
    {F : Type 0} (req r : ChatCompletionRequest F) (more tail : List Message)
    → r ≡ record req { messages = req.messages ++ more }
    → ◌≡◌ {A = ChatCompletionRequest F}
        (record r { messages = r.messages ++ tail })
        (record req { messages = req.messages ++ (more ++ tail) })
longer {F} req r more tail e =
    ap (λ (x : ChatCompletionRequest F). record x { messages = x.messages ++ tail }) e
    ∙ ap (λ ms. record req { messages = ms }) (append_assoc req.messages more tail)

module _ {F W : Type 0} (net : Network W) (json : JsonCodec) (up : Upstream F W) where
  answer_all-Answers :
      (c : Client) (iter idx : ℕ) (tcs : List ToolCall) (w : W)
      → Answers tcs (answer_all net json c iter idx tcs w).1
  unfolding answer_all
  answer_all-Answers c iter idx [] w = tt
  answer_all-Answers c iter idx (tc ∷ tcs) w =
      let (shown, same) = reply_id_lem iter idx tc.id in
      (
        (refl, refl, shown, same),
        answer_all-Answers c iter (idx + 1) tcs (execute_tool_call net json c tc w).0,
      )

  module _ (P : W → Type 0) (kept : IsKept net P) (req : ChatCompletionRequest F)
      (sound : (r : ChatCompletionRequest F) (w : W) → Sent req r → P w → P (up.chat r w).0) where
    rounds-Sent :
        (c : Client) (left iter calls : ℕ) (last : ChatCompletionResponse)
        (working : ChatCompletionRequest F) (w : W)
        → Sent req working
        → P w
        → P (rounds net json up c left iter calls last working w).0
    unfolding rounds
    rounds-Sent c zero iter calls last working w s h = h
    rounds-Sent c (suc left) iter calls last working w (more, ex, e) h =
        let sent = up.chat working w in
        let h' = sound working w (more, ex, e) h in
        elim (Result-cases sent.1) [
          | inr (x, p) ↦ rw (p, rounds) h'
          | inl (resp, p) ↦ elim (Option-cases (assistant_of resp.choices)) [
            | inl a ↦ rw (p, a, rounds) h'
            | inr (asked, a) ↦
                let answered = answer_all net json c iter 0 asked.tool_calls sent.0 in
                let more' = more ++ (asked ∷ answered.1) in
                let next : ChatCompletionRequest F = record working {
                  messages = working.messages ++ (asked ∷ answered.1);
                } in
                let ex' =
                  round asked answered.1 ex (assistant_of-asks resp.choices asked a)
                    (answer_all-Answers c iter 0 asked.tool_calls sent.0) in
                rw (p, a, rounds)
                  (rounds-Sent c left (iter + 1) (length answered.1 + calls) resp next answered.0
                    (more', ex', longer req working more (asked ∷ answered.1) e)
                    (keep-answer_all net P kept c json iter 0 asked.tool_calls sent.0 h'))
          ]
        ]

    -- Every request that a chat with tools sends to the model is the caller's with rounds of messages
    -- after its own: an assistant's message that asks for tools, and then one answer of the role tool
    -- to each of its calls, in their order and under their identifiers. Said by what the model's
    -- server keeps: a predicate that tool calls do not touch, and that such requests preserve.
    pub chat_rounds-Sent :
        (c : Client) (max : ℤ) (w : W) → P w → P (chat_rounds net json up max (some c) req w).0
    unfolding chat_rounds
    chat_rounds-Sent c max w h = elim (Bool-cases (enabled c)) [
      | inl on ↦
          rw (on, chat_rounds)
            (rounds-Sent c (max_rounds max) 1 0 no_response req w
              ([], start, ap (λ ms. record req { messages = ms }) (sym (append-nil req.messages)))
              h)
      | inr off ↦ rw (off, chat_rounds) h
    ]
