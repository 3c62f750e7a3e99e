-- ===== src/ToolCalling/Rounds.antt =====
-- internal/http/toolcalling.go: how many rounds a chat with tools takes, and which requests it sends.
use g_lm.Prelude.{
  ℕ, zero, suc, ◌+◌, ◌≡◌, ◌≤◌, ◌⊎◌, refl, inl, inr, true, none, some, List, [], ◌∷◌, ◌++◌, length,
  arith, Bool-cases, Option-cases,
}
use g_lm.Prelude.Int.{ℤ}
use g_lm.Prelude.Texts.{Text, trim_space}
use g_lm.Prelude.Results.{Result-cases}
use g_lm.Model.Chat.{ToolCall, ChatCompletionRequest, ChatCompletionResponse}
use g_lm.ToolCalling.{
  Network, JsonCodec, Client, Post, call_once, back_off, attempt_from, call, enabled, should_retry,
  supported_tool, policy_for,
}
use g_lm.ToolCalling.Loop.{
  max_iterations, upstream, Upstream, ChatOutcome, no_response, assistant_of, payload_of,
  execute_tool_call, answer_all, rounds, max_rounds,
}
use g_lm.ToolCalling.Chat.{chat_rounds}

-- What a tool call leaves as it is: a predicate that no post, no sleep and no random number changes.
pub record IsKept {W : Type 0} (net : Network W) (P : W → Type 0) : Type 0 where
  pub post : (p : Post) (w : W) → P w → P (net.post p w).0
  pub sleep : (n : ℕ) (w : W) → P w → P (net.sleep n w)
  pub rand : (n : ℕ) (w : W) → P w → P (net.rand_intn n w).0

module _ {W : Type 0} (net : Network W) (P : W → Type 0) (kept : IsKept net P) (c : Client) where
  keep-call_once :
      (name payload : Text) (timeout : ℕ) (w : W)
      → P w
      → P (call_once net c name payload timeout w).0
  unfolding call_once
  keep-call_once name payload timeout w h = kept.post _ w h

  keep-attempt_from :
      (left attempt : ℕ) (name payload : Text) (timeout : ℕ) (w : W)
      → P w
      → P (attempt_from net c left attempt name payload timeout w).0
  unfolding attempt_from
  keep-attempt_from zero attempt name payload timeout w h = keep-call_once name payload timeout w h
  keep-attempt_from (suc left) attempt name payload timeout w h =
      let sent = call_once net c name payload timeout w in
      let h' = keep-call_once name payload timeout w h in
      elim (Result-cases sent.1) [
        | inl (out, p) ↦ rw (p, attempt_from) h'
        | inr (e, p) ↦ elim (Bool-cases (should_retry name e)) [
          | inl t ↦
              rw (p, t, attempt_from)
                (keep-attempt_from left (attempt + 1) name payload timeout _
                  (unfold back_off in kept.sleep _ _ (kept.rand 150 sent.0 h')))
          | inr t ↦ rw (p, t, attempt_from) h'
        ]
      ]

  keep-call : (tool payload : Text) (w : W) → P w → P (call net c tool payload w).0
  unfolding call
  keep-call tool payload w h =
      let name = trim_space tool in
      elim (Bool-cases (supported_tool name)) [
        | inl s ↦ elim (Bool-cases (enabled c)) [
          | inl e ↦
              rw (s, e, call)
                (keep-attempt_from (policy_for name).retries 0 name payload
                  (policy_for name).timeout w h)
          | inr e ↦ rw (s, e, call) h
        ]
        | inr s ↦ rw (s, call) h
      ]

  module _ (json : JsonCodec) where
    keep-execute_tool_call : (tc : ToolCall) (w : W) → P w → P (execute_tool_call net json c tc w).0
    unfolding execute_tool_call
    keep-execute_tool_call tc w h =
        elim (Bool-cases (supported_tool (trim_space tc.function.name))) [
          | inl s ↦
              rw (s, execute_tool_call)
                (keep-call (trim_space tc.function.name) (payload_of tc.function.arguments) w h)
          | inr s ↦ rw (s, execute_tool_call) h
        ]

    pub keep-answer_all :
        (iter idx : ℕ) (tcs : List ToolCall) (w : W)
        → P w
        → P (answer_all net json c iter idx tcs w).0
    unfolding answer_all
    keep-answer_all iter idx [] w h = h
    keep-answer_all iter idx (tc ∷ tcs) w h =
        keep-answer_all iter (idx + 1) tcs _ (keep-execute_tool_call tc w h)

-- What is sent and counted in the rounds.
module _ {F W : Type 0} (net : Network W) (json : JsonCodec) (up : Upstream F W)
    (asks : W → ℕ) where
  -- A measure of the state that counts the calls of the model.
  pub record IsAskCount : Type 0 where
    pub count_chat : (req : ChatCompletionRequest F) (w : W) → asks (up.chat req w).0 ≡ suc (asks w)
    pub no_tool : (n : ℕ) → IsKept net (λ w. asks w ≡ n)

  -- The results of rounds that begin with the number `iter` and have so many left.
  abbrev Ran : ℕ → ℕ → W → W × ChatOutcome → Type 0
  Ran left iter w out =
      (out.1.iterations + 1 ≤ iter + left)
      × (asks out.0 ≤ left + asks w)
      × ((out.1.error ≡ none)
            × (assistant_of out.1.response.choices ≡ none)
            × (asks out.0 + iter ≡ asks w + out.1.iterations + 1)
          ⊎ (out.1.error ≡ some max_iterations)
            × (out.1.iterations + 1 ≡ iter + left)
            × (asks out.0 ≡ left + asks w)
          ⊎ ((e : Text) × (out.1.error ≡ some (upstream e))))

  rounds-Ran :
      IsAskCount
      → (c : Client) (left iter calls : ℕ) (last : ChatCompletionResponse)
        (working : ChatCompletionRequest F) (w : W)
      → 1 ≤ iter
      → Ran left iter w (rounds net json up c left iter calls last working w)
  unfolding rounds
  rounds-Ran k c zero iter calls last working w h =
      (omega arith, omega arith, inr (inl (refl, omega arith, omega arith)))
  rounds-Ran k c (suc left) iter calls last working w h =
      let sent = up.chat working w in
      let n = k.count_chat working w in
      elim (Result-cases sent.1) [
        | inr (e, p) ↦ rw (p, rounds) (omega (arith, n), omega (arith, n), inr (inr (e, refl)))
        | inl (resp, p) ↦ elim (Option-cases (assistant_of resp.choices)) [
          | inl a ↦
              rw (p, a, rounds)
                (omega (arith, n), omega (arith, n), inl (refl, a, omega (arith, n)))
          | inr (asked, a) ↦
              let answered = answer_all net json c iter 0 asked.tool_calls sent.0 in
              let m =
                keep-answer_all net (λ w'. asks w' ≡ asks sent.0) (k.no_tool (asks sent.0)) c json
                  iter 0 asked.tool_calls sent.0 refl in
              let next : ChatCompletionRequest F = record working {
                messages = working.messages ++ (asked ∷ answered.1);
              } in
              let calls' = length answered.1 + calls in
              let (most, times, ended) =
                rounds-Ran k c left (iter + 1) calls' resp next answered.0 (omega arith) in
              rw (p, a, rounds)
                (
                  omega (arith, most),
                  omega (arith, n, m, times),
                  elim ended [
                    | inl (e, r, t) ↦ inl (e, r, omega (arith, n, m, t))
                    | inr (inl (e, i, t)) ↦ inr (inl (e, omega (arith, i), omega (arith, n, m, t)))
                    | inr (inr e) ↦ inr (inr e)
                  ],
                )
        ]
      ]

  -- A configured client's chat for a request with tools ends after at most as many calls of the model
  -- as are configured, or four. It ends without an error when the model asks for no tool, one call for
  -- each round; with the error of too many rounds after exactly that many calls; or with an error of
  -- the model's server. Calls are counted by a measure that the tools leave alone.
  pub chat_rounds-bound :
      (c : Client) (max : ℤ) (req : ChatCompletionRequest F) (w : W)
      → IsAskCount
      → enabled c ≡ true
      → let out = chat_rounds net json up max (some c) req w in
        let most = max_rounds max in
        (out.1.iterations ≤ most)
        × (asks out.0 ≤ most + asks w)
        × ((out.1.error ≡ none)
              × (assistant_of out.1.response.choices ≡ none)
              × (asks out.0 ≡ asks w + out.1.iterations)
            ⊎ (out.1.error ≡ some max_iterations)
              × (out.1.iterations ≡ most)
              × (asks out.0 ≡ most + asks w)
            ⊎ ((e : Text) × (out.1.error ≡ some (upstream e))))
  unfolding chat_rounds
  chat_rounds-bound c max req w k on =
      let (most, times, ended) =
        rounds-Ran k c (max_rounds max) 1 0 no_response req w (omega arith) in
      rw (on, chat_rounds)
        (
          omega (arith, most),
          times,
          elim ended [
            | inl (e, r, t) ↦ inl (e, r, omega (arith, t))
            | inr (inl (e, i, t)) ↦ inr (inl (e, omega (arith, i), t))
            | inr (inr e) ↦ inr (inr e)
          ],
        )
