-- ===== src/ToolCalling/Attempts.antt =====
-- internal/toolcalling/client.go: how often a call is sent, and what it returns.
use g_lm.Prelude.{
  ℕ, zero, suc, ◌+◌, ◌≡◌, ◌≤◌, ◌⊎◌, ◌∙◌, refl, inl, inr, true, false, arith, Bool-cases,
}
use g_lm.Prelude.Texts.{Text, lit, text_eq, trim_space}
use g_lm.Prelude.Results.{Result, err, Result-cases}
use g_lm.ToolCalling.{
  Network, Client, CallError, unsupported_tool, not_configured, Post, supported_tool, enabled,
  policy_for, should_retry, call_once, back_off, attempt_from, call,
}

-- A measure of the network that counts what is posted.
pub record IsCount {W : Type 0} (net : Network W) (posts : W → ℕ) : Type 0 where
  pub count_post : (p : Post) (w : W) → posts (net.post p w).0 ≡ suc (posts w)
  pub count_sleep : (n : ℕ) (w : W) → posts (net.sleep n w) ≡ posts w
  pub count_rand : (n : ℕ) (w : W) → posts (net.rand_intn n w).0 ≡ posts w

policy_for_bound : (name : Text) → (policy_for name).retries ≤ 2
unfolding policy_for
policy_for_bound name = ground arith

policy_for_once :
    (name : Text)
    → (name ≡ lit "http_request") ⊎ (name ≡ lit "code_exec_sandbox")
    → (policy_for name).retries ≡ 0
unfolding policy_for text_eq
policy_for_once name (inl e) = rw e
policy_for_once name (inr e) = rw e

module _ {W : Type 0} (net : Network W) (c : Client) (posts : W → ℕ)
    (counted : IsCount net posts) where
  count-call_once :
      (name payload : Text) (timeout : ℕ) (w : W)
      → posts (call_once net c name payload timeout w).0 ≡ suc (posts w)
  unfolding call_once
  count-call_once name payload timeout w = counted.count_post _ w

  count-back_off : (attempt : ℕ) (w : W) → posts (back_off net c attempt w) ≡ posts w
  unfolding back_off
  count-back_off attempt w = counted.count_sleep _ _ ∙ counted.count_rand 150 w

  -- With so many retries left a run of the loop posts at least once and at most once for each retry
  -- more, and it fails early only with an error that is not retried.
  abbrev Tried : Text → ℕ → W → W × Result CallError Text → Type 0
  Tried name left w sent =
      (suc (posts w) ≤ posts sent.0)
      × (posts sent.0 ≤ suc (left + posts w))
      × ((e : CallError)
          → sent.1 ≡ err e
          → (posts sent.0 ≡ suc (left + posts w)) ⊎ (should_retry name e ≡ false))

  attempt_from-Tried :
      (left attempt : ℕ) (name payload : Text) (timeout : ℕ) (w : W)
      → Tried name left w (attempt_from net c left attempt name payload timeout w)
  unfolding attempt_from
  attempt_from-Tried zero attempt name payload timeout w =
      let n = count-call_once name payload timeout w in
      (omega (arith, n), omega (arith, n), λ e p. inl (omega (arith, n)))
  attempt_from-Tried (suc left) attempt name payload timeout w =
      let sent = call_once net c name payload timeout w in
      let n = count-call_once name payload timeout w in
      let m = count-back_off attempt sent.0 in
      let (low, high, early) =
        attempt_from-Tried left (attempt + 1) name payload timeout
          (back_off net c attempt sent.0) in
      elim (Result-cases sent.1) [
        | inl (out, p) ↦
            rw (p, attempt_from) (omega (arith, n), omega (arith, n), λ e q. absurd (cc (p, q)))
        | inr (e, p) ↦ elim (Bool-cases (should_retry name e)) [
          | inl t ↦
              rw (p, t, attempt_from)
                (
                  omega (arith, n, m, low),
                  omega (arith, n, m, high),
                  λ e' q. elim (early e' q) [
                    | inl h ↦ inl (omega (arith, n, m, h))
                    | inr h ↦ inr h
                  ],
                )
          | inr t ↦
              rw (p, t, attempt_from)
                (
                  omega (arith, n),
                  omega (arith, n),
                  λ e' q. inr (let same : e ≡ e' = cc (p, q) in rw same at t),
                )
        ]
      ]

  -- A call of a supported tool by a configured client is posted at least once, and at most once for
  -- each retry of the tool's policy more; it fails with retries left only on an error that is not
  -- retried. Any other call fails and leaves the network alone. Every policy has two retries at most,
  -- and that of a request or a run of code has none. Posts are counted by a measure of the network's
  -- state.
  pub call_lem :
      (tool payload : Text) (w : W)
      → let name = trim_space tool in
        let sent = call net c tool payload w in
        let most = suc ((policy_for name).retries + posts w) in
        (supported_tool name ≡ true
          → enabled c ≡ true
          → (suc (posts w) ≤ posts sent.0)
            × (posts sent.0 ≤ most)
            × ((e : CallError)
                → sent.1 ≡ err e
                → (posts sent.0 ≡ most) ⊎ (should_retry name e ≡ false)))
        × (supported_tool name ≡ false → sent ≡ (w, err (unsupported_tool name)))
        × (supported_tool name ≡ true → enabled c ≡ false → sent ≡ (w, err not_configured))
        × ((policy_for name).retries ≤ 2)
        × ((name ≡ lit "http_request") ⊎ (name ≡ lit "code_exec_sandbox")
            → (policy_for name).retries ≡ 0)
  unfolding call
  call_lem tool payload w =
      let name = trim_space tool in
      (
        λ s e. rw (s, e, call) (attempt_from-Tried (policy_for name).retries 0 name payload _ w),
        λ s. rw (s, call) refl,
        λ s e. rw (s, e, call) refl,
        policy_for_bound name,
        policy_for_once name,
      )
