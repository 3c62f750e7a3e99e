-- ===== src/Overlay/Prepared.antt =====
-- internal/symbolicoverlay/service.go: what Prepare makes of a request.
use g_lm.Prelude.{
  ℕ, ◌≡◌, refl, ap, sym, ◌∙◌, subst, inl, inr, true, false, List, ◌∷◌, ◌++◌, Bool-cases,
  if◌then◌else◌,
}
use g_lm.Prelude.Int.{pos_part}
use g_lm.Prelude.Texts.{Text, lit}
use g_lm.Prelude.Results.{Result, ok, err, Result-cases}
use g_lm.Model.Chat.{Json, ChatCompletionRequest}
use g_lm.Model.Json.{system_message}
use g_lm.Model.Session.{CognitiveState}
use g_lm.Overlay.Options.{Config, NormalizedOptions, normalize_options}
use g_lm.Overlay.Artifact.{OverlayArtifact}
use g_lm.Overlay.Build.{user_sources, collect_sources, build_artifact, is_user}
use g_lm.Overlay.Inject.{
  overlay_prompt_prefix, overlay_payload, has_overlay_message, inject_overlay,
}
use g_lm.Overlay.Prepare.{
  contains_user_token, OverlayResult, PrepareError, not_applied, result_of, prepare_with, prepare,
}

-- A request with the message of an artifact before its own.
abbrev pub with_overlay :
    {F : Type 0}
    → (Json → Text)
    → ChatCompletionRequest F
    → OverlayArtifact
    → ChatCompletionRequest F
with_overlay marshal req a = record req {
  messages = system_message (overlay_prompt_prefix ++ marshal (overlay_payload a)) ∷ req.messages;
}

module _ {F : Type 0} (marshal : Json → Text) where
  -- What holds of the request itself, if it has a message of an overlay, and of the request with one.
  pub inject_overlay-rec {ℓ} :
      (P : ChatCompletionRequest F → Type ℓ) (req : ChatCompletionRequest F) (a : OverlayArtifact)
      → (has_overlay_message req.messages ≡ true → P req)
      → P (with_overlay marshal req a)
      → P (inject_overlay marshal req a)
  unfolding inject_overlay
  inject_overlay-rec P req a h k = elim (Bool-cases (has_overlay_message req.messages)) [
    | inl e ↦ rw (e, inject_overlay) (h e)
    | inr e ↦ rw (e, inject_overlay) k
  ]

  inject_overlay_over :
      (req : ChatCompletionRequest F) (a : OverlayArtifact)
      → has_overlay_message req.messages ≡ true
      → inject_overlay marshal req a ≡ req
  unfolding inject_overlay
  inject_overlay_over req a e = rw (e, inject_overlay) refl

  has-with_overlay :
      (req : ChatCompletionRequest F) (a : OverlayArtifact)
      → has_overlay_message (with_overlay marshal req a).messages ≡ true
  unfolding has_overlay_message
  has-with_overlay req a = refl

  module _ (cfg : Config) (st : CognitiveState F) where
    abbrev pub token : Text
    token = lit "glm_internal_force_symbolic_prepare_error"

    -- What Prepare reads of two requests is the same, and the second one has a message of an overlay.
    record IsRead (opt : NormalizedOptions) (req q : ChatCompletionRequest F) : Type 0 where
      not_forced : contains_user_token q.messages token ≡ contains_user_token req.messages token
      options : normalize_options q cfg ≡ normalize_options req cfg
      sources :
          collect_sources q st opt (pos_part cfg.max_doc_chars)
          ≡ collect_sources req st opt (pos_part cfg.max_doc_chars)
      told : has_overlay_message q.messages ≡ true

    inject_overlay-IsRead :
        (opt : NormalizedOptions) (req : ChatCompletionRequest F) (a : OverlayArtifact)
        → IsRead opt req (inject_overlay marshal req a)
    unfolding contains_user_token normalize_options collect_sources user_sources is_user
    inject_overlay-IsRead opt req a =
        inject_overlay-rec (IsRead opt req) req a
          (λ e. record { not_forced = refl; options = refl; sources = refl; told = e })
          (record {
            not_forced = refl;
            options = refl;
            sources = refl;
            told = has-with_overlay req a;
          })

    pub prepare_by :
        (req : ChatCompletionRequest F) (opt : NormalizedOptions)
        → contains_user_token req.messages token ≡ false
        → normalize_options req cfg ≡ ok opt
        → prepare marshal cfg req st ≡ ok (prepare_with marshal cfg opt req st)
    unfolding prepare
    prepare_by req opt e f = rw (e, f, prepare) refl

    abbrev pub overlay_of :
        (opt : NormalizedOptions) (q : ChatCompletionRequest F) → OverlayArtifact × List Text × ℕ
    overlay_of opt q = build_artifact (collect_sources q st opt (pos_part cfg.max_doc_chars)) opt

    pub prepare_with_off :
        (opt : NormalizedOptions) (q : ChatCompletionRequest F)
        → opt.enabled ≡ false
        → prepare_with marshal cfg opt q st ≡ (q, not_applied opt.mode)
    unfolding prepare_with
    prepare_with_off opt q e = rw (e, prepare_with) refl

    pub prepare_with_on :
        (opt : NormalizedOptions) (q : ChatCompletionRequest F)
        → opt.enabled ≡ true
        → prepare_with marshal cfg opt q st
          ≡ (inject_overlay marshal q (overlay_of opt q).0, result_of opt (overlay_of opt q))
    unfolding prepare_with
    prepare_with_on opt q e =
        let built = overlay_of opt q in
        ap
          (λ b.
            if b
            then (inject_overlay marshal q built.0, result_of opt built)
            else (q, not_applied opt.mode))
          e

    prepare_with_twice :
        (opt : NormalizedOptions) (req : ChatCompletionRequest F)
        → contains_user_token req.messages token ≡ false
        → normalize_options req cfg ≡ ok opt
        → prepare marshal cfg (prepare_with marshal cfg opt req st).0 st
          ≡ ok (prepare_with marshal cfg opt req st)
    prepare_with_twice opt req e f =
        let again =
          λ (p : ChatCompletionRequest F × OverlayResult). prepare marshal cfg p.0 st ≡ ok p in
        let a = (overlay_of opt req).0 in
        let q = inject_overlay marshal req a in
        let r = inject_overlay-IsRead opt req a in
        elim (Bool-cases opt.enabled) [
          | inr g ↦
              let off = prepare_with_off opt req g in
              subst again (sym off) (prepare_by req opt e f ∙ ap ok off)
          | inl g ↦
              let same =
                ap
                  (λ s. (
                    inject_overlay marshal q (build_artifact s opt).0,
                    result_of opt (build_artifact s opt),
                  ))
                  r.sources in
              let over =
                ap (λ x. (x, result_of opt (overlay_of opt req)))
                  (inject_overlay_over q a r.told) in
              subst again (sym (prepare_with_on opt req g)) (
                prepare_by q opt (r.not_forced ∙ e) (r.options ∙ f)
                ∙ ap ok (prepare_with_on opt q g ∙ same ∙ over))
        ]

    abbrev Twice : Result PrepareError (ChatCompletionRequest F × OverlayResult) → Type 0
    Twice (ok p) = prepare marshal cfg p.0 st ≡ ok p
    Twice (err e) = Unit

    prepare-Twice : (req : ChatCompletionRequest F) → Twice (prepare marshal cfg req st)
    unfolding prepare
    prepare-Twice req = elim (Bool-cases (contains_user_token req.messages token)) [
      | inl e ↦ rw (e, prepare) tt
      | inr e ↦ elim (Result-cases (normalize_options req cfg)) [
        | inr (x, f) ↦ rw (e, f, prepare) tt
        | inl (opt, f) ↦ subst Twice (sym (prepare_by req opt e f)) (prepare_with_twice opt req e f)
      ]
    ]

    -- A request that has been prepared is prepared already: a second preparation in the same state
    -- of the session gives it again, with the same result.
    pub prepare_twice :
        (req q : ChatCompletionRequest F) (res : OverlayResult)
        → prepare marshal cfg req st ≡ ok (q, res)
        → prepare marshal cfg q st ≡ ok (q, res)
    prepare_twice req q res h = subst Twice h (prepare-Twice req)
