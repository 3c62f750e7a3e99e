-- ===== src/Overlay/Applied.antt =====
-- internal/symbolicoverlay/service.go: the overlay that Prepare applies.
use g_lm.Prelude.{
  ℕ, ◌≡◌, ◌≤◌, ◌⊎◌, refl, sym, subst, inl, inr, Bool, true, false, Option, none, some, arith,
  Bool-cases, if◌then◌else◌,
}
use g_lm.Prelude.Int.{ℤ, pos, negsuc, pos_part, ◌≤ℤ◌}
use g_lm.Prelude.Texts.{Text}
use g_lm.Prelude.Results.{Result, ok, err, Result-cases}
use g_lm.Model.Chat.{Json, SymbolicOverlayOptions, ChatCompletionRequest}
use g_lm.Model.Session.{CognitiveState}
use g_lm.Overlay.Options.{
  Config, OptionError, NormalizedOptions, normalize_options, normalize_given, disabled_options,
}
use g_lm.Overlay.Accepted.{IsAccepted, normalize_given-IsAccepted}
use g_lm.Overlay.Off.{IsOff, normalize_options-Tells}
use g_lm.Overlay.Artifact.{OverlayArtifact}
use g_lm.Overlay.Build.{collect_sources}
use g_lm.Overlay.Inject.{has_overlay_message}
use g_lm.Overlay.Prepare.{
  contains_user_token, OverlayResult, PrepareError, result_of, prepare_with, prepare,
}
use g_lm.Overlay.Prepared.{
  with_overlay, inject_overlay-rec, token, overlay_of, prepare_by, prepare_with_off,
  prepare_with_on,
}
use g_lm.Overlay.Budget.{symbol_count, build_artifact_lem}

abbrev AcceptedIfOn : Config → Result OptionError NormalizedOptions → Type 0
AcceptedIfOn cfg (ok opt) = opt.enabled ≡ true → IsAccepted cfg opt
AcceptedIfOn cfg (err e) = Unit

normalize_given-AcceptedIfOn :
    (cfg : Config) (r : Result OptionError NormalizedOptions)
    → ((opt : NormalizedOptions) → r ≡ ok opt → IsAccepted cfg opt)
    → AcceptedIfOn cfg r
normalize_given-AcceptedIfOn cfg (ok opt) h = λ e. h opt refl
normalize_given-AcceptedIfOn cfg (err e) h = tt

options-AcceptedIfOn :
    (cfg : Config) (on : Bool) (o : Option SymbolicOverlayOptions)
    → AcceptedIfOn cfg (
        if on
        then elim o [ none ↦ ok disabled_options | some opt ↦ normalize_given cfg opt ]
        else ok disabled_options)
options-AcceptedIfOn cfg false o = λ f. absurd cc
options-AcceptedIfOn cfg true none = λ f. absurd cc
options-AcceptedIfOn cfg true (some opt) =
    normalize_given-AcceptedIfOn cfg (normalize_given cfg opt) (normalize_given-IsAccepted cfg opt)

normalize_options-AcceptedIfOn :
    {F : Type 0}
    → (req : ChatCompletionRequest F) (cfg : Config) → AcceptedIfOn cfg (normalize_options req cfg)
unfolding normalize_options
normalize_options-AcceptedIfOn req cfg = options-AcceptedIfOn cfg cfg.enabled req.symbolic_overlay

limit_of :
    (limit n : ℤ) (count : ℕ)
    → pos 1 ≤ℤ n
    → (pos 1 ≤ℤ limit → n ≤ℤ limit)
    → count ≤ pos_part n
    → pos 1 ≤ℤ limit
    → pos count ≤ℤ limit
limit_of (pos k) (pos n) count a b c d = omega (arith, b d, c)
limit_of (pos k) (negsuc n) count a b c d = omega (arith, a)
limit_of (negsuc k) n count a b c d = omega (arith, d)

-- An artifact that the request tells the model.
pub record IsApplied {F : Type 0} (marshal : Json → Text) (cfg : Config)
    (req q : ChatCompletionRequest F) (res : OverlayResult) (a : OverlayArtifact) : Type 0 where
  pub applied : res.applied ≡ true
  pub artifact : res.artifact ≡ some a
  pub count : res.symbol_count ≡ symbol_count a
  pub limit : pos 1 ≤ℤ cfg.max_symbols → pos res.symbol_count ≤ℤ cfg.max_symbols
  pub told : has_overlay_message q.messages ≡ true
  pub request : (q ≡ req) ⊎ (q ≡ with_overlay marshal req a)

module _ {F : Type 0} (marshal : Json → Text) (cfg : Config) (st : CognitiveState F)
    (req : ChatCompletionRequest F) where
  abbrev pub IsPrepared : ChatCompletionRequest F → OverlayResult → Type 0
  IsPrepared q res =
      (IsOff cfg req.symbolic_overlay × (res.applied ≡ false) × (q ≡ req))
      ⊎ (¬ (IsOff cfg req.symbolic_overlay)
          × ((a : OverlayArtifact) × IsApplied marshal cfg req q res a))

  abbrev Prepared : Result PrepareError (ChatCompletionRequest F × OverlayResult) → Type 0
  Prepared (ok p) = IsPrepared p.0 p.1
  Prepared (err e) = Unit

  prepare_with-IsPrepared :
      (opt : NormalizedOptions)
      → normalize_options req cfg ≡ ok opt
      → let p = prepare_with marshal cfg opt req st in IsPrepared p.0 p.1
  unfolding has_overlay_message result_of
  prepare_with-IsPrepared opt f =
      let goal = λ (p : ChatCompletionRequest F × OverlayResult). IsPrepared p.0 p.1 in
      let accepted = subst (AcceptedIfOn cfg) f (normalize_options-AcceptedIfOn req cfg) in
      let built = overlay_of marshal cfg st opt req in
      let (on, off) = normalize_options-Tells req cfg opt f in
      elim (Bool-cases opt.enabled) [
        | inr g ↦
            subst goal (sym (prepare_with_off marshal cfg st opt req g)) (inl (off g, refl, refl))
        | inl g ↦
            let ok_options = accepted g in
            let (count, within) =
              build_artifact_lem (collect_sources req st opt (pos_part cfg.max_doc_chars)) opt
                ok_options.types in
            let is_told = λ (q : ChatCompletionRequest F).
              (has_overlay_message q.messages ≡ true)
              × ((q ≡ req) ⊎ (q ≡ with_overlay marshal req built.0)) in
            let (told, request) =
              inject_overlay-rec marshal is_told req built.0 (λ e. (e, inl refl))
                (refl, inr refl) in
            subst goal (sym (prepare_with_on marshal cfg st opt req g)) (
              inr (
                on g,
                (
                  built.0,
                  record {
                    applied = refl;
                    artifact = refl;
                    count = sym count;
                    limit =
                        limit_of cfg.max_symbols opt.max_symbols built.2 ok_options.symbols.0
                          ok_options.symbols.1 within;
                    told = told;
                    request = request;
                  },
                ),
              ))
      ]

  prepare-Prepared : Prepared (prepare marshal cfg req st)
  unfolding prepare
  prepare-Prepared = elim (Bool-cases (contains_user_token req.messages (token marshal cfg st))) [
    | inl e ↦ rw (e, prepare) tt
    | inr e ↦ elim (Result-cases (normalize_options req cfg)) [
      | inr (x, f) ↦ rw (e, f, prepare) tt
      | inl (opt, f) ↦
          subst Prepared (sym (prepare_by marshal cfg st req opt e f))
            (prepare_with-IsPrepared opt f)
    ]
  ]

  -- A request that is prepared stays as it is, and nothing is applied, exactly where the overlay is off:
  -- it is not configured, the request has no options for it, or these name the mode off. Otherwise the
  -- result is applied and has an artifact, and as the number of its symbols the right one, which is
  -- within the configured limit if that is positive; and the request has the message of an overlay: one
  -- that it had, or that of this artifact before its own.
  pub prepare-IsPrepared :
      (q : ChatCompletionRequest F) (res : OverlayResult)
      → prepare marshal cfg req st ≡ ok (q, res)
      → IsPrepared q res
  prepare-IsPrepared q res h = subst Prepared h prepare-Prepared
