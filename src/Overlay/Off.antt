-- ===== src/Overlay/Off.antt =====
-- internal/symbolicoverlay/validate.go: when the overlay of a request is off.
use g_lm.Prelude.{
  ◌≡◌, ◌⊎◌, refl, sym, subst, ap, ◌∙◌, inl, inr, Bool, true, false, not, Option, none, some, List,
  [], ◌∷◌, any, Bool-cases, if◌then◌else◌,
}
use g_lm.Prelude.Int.{pos, ltb_ℤ}
use g_lm.Prelude.Texts.{Text, lit, text_eq, text_eq_iff, is_empty, to_lower, trim_space}
use g_lm.Prelude.Results.{Result, ok, err, Result-cases}
use g_lm.Model.Chat.{SymbolicOverlayOptions, ChatCompletionRequest}
use g_lm.Overlay.Options.{
  Config, OptionError, NormalizedOptions, disabled_options, modes, overlay_profiles, name_or,
  normalize_types, checked_options, normalize_given, normalize_options,
}

-- The overlay is not configured, the request has no options for it, or these name the mode off.
abbrev pub IsOff : Config → Option SymbolicOverlayOptions → Type 0
IsOff cfg none = Unit
IsOff cfg (some o) = (cfg.enabled ≡ false) ⊎ (to_lower (trim_space o.mode) ≡ lit "off")

abbrev Moded : SymbolicOverlayOptions → Result OptionError NormalizedOptions → Type 0
Moded o (ok n) = n.enabled ≡ not (text_eq (name_or (lit "assist") o.mode) (lit "off"))
Moded o (err e) = Unit

checked_options-Moded :
    (cfg : Config) (o : SymbolicOverlayOptions) (ts : List Text)
    → Moded o (checked_options cfg o ts)
unfolding checked_options
checked_options-Moded cfg o ts =
    let profile = name_or (lit "assist") o.overlay_profile in
    elim (Bool-cases (ltb_ℤ o.max_symbols (pos 0))) [
      | inl e ↦ rw e tt
      | inr e ↦ elim (Bool-cases (ltb_ℤ o.max_overlay_hops (pos 0))) [
        | inl f ↦ rw (e, f) tt
        | inr f ↦ elim (Bool-cases (text_eq (name_or (lit "v3") o.schema_version) (lit "v3"))) [
          | inr g ↦ rw (e, f, g) tt
          | inl g ↦ elim (Bool-cases (any (text_eq profile) overlay_profiles)) [
            | inr h ↦ rw (e, f, g, h) tt
            | inl h ↦ rw (e, f, g, h) refl
          ]
        ]
      ]
    ]

normalize_given-Moded :
    (cfg : Config) (o : SymbolicOverlayOptions) → Moded o (normalize_given cfg o)
unfolding normalize_given
normalize_given-Moded cfg o =
    elim (Bool-cases (any (text_eq (name_or (lit "assist") o.mode)) modes)) [
      | inr m ↦ rw m tt
      | inl m ↦ elim (Result-cases (normalize_types o.types)) [
        | inr (x, p) ↦ rw (m, p) tt
        | inl (ts, p) ↦ rw (m, p) (checked_options-Moded cfg o ts)
      ]
    ]

-- No other mode becomes off: a blank one does not.
name_or_off :
    (s : Text)
    → text_eq (name_or (lit "assist") s) (lit "off") ≡ text_eq (to_lower (trim_space s)) (lit "off")
unfolding name_or text_eq
name_or_off s = elim (Bool-cases (is_empty (to_lower (trim_space s)))) [
  | inl e ↦ rw e (sym (blank (to_lower (trim_space s)) e))
  | inr e ↦ rw e refl
]
  where
    blank : (t : Text) → is_empty t ≡ true → text_eq t (lit "off") ≡ false
    blank [] e = refl
    blank (c ∷ t) e = absurd cc

-- Normal options are off under exactly these conditions.
abbrev pub Tells : Config → Option SymbolicOverlayOptions → NormalizedOptions → Type 0
Tells cfg given n = (n.enabled ≡ true → ¬ (IsOff cfg given)) × (n.enabled ≡ false → IsOff cfg given)

disabled-Tells :
    (cfg : Config) (given : Option SymbolicOverlayOptions)
    → IsOff cfg given
    → Tells cfg given disabled_options
disabled-Tells cfg given h = (λ e. absurd cc, λ e. h)

moded-Tells :
    (cfg : Config) (o : SymbolicOverlayOptions) (n : NormalizedOptions)
    → cfg.enabled ≡ true
    → n.enabled ≡ not (text_eq (to_lower (trim_space o.mode)) (lit "off"))
    → Tells cfg (some o) n
moded-Tells cfg o n on e =
    let same = text_eq_iff (to_lower (trim_space o.mode)) (lit "off") in
    elim (Bool-cases (text_eq (to_lower (trim_space o.mode)) (lit "off"))) [
      | inl f ↦ (λ g. absurd cc, λ g. inr (same.0 f))
      | inr f ↦ (
        λ g h. elim h [ inl p ↦ absurd (cc (p, on)) | inr p ↦ absurd (cc (f, same.1 p)) ],
        λ g. absurd cc,
      )
    ]

abbrev Told : Config → Option SymbolicOverlayOptions → Result OptionError NormalizedOptions → Type 0
Told cfg given (ok n) = Tells cfg given n
Told cfg given (err e) = Unit

given-Told :
    (cfg : Config) (o : SymbolicOverlayOptions)
    → cfg.enabled ≡ true
    → Told cfg (some o) (normalize_given cfg o)
given-Told cfg o on = elim (Result-cases (normalize_given cfg o)) [
  | inr (x, p) ↦ rw p tt
  | inl (n, p) ↦ rw p (
      moded-Tells cfg o n on
        (subst (Moded o) p (normalize_given-Moded cfg o) ∙ ap not (name_or_off o.mode)))
]

options-Told :
    (cfg : Config) (given : Option SymbolicOverlayOptions) (on : Bool)
    → cfg.enabled ≡ on
    → Told cfg given (
        if on
        then elim given [ none ↦ ok disabled_options | some o ↦ normalize_given cfg o ]
        else ok disabled_options)
options-Told cfg none true e = disabled-Tells cfg none tt
options-Told cfg none false e = disabled-Tells cfg none tt
options-Told cfg (some o) true e = given-Told cfg o e
options-Told cfg (some o) false e = disabled-Tells cfg (some o) (inl e)

pub normalize_options-Tells :
    {F : Type 0}
    → (req : ChatCompletionRequest F) (cfg : Config) (n : NormalizedOptions)
    → normalize_options req cfg ≡ ok n
    → Tells cfg req.symbolic_overlay n
unfolding normalize_options
normalize_options-Tells req cfg n h =
    subst (Told cfg req.symbolic_overlay) h (options-Told cfg req.symbolic_overlay cfg.enabled refl)
