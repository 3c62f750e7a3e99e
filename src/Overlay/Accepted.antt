-- ===== src/Overlay/Accepted.antt =====
-- internal/symbolicoverlay/validate.go: what options that are accepted may hold.
use g_lm.Prelude.{
  ap, ◌≡◌, ◌≢◌, ◌↔◌, sym, subst, refl, inl, inr, true, false, not, List, [], ◌∷◌, any, Elem,
  Elem-of_any, arith, Bool-cases,
}
use g_lm.Prelude.Int.{ℤ, pos, ltb_ℤ, ◌≤ℤ◌}
use g_lm.Prelude.Texts.{Text, lit, text_eq, text_eq_iff, is_empty, to_lower, trim_space}
use g_lm.Prelude.Results.{Result, ok, err, Result-cases}
use g_lm.Model.Chat.{SymbolicOverlayOptions}
use g_lm.Overlay.Options.{
  Config, OptionError, NormalizedOptions, modes, supported_types, overlay_profiles, name_or,
  read_types, normalize_types, limit_hops, limit_symbols, checked_options, normalize_given,
}

Elem-of_text : (t : Text) (ts : List Text) → any (text_eq t) ts ≡ true → Elem t ts
Elem-of_text t ts h =
    let (s, m, e) = Elem-of_any (text_eq t) ts h in
    subst (λ x. Elem x ts) (sym ((text_eq_iff t s).0 e)) m

limit_hops_bounds : (n : ℤ) → (pos 1 ≤ℤ limit_hops n) × (limit_hops n ≤ℤ pos 6)
unfolding limit_hops
limit_hops_bounds n = ground arith

limit_symbols_bounds :
    (c n : ℤ) → (pos 1 ≤ℤ limit_symbols c n) × (pos 1 ≤ℤ c → limit_symbols c n ≤ℤ c)
unfolding limit_symbols
limit_symbols_bounds c n = ground arith

-- What the loop over the types returns: supported ones, each once, and none that was seen.
abbrev pub AreTypes : List Text → List Text → Type 0
AreTypes seen [] = Unit
AreTypes seen (t ∷ ts) =
    Elem t supported_types × (any (text_eq t) seen ≡ false) × AreTypes (t ∷ seen) ts

abbrev Read : List Text → Result OptionError (List Text) → Type 0
Read seen (ok ts) = AreTypes seen ts
Read seen (err e) = Unit

read_types-Read : (seen raws : List Text) → Read seen (read_types seen raws)
unfolding read_types
read_types-Read seen [] = tt
read_types-Read seen (raw ∷ raws) =
    let t = to_lower (trim_space raw) in
    let rest = read_types-Read seen raws in
    let next = read_types-Read (t ∷ seen) raws in
    elim (Bool-cases (is_empty t)) [
      | inl e ↦ rw (e, read_types) rest
      | inr e ↦ elim (Bool-cases (any (text_eq t) supported_types)) [
        | inr f ↦ rw (e, f, read_types) tt
        | inl f ↦ elim (Bool-cases (any (text_eq t) seen)) [
          | inl g ↦ rw (e, f, g, read_types) rest
          | inr g ↦ elim (Result-cases (read_types (t ∷ seen) raws)) [
            | inl (ts, p) ↦
                rw (e, f, g, read_types, p) (Elem-of_text t supported_types f, g, rw p at next)
            | inr (x, p) ↦ rw (e, f, g, read_types, p) tt
          ]
        ]
      ]
    ]

-- The strings of the options that are accepted, their bounds, and whether the overlay is on.
pub record IsAccepted (cfg : Config) (n : NormalizedOptions) : Type 0 where
  pub mode : Elem n.mode modes
  pub enabled : (n.enabled ≡ true) ↔ (n.mode ≢ lit "off")
  pub profile : Elem n.overlay_profile overlay_profiles
  pub version : n.schema_version ≡ lit "v3"
  pub hops : (pos 1 ≤ℤ n.max_overlay_hops) × (n.max_overlay_hops ≤ℤ pos 6)
  pub symbols :
      (pos 1 ≤ℤ n.max_symbols) × (pos 1 ≤ℤ cfg.max_symbols → n.max_symbols ≤ℤ cfg.max_symbols)
  pub some_type : is_empty n.types ≡ false
  pub types : AreTypes [] n.types

abbrev Typed : Result OptionError (List Text) → Type 0
Typed (ok ts) = (is_empty ts ≡ false) × AreTypes [] ts
Typed (err e) = Unit

normalize_types-Typed : (raws : List Text) → Typed (normalize_types raws)
unfolding normalize_types
normalize_types-Typed [] = (
  refl,
  (
    Elem-of_text (lit "logic_map") supported_types refl,
    refl,
    (
      Elem-of_text (lit "constraint_set") supported_types refl,
      refl,
      (Elem-of_text (lit "risk_lens") supported_types refl, refl, tt),
    ),
  ),
)
normalize_types-Typed (raw ∷ raws) =
    let read = read_types-Read [] (raw ∷ raws) in
    elim (Result-cases (read_types [] (raw ∷ raws))) [
      | inl ([], p) ↦ rw (p, normalize_types) tt
      | inl (t ∷ ts, p) ↦ rw (p, normalize_types) (refl, rw p at read)
      | inr (x, p) ↦ rw (p, normalize_types) tt
    ]

abbrev Accepted : Config → Result OptionError NormalizedOptions → Type 0
Accepted cfg (ok n) = IsAccepted cfg n
Accepted cfg (err e) = Unit

not-text_eq : (s t : Text) → (not (text_eq s t) ≡ true) ↔ (s ≢ t)
not-text_eq s t = elim (Bool-cases (text_eq s t)) [
  | inl e ↦ (λ h. absurd cc, λ h. absurd (h ((text_eq_iff s t).0 e)))
  | inr e ↦ (λ h p. absurd (cc ((text_eq_iff s t).1 p)), λ h. ap not e)
]

checked_options-Accepted :
    (cfg : Config) (opt : SymbolicOverlayOptions) (ts : List Text)
    → any (text_eq (name_or (lit "assist") opt.mode)) modes ≡ true
    → Typed (ok ts)
    → Accepted cfg (checked_options cfg opt ts)
unfolding checked_options
checked_options-Accepted cfg opt ts m t =
    let mode = name_or (lit "assist") opt.mode in
    let profile = name_or (lit "assist") opt.overlay_profile in
    let version = name_or (lit "v3") opt.schema_version in
    elim (Bool-cases (ltb_ℤ opt.max_symbols (pos 0))) [
      | inl e ↦ rw e tt
      | inr e ↦ elim (Bool-cases (ltb_ℤ opt.max_overlay_hops (pos 0))) [
        | inl f ↦ rw (e, f) tt
        | inr f ↦ elim (Bool-cases (text_eq version (lit "v3"))) [
          | inr g ↦ rw (e, f, g) tt
          | inl g ↦ elim (Bool-cases (any (text_eq profile) overlay_profiles)) [
            | inr h ↦ rw (e, f, g, h) tt
            | inl h ↦
                rw (e, f, g, h)
                  (record {
                    mode = Elem-of_text mode modes m;
                    enabled = not-text_eq mode (lit "off");
                    profile = Elem-of_text profile overlay_profiles h;
                    version = (text_eq_iff version (lit "v3")).0 g;
                    hops = limit_hops_bounds opt.max_overlay_hops;
                    symbols = limit_symbols_bounds cfg.max_symbols opt.max_symbols;
                    some_type = t.0;
                    types = t.1;
                  })
          ]
        ]
      ]
    ]

normalize_given-Accepted :
    (cfg : Config) (opt : SymbolicOverlayOptions) → Accepted cfg (normalize_given cfg opt)
unfolding normalize_given
normalize_given-Accepted cfg opt =
    let typed = normalize_types-Typed opt.types in
    elim (Bool-cases (any (text_eq (name_or (lit "assist") opt.mode)) modes)) [
      | inr m ↦ rw m tt
      | inl m ↦ elim (Result-cases (normalize_types opt.types)) [
        | inr (x, p) ↦ rw (m, p) tt
        | inl (ts, p) ↦ rw (m, p) (checked_options-Accepted cfg opt ts m (rw p at typed))
      ]
    ]

-- Options that are accepted hold a known mode, and are on unless it is off; a known profile and the
-- one version; from one to six hops; at least one symbol, and no more than configured where that is
-- positive; and at least one type, each supported and each once.
pub normalize_given-IsAccepted :
    (cfg : Config) (opt : SymbolicOverlayOptions) (n : NormalizedOptions)
    → normalize_given cfg opt ≡ ok n
    → IsAccepted cfg n
normalize_given-IsAccepted cfg opt n h = subst (Accepted cfg) h (normalize_given-Accepted cfg opt)
