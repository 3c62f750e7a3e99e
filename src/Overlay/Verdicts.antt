-- ===== src/Overlay/Verdicts.antt =====
-- internal/symbolicoverlay/service.go: how the verdict of the supervision follows the violations.
use g_lm.Prelude.{
  ◌⊎◌, ◌∙◌, zero, suc, ◌+◌, ℕ, ◌≡◌, ◌≤◌, refl, inl, inr, true, ◌&&◌, List, [], ◌∷◌, length, arith,
  Bool-cases, if◌then◌else◌,
}
use g_lm.Prelude.Int.{ℤ, pos, ltb_ℤ, leb_ℤ, ◌≤ℤ◌, ◌+ℤ◌}
use g_lm.Prelude.Texts.{Text, lit, text_eq}
use g_lm.Prelude.Floats.{Float64}
use g_lm.Overlay.Options.{Config, complete_config, positive_or_default}
use g_lm.Overlay.Compliance.{ComplianceResult}
use g_lm.Overlay.Supervision.{Verdict, verdict_of, warning_nodes, supervise}

-- accept, caution, reject
unfoldable pub strictness : Text → ℕ
unfolding text_eq
strictness decision =
    if text_eq decision (lit "reject") then 2 else if text_eq decision (lit "caution") then 1 else 0

abbrev strictness_of : ℤ → ℤ → ℕ → ℕ
strictness_of warn reject n =
    if leb_ℤ reject (pos n) then 2 else if leb_ℤ warn (pos n) then 1 else 0

strictness-verdict_of :
    (cfg : Config) (n : ℕ)
    → strictness (verdict_of cfg n).decision
      ≡ strictness_of cfg.supervision_warn_threshold cfg.supervision_reject_threshold n
unfolding strictness verdict_of text_eq
strictness-verdict_of cfg n = elim (Bool-cases (leb_ℤ cfg.supervision_reject_threshold (pos n))) [
  | inl e ↦ rw (e, verdict_of) refl
  | inr e ↦ elim (Bool-cases (leb_ℤ cfg.supervision_warn_threshold (pos n))) [
    | inr f ↦ rw (e, f, verdict_of) refl
    | inl f ↦
        elim (Bool-cases
          (cfg.supervision_auto_revise && ltb_ℤ (pos 0) cfg.supervision_max_passes)) [
            | inl g ↦ rw (e, f, g, verdict_of) refl
            | inr g ↦ rw (e, f, g, verdict_of) refl
          ]
  ]
]

-- What a verdict says of the number of violations, for the thresholds of a configuration.
abbrev pub IsVerdict : Config → ℕ → Text → Text → Type 0
IsVerdict cfg n decision action =
    ((decision ≡ lit "reject")
      × (action ≡ lit "reject")
      × (cfg.supervision_reject_threshold ≤ℤ pos n))
    ⊎ ((decision ≡ lit "caution")
        × (cfg.supervision_warn_threshold ≤ℤ pos n)
        × (pos (suc n) ≤ℤ cfg.supervision_reject_threshold)
        × (action ≡ (
            if cfg.supervision_auto_revise && ltb_ℤ (pos 0) cfg.supervision_max_passes
            then lit "revise"
            else lit "warn")))
    ⊎ ((decision ≡ lit "accept")
        × (action ≡ lit "none")
        × (pos (suc n) ≤ℤ cfg.supervision_warn_threshold)
        × (pos (suc n) ≤ℤ cfg.supervision_reject_threshold))

verdict_of-IsVerdict :
    (cfg : Config) (n : ℕ) → IsVerdict cfg n (verdict_of cfg n).decision (verdict_of cfg n).action
unfolding verdict_of
verdict_of-IsVerdict cfg n = elim (Bool-cases (leb_ℤ cfg.supervision_reject_threshold (pos n))) [
  | inl e ↦ rw (e, verdict_of) (inl (refl, refl, ground arith))
  | inr e ↦ elim (Bool-cases (leb_ℤ cfg.supervision_warn_threshold (pos n))) [
    | inr f ↦ rw (e, f, verdict_of) (inr (inr (refl, refl, ground arith, ground arith)))
    | inl f ↦
        elim (Bool-cases
          (cfg.supervision_auto_revise && ltb_ℤ (pos 0) cfg.supervision_max_passes)) [
            | inl g ↦ rw (e, f, g, verdict_of) (inr (inl (refl, ground arith, ground arith, refl)))
            | inr g ↦ rw (e, f, g, verdict_of) (inr (inl (refl, ground arith, ground arith, refl)))
          ]
  ]
]

verdict_of_zero :
    (cfg : Config) (n : ℕ)
    → pos 1 ≤ℤ cfg.supervision_warn_threshold
    → cfg.supervision_warn_threshold ≤ℤ cfg.supervision_reject_threshold
    → n ≡ 0
    → (verdict_of cfg n).decision ≡ lit "accept"
unfolding verdict_of
verdict_of_zero cfg n one two z = ground arith

-- The thresholds are positive and in their order, and stand if they were so.
abbrev pub HasThresholds : Config → Config → Type 0
HasThresholds cfg full =
    (pos 1 ≤ℤ full.supervision_warn_threshold)
    × (full.supervision_warn_threshold ≤ℤ full.supervision_reject_threshold)
    × (pos 1 ≤ℤ cfg.supervision_warn_threshold
        → cfg.supervision_warn_threshold ≤ℤ cfg.supervision_reject_threshold
        → (full.supervision_warn_threshold ≡ cfg.supervision_warn_threshold)
          × (full.supervision_reject_threshold ≡ cfg.supervision_reject_threshold))

complete_config_stands :
    (cfg : Config)
    → pos 1 ≤ℤ cfg.supervision_warn_threshold
    → cfg.supervision_warn_threshold ≤ℤ cfg.supervision_reject_threshold
    → ((complete_config cfg).supervision_warn_threshold ≡ cfg.supervision_warn_threshold)
      × ((complete_config cfg).supervision_reject_threshold ≡ cfg.supervision_reject_threshold)
unfolding complete_config
complete_config_stands cfg one two = ground arith

positive_or_default_positive : (n d : ℤ) → pos 1 ≤ℤ d → pos 1 ≤ℤ positive_or_default n d
positive_or_default_positive n d h = ground arith

raised_le : (a b : ℤ) → a ≤ℤ (if ltb_ℤ b a then a +ℤ pos 1 else b)
unfolding ◌+ℤ◌
raised_le a b = ground arith

complete_config_thresholds :
    (cfg : Config)
    → (pos 1 ≤ℤ (complete_config cfg).supervision_warn_threshold)
      × ((complete_config cfg).supervision_warn_threshold
          ≤ℤ (complete_config cfg).supervision_reject_threshold)
unfolding complete_config ◌+ℤ◌
complete_config_thresholds cfg = (
  positive_or_default_positive cfg.supervision_warn_threshold (pos 1) (omega arith),
  raised_le (positive_or_default cfg.supervision_warn_threshold (pos 1))
      (positive_or_default cfg.supervision_reject_threshold (pos 3)),
)

complete_config_enabled :
    (cfg : Config) → (complete_config cfg).supervision_enabled ≡ cfg.supervision_enabled
unfolding complete_config
complete_config_enabled cfg = refl

strictness_of_le :
    (warn reject : ℤ) (m n : ℕ)
    → warn ≤ℤ reject
    → m ≤ n
    → strictness_of warn reject m ≤ strictness_of warn reject n
strictness_of_le warn reject m n w h = ground arith

length-warning_nodes :
    (fl : Float64) (v : Verdict) (room i : ℕ) (ws : List Text)
    → length (warning_nodes fl v room i ws) ≤ room
unfolding warning_nodes
length-warning_nodes fl v room i [] = ground arith
length-warning_nodes fl v zero i (w ∷ ws) = ground arith
length-warning_nodes fl v (suc room) i (w ∷ ws) =
    ground (arith, length-warning_nodes fl v room (i + 1) ws)

-- What the supervision of a checked response takes from the verdict on its violations.
supervise_checked :
    (fl : Float64) (cfg : Config) (c : ComplianceResult fl.F)
    → cfg.supervision_enabled ≡ true
    → c.checked ≡ true
    → ((supervise fl cfg c).decision ≡ (verdict_of cfg c.violation_count).decision)
      × ((supervise fl cfg c).action ≡ (verdict_of cfg c.violation_count).action)
      × (length (supervise fl cfg c).nodes ≤ 12)
unfolding supervise
supervise_checked fl cfg c e k =
    let v = verdict_of cfg c.violation_count in
    rw (e, k, supervise) (refl, refl, ground (arith, length-warning_nodes fl v 11 0 c.warnings))

-- Under the configuration that New completes, whose thresholds are positive and in their order, and the
-- given ones if these are so already, supervision of a checked response rejects it exactly from the
-- one threshold on, accepts it exactly below the other, and cautions between them, with a revision
-- where the configuration allows one. So it accepts a response without a violation; and it is never
-- less strict on a response with more violations, and reports at most twelve nodes.
pub supervise-complete_config :
    (fl : Float64) (cfg : Config) (a b : ComplianceResult fl.F)
    → cfg.supervision_enabled ≡ true
    → a.checked ≡ true
    → b.checked ≡ true
    → a.violation_count ≤ b.violation_count
    → let full = complete_config cfg in
      let s = supervise fl full a in
      HasThresholds cfg full
      × IsVerdict full a.violation_count s.decision s.action
      × (a.violation_count ≡ 0 → s.decision ≡ lit "accept")
      × (strictness s.decision ≤ strictness (supervise fl full b).decision)
      × (length (supervise fl full b).nodes ≤ 12)
supervise-complete_config fl cfg a b e ka kb h =
    let full = complete_config cfg in
    let (one, two) = complete_config_thresholds cfg in
    let on = complete_config_enabled cfg ∙ e in
    let (da, aa, _) = supervise_checked fl full a on ka in
    let (db, _, nodes) = supervise_checked fl full b on kb in
    let m = a.violation_count in
    let n = b.violation_count in
    (
      (one, two, complete_config_stands cfg),
      rw (da, aa) (verdict_of-IsVerdict full m),
      λ z. da ∙ verdict_of_zero full m one two z,
      rw (da, db, strictness-verdict_of full m, strictness-verdict_of full n)
          (strictness_of_le full.supervision_warn_threshold full.supervision_reject_threshold m n
            two h),
      nodes,
    )
