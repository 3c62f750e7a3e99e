-- ===== src/Sessions/Ranges.antt =====
-- internal/state/manager.go: the figures of a session stay in their ranges.
use g_lm.Prelude.{ℕ, ◌≡◌, ◌≤◌, inl, inr, true, List, [], ◌∷◌, arith, Bool-cases}
use g_lm.Prelude.Texts.{Text, contains}
use g_lm.Prelude.Floats.{Float64, IsOrdered, InUnit}
use g_lm.Sessions.Detect.{clamp, add_hits, sub_hits}
use g_lm.Sessions.Topics.{hours}
use g_lm.Sessions.Turns.{Session}

module _ (fl : Float64) where
  open fl use {F, lt, le, milli, of_int, add, sub, mul, div, neg, exp, abs}

  abbrev pub InBand : F → Type 0
  InBand v = (le (neg (milli 1000)) v ≡ true) × (le v (milli 1000) ≡ true)

  -- What IEEE 754 gives on the values at hand: comparisons fail at NaN; rounding is monotonic, so
  -- products and weighted means of small figures are as small; and e^-x is at most 1.
  pub record IsBounded (o : IsOrdered fl) : Type 0 where
    pub number_of_le : (a b : F) → le a b ≡ true → o.IsNumber a × o.IsNumber b
    pub neg_one-le : le (neg (milli 1000)) (milli 0) ≡ true
    pub add_milli : (v : F) (n : ℕ) → o.IsNumber v → o.IsNumber (add v (milli n))
    pub sub_milli : (v : F) (n : ℕ) → o.IsNumber v → o.IsNumber (sub v (milli n))
    pub div_three : (v : F) → o.IsNumber v → o.IsNumber (div v (milli 3000))
    pub add_band : (v w : F) → InBand v → InBand w → o.IsNumber (add v w)
    pub mul_band : (v w : F) → InBand v → InBand w → InBand (mul v w)
    pub centre : (v : F) → InUnit fl v → InBand (sub (mul v (milli 2000)) (milli 1000))
    pub abs_band : (v : F) → InBand v → InUnit fl (abs v)
    pub mean_band :
        (a : ℕ) (v w : F)
        → a ≤ 1000
        → InBand v
        → InBand w
        → InBand (add (mul (sub (milli 1000) (milli a)) v) (mul (milli a) w))
    pub mean_unit :
        (a : ℕ) (v w : F)
        → a ≤ 1000
        → InUnit fl v
        → InUnit fl w
        → InUnit fl (add (mul (sub (milli 1000) (milli a)) v) (mul (milli a) w))
    pub decay_unit : (d : ℕ) → InUnit fl (exp (mul (neg (milli 450)) (hours fl d)))

  pub record InRange (s : Session F) : Type 0 where
    pub instant : InBand s.sentiment_instant
    pub carryover : InBand s.sentiment_carryover
    pub valence : InBand s.valence
    pub arousal : InUnit fl s.arousal
    pub mood : InBand s.mood
    pub energy : InUnit fl s.emotional_energy

  module _ (o : IsOrdered fl) (b : IsBounded o) where
    pub number_of_band : (v : F) → InBand v → o.IsNumber v
    number_of_band v h = (b.number_of_le _ _ h.0).1

    pub number_of_unit : (v : F) → InUnit fl v → o.IsNumber v
    number_of_unit v h = (b.number_of_le _ _ h.0).1

    pub band_of_unit : (v : F) → InUnit fl v → InBand v
    band_of_unit v h = (o.le_trans (neg (milli 1000)) (milli 0) v b.neg_one-le h.0, h.1)

    pub milli-InUnit : (n : ℕ) → n ≤ 1000 → InUnit fl (milli n)
    milli-InUnit n h = (o.milli_mono 0 n (omega arith), o.milli_mono n 1000 h)

    pub milli-InBand : (n : ℕ) → n ≤ 1000 → InBand (milli n)
    milli-InBand n h = band_of_unit (milli n) (milli-InUnit n h)

    pub clamp-InBand : (v : F) → o.IsNumber v → InBand (clamp fl v)
    unfolding clamp
    clamp-InBand v n =
        let low = (b.number_of_le _ _ b.neg_one-le).0 in
        let one = milli-InBand 1000 (omega arith) in
        ground (
          arith,
          o.le_of_not-lt (milli 1000) v (o.milli_number 1000) n,
          o.le_of_not-lt v (neg (milli 1000)) n low,
          o.le_refl (neg (milli 1000)) low,
        )

    pub add_hits_number :
        (t : Text) (n : ℕ) (ps : List Text) (v : F)
        → o.IsNumber v
        → o.IsNumber (add_hits fl t (milli n) ps v)
    unfolding add_hits
    add_hits_number t n [] v h = h
    add_hits_number t n (p ∷ ps) v h = elim (Bool-cases (contains t p)) [
      | inl e ↦ rw (e, add_hits) (add_hits_number t n ps _ (b.add_milli v n h))
      | inr e ↦ rw (e, add_hits) (add_hits_number t n ps v h)
    ]

    pub sub_hits_number :
        (t : Text) (n : ℕ) (ps : List Text) (v : F)
        → o.IsNumber v
        → o.IsNumber (sub_hits fl t (milli n) ps v)
    unfolding sub_hits
    sub_hits_number t n [] v h = h
    sub_hits_number t n (p ∷ ps) v h = elim (Bool-cases (contains t p)) [
      | inl e ↦ rw (e, sub_hits) (sub_hits_number t n ps _ (b.sub_milli v n h))
      | inr e ↦ rw (e, sub_hits) (sub_hits_number t n ps v h)
    ]
