-- ===== src/Sessions/Readings.antt =====
-- internal/state/manager.go: what is read off a text is in its range.
use g_lm.Prelude.{inl, inr, ltb, arith, Bool-cases, if◌then◌else◌}
use g_lm.Prelude.Texts.{Text, lit, is_empty, to_lower, trim_space, contains}
use g_lm.Prelude.Floats.{Float64, IsOrdered, InUnit, clamp01-InUnit}
use g_lm.Sessions.Detect.{
  add_hits, sub_hits, count_byte, urgent_words, positive_words, negative_words,
  detect_sentiment_score, detect_arousal,
}
use g_lm.Sessions.Ranges.{
  InBand, IsBounded, milli-InUnit, milli-InBand, clamp-InBand, add_hits_number, sub_hits_number,
}

module _ (fl : Float64) (o : IsOrdered fl) (b : IsBounded fl o) where
  open fl use {F, lt, le, milli, of_int, add, sub, mul, div, neg, exp, abs, eq}

  pub detect_sentiment_score-InBand : (t : Text) → InBand fl (detect_sentiment_score fl t)
  unfolding detect_sentiment_score
  detect_sentiment_score-InBand t =
      let zero_band = milli-InBand fl o b 0 (omega arith) in
      let hits = add_hits fl (to_lower t) (milli 1000) positive_words (milli 0) in
      let score = sub_hits fl (to_lower t) (milli 1000) negative_words hits in
      let n =
        sub_hits_number fl o b (to_lower t) 1000 negative_words hits
          (add_hits_number fl o b (to_lower t) 1000 positive_words (milli 0) (o.milli_number 0)) in
      elim (Bool-cases (is_empty (trim_space (to_lower t)))) [
        | inl e ↦ rw (e, detect_sentiment_score) zero_band
        | inr e ↦ elim (Bool-cases (eq score (milli 0))) [
          | inl z ↦ rw (e, z, detect_sentiment_score) zero_band
          | inr z ↦
              rw (e, z, detect_sentiment_score)
                (clamp-InBand fl o b (div score (milli 3000)) (b.div_three score n))
        ]
      ]

  arousal_base : (t : Text) → F
  arousal_base t =
      let a0 = if contains t (lit "!") then add (milli 350) (milli 180) else milli 350 in
      if ltb 1 (count_byte b'?' t) then add a0 (milli 100) else a0

  arousal_base_number : (t : Text) → o.IsNumber (arousal_base t)
  unfolding arousal_base
  arousal_base_number t =
      let n = o.milli_number 350 in
      let m = b.add_milli (milli 350) 180 n in
      elim (Bool-cases (contains t (lit "!"))) [
        | inl e ↦ elim (Bool-cases (ltb 1 (count_byte b'?' t))) [
          | inl f ↦ rw (e, f, arousal_base) (b.add_milli _ 100 m)
          | inr f ↦ rw (e, f, arousal_base) m
        ]
        | inr e ↦ elim (Bool-cases (ltb 1 (count_byte b'?' t))) [
          | inl f ↦ rw (e, f, arousal_base) (b.add_milli _ 100 n)
          | inr f ↦ rw (e, f, arousal_base) n
        ]
      ]

  pub detect_arousal-InUnit : (t : Text) → InUnit fl (detect_arousal fl t)
  unfolding detect_arousal
  detect_arousal-InUnit text =
      let t = trim_space text in
      let n =
        add_hits_number fl o b (to_lower t) 100 urgent_words (arousal_base t)
          (arousal_base_number t) in
      elim (Bool-cases (is_empty t)) [
        | inl e ↦ rw (e, detect_arousal) (milli-InUnit fl o b 300 (omega arith))
        | inr e ↦ rw (e, detect_arousal) (unfold arousal_base in clamp01-InUnit fl o _ n)
      ]
