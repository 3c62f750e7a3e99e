-- ===== src/Sessions/Topics.antt =====
-- internal/state/manager.go: the topics of a session and their drift.
use g_lm.Prelude.{
  ℕ, ◌-◌, ◌/◌, ◌%◌, Bool, ◌||◌, Option, none, some, List, [], ◌∷◌, ◌++◌, map, any, keep, length,
  take, if◌then◌else◌,
}
use g_lm.Prelude.Texts.{Text, lit, text_eq, is_empty, to_lower, trim_space, join}
use g_lm.Prelude.Maps.{Map, lookup, insert}
use g_lm.Prelude.Sorting.{sort_slice, text_less}
use g_lm.Prelude.Floats.{Float64, clamp01}
use g_lm.Model.Records.{Time}
use g_lm.Metareasoning.Patterns.{dedupe}
use g_lm.Sessions.Detect.{extract_topic_tokens}

pub record TopicSignal (F : Type 0) : Type 0 where
  pub weight : F
  pub updated : Time

unfoldable pub topic_of : List Text → Text
unfolding join
topic_of kws = join kws (lit ",")

abbrev pub key_set : List Text → List Text
unfolding dedupe to_lower trim_space
key_set ks = dedupe (map (λ k. to_lower (trim_space k)) ks)

module _ (fl : Float64) where
  open fl use {F, lt, le, milli, of_int, add, sub, mul, div, neg, exp, eq}

  abbrev pub weight_or_zero : Option (TopicSignal F) → F
  weight_or_zero none = milli 0
  weight_or_zero (some s) = s.weight

  -- updateTopicsLocked, over the tokens
  unfoldable pub raise_topics : Time → List Text → Map (TopicSignal F) → Map (TopicSignal F)
  unfolding lookup insert
  raise_topics now [] m = m
  raise_topics now (t ∷ ts) m =
      let w = add (weight_or_zero (lookup t m)) (milli 1000) in
      let weight = if lt w (milli 50) then milli 50 else w in
      raise_topics now ts (insert t (record { weight = weight; updated = now }) m)

  unfoldable pub update_topics : Text → Time → Map (TopicSignal F) → Map (TopicSignal F)
  unfolding extract_topic_tokens raise_topics
  update_topics text now m = raise_topics now (extract_topic_tokens text) m

  -- time.Duration.Hours at a time that is not negative
  unfoldable pub hours : ℕ → F
  hours d =
      add (of_int (d / 3600000000000)) (div (of_int (d % 3600000000000)) (of_int 3600000000000))

  -- The loop of applyDecayLocked: the weights that stay above the threshold.
  unfoldable pub decay_topics : Time → Map (TopicSignal F) → Map (TopicSignal F)
  unfolding hours
  decay_topics now [] = []
  decay_topics now ((k, s) ∷ m) =
      let w = mul s.weight (exp (mul (neg (milli 270)) (hours (now - s.updated)))) in
      let rest = decay_topics now m in
      if lt w (milli 20) then rest else (k, record { weight = w; updated = now }) ∷ rest

  unfoldable pub by_weight : Text × TopicSignal F → Text × TopicSignal F → Bool
  unfolding text_less
  by_weight a b = if eq a.1.weight b.1.weight then text_less a.0 b.0 else lt b.1.weight a.1.weight

  -- The keywords.
  unfoldable pub top_topics : Map (TopicSignal F) → List Text
  unfolding sort_slice by_weight
  top_topics m = map (λ (e : Text × TopicSignal F). e.0) (take 3 (sort_slice by_weight m))

  unfoldable pub topic_drift_score : List Text → List Text → F
  unfolding clamp01 keep any text_eq dedupe
  topic_drift_score prev current =
      let p = key_set prev in
      let c = key_set current in
      let inter = length (keep (λ k. any (text_eq k) p) c) in
      let union = length (dedupe (p ++ c)) in
      if is_empty prev || is_empty current
      then milli 0
      else clamp01 fl (sub (milli 1000) (div (of_int inter) (of_int union)))
