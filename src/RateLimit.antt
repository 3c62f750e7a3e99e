-- ===== src/RateLimit.antt =====
-- internal/ratelimit/ratelimit.go: a token bucket for each key. Times are readings of Go's monotonic
-- clock, in nanoseconds, so the time elapsed is not negative; a call is one step under the mutex.
pub mod Bursts
mod Tests
use g_lm.Prelude.{
  ℕ, zero, suc, ◌+◌, ◌-◌, ◌/◌, ◌%◌, Bool, true, false, Option, none, some, List, [], ltb,
  if◌then◌else◌,
}
use g_lm.Prelude.Int.{ℤ, pos, negsuc}
use g_lm.Prelude.Texts.{Text}
use g_lm.Prelude.Maps.{Map, lookup, insert}
use g_lm.Prelude.Floats.{Float64}
use g_lm.Model.Records.{Time}

pub record Bucket (F : Type 0) : Type 0 where
  pub tokens : F
  pub last_refill : Time

pub record Limiter (F : Type 0) : Type 0 where
  pub rpm : ℕ
  pub burst : ℕ
  pub buckets : Map (Bucket F)

-- A setting, or the default in the place of one that is not positive.
unfoldable pub positive_or : ℕ → ℤ → ℕ
positive_or d (pos zero) = d
positive_or d (pos (suc n)) = suc n
positive_or d (negsuc n) = d

-- New: both figures are positive.
unfoldable pub new_limiter : {F : Type 0} → ℤ → ℤ → Limiter F
unfolding positive_or
new_limiter rpm burst =
    let per_minute = positive_or 60 rpm in
    let half = if ltb (per_minute / 2) 1 then 1 else per_minute / 2 in
    record { rpm = per_minute; burst = positive_or half burst; buckets = [] }

module _ (fl : Float64) where
  open fl use {F, lt, of_int, add, sub, mul, div}

  -- time.Duration.Seconds
  unfoldable pub seconds : ℕ → F
  seconds d = add (of_int (d / 1000000000)) (div (of_int (d % 1000000000)) (of_int 1000000000))

  -- The tokens of a bucket at a time, before the request takes one.
  unfoldable pub refilled : Limiter F → Time → Bucket F → F
  unfolding seconds
  refilled l now b =
      let per_sec = div (of_int l.rpm) (of_int 60) in
      let tokens = add b.tokens (mul (seconds (now - b.last_refill)) per_sec) in
      if lt (of_int l.burst) tokens then of_int l.burst else tokens

  abbrev pub put : Text → F → Time → Limiter F → Limiter F
  put key tokens now l = record l {
    buckets = insert key (record { tokens = tokens; last_refill = now }) l.buckets;
  }

  unfoldable pub take_token : Text → Time → F → Limiter F → Limiter F × Bool
  take_token key now tokens l =
      if lt tokens (of_int 1)
      then (put key tokens now l, false)
      else (put key (sub tokens (of_int 1)) now l, true)

  unfoldable pub allow : Text → Time → Limiter F → Limiter F × Bool
  unfolding refilled take_token
  allow key now l = elim (lookup key l.buckets) [
    | none ↦ (put key (of_int (l.burst - 1)) now l, true)
    | some b ↦ take_token key now (refilled l now b) l
  ]

  -- So many requests of a key at one time: the limiter after them, and how many were allowed.
  unfoldable pub allow_many : Text → Time → ℕ → Limiter F → Limiter F × ℕ
  unfolding allow
  allow_many key now zero l = (l, 0)
  allow_many key now (suc n) l =
      let first = allow key now l in
      let rest = allow_many key now n first.0 in (rest.0, if first.1 then suc rest.1 else rest.1)
