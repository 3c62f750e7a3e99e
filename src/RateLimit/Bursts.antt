-- ===== src/RateLimit/Bursts.antt =====
-- internal/ratelimit/ratelimit.go: how many requests of one time are allowed.
use g_lm.Prelude.{
  ℕ, zero, suc, ◌-◌, ◌≡◌, ◌≤◌, refl, true, false, none, some, ltb, arith, if◌then◌else◌,
}
use g_lm.Prelude.Texts.{Text, text_eq_refl}
use g_lm.Prelude.Maps.{lookup, lookup-insert}
use g_lm.Prelude.Floats.{Float64}
use g_lm.Model.Records.{Time}
use g_lm.RateLimit.{Limiter, seconds, refilled, put, take_token, allow, allow_many}

-- The arithmetic of float64 on integers below a bound is exact, and zero is neutral.
pub record IsExact (fl : Float64) (bound : ℕ) : Type 0 where
  pub lt_of_int : (m n : ℕ) → m ≤ bound → n ≤ bound → fl.lt (fl.of_int m) (fl.of_int n) ≡ ltb m n
  pub sub_one : (n : ℕ) → suc n ≤ bound → fl.sub (fl.of_int (suc n)) (fl.of_int 1) ≡ fl.of_int n
  pub add_zero : (n : ℕ) → n ≤ bound → fl.add (fl.of_int n) (fl.of_int 0) ≡ fl.of_int n
  pub zero_mul : (m : ℕ) → fl.mul (fl.of_int 0) (fl.div (fl.of_int m) (fl.of_int 60)) ≡ fl.of_int 0
  pub zero_div : fl.div (fl.of_int 0) (fl.of_int 1000000000) ≡ fl.of_int 0

module _ (fl : Float64) (key : Text) (now : Time) where
  open fl use {F, lt, of_int, add, sub, mul, div}

  -- The key has this many tokens left since this time.
  abbrev Holds : ℕ → Limiter F → Type 0
  Holds n l =
      (lookup key l.buckets ≡ some (record { tokens = of_int n; last_refill = now }))
      × (n ≤ l.burst)

  module _ (bound : ℕ) (x : IsExact fl bound) where
    no_time : seconds fl (now - now) ≡ of_int 0
    unfolding seconds
    no_time =
        let z : now - now ≡ 0 = omega arith in
        rw (z, seconds, x.zero_div) (x.add_zero 0 (omega arith))

    refilled_at_once :
        (l : Limiter F) (n : ℕ)
        → l.burst ≤ bound
        → n ≤ l.burst
        → refilled fl l now (record { tokens = of_int n; last_refill = now }) ≡ of_int n
    unfolding refilled
    refilled_at_once l n b h =
        let full : ltb l.burst n ≡ false = ground arith in
        rw
          (
            no_time,
            x.zero_mul l.rpm,
            x.add_zero n (omega (arith, b, h)),
            x.lt_of_int l.burst n b (omega (arith, b, h)),
            full,
          )
          refl

    allow_empty :
        (l : Limiter F)
        → 1 ≤ bound
        → l.burst ≤ bound
        → Holds 0 l
        → allow fl key now l ≡ (put fl key (of_int 0) now l, false)
    unfolding allow take_token
    allow_empty l o b (e, h) =
        rw (e, allow, refilled_at_once l 0 b h, take_token, x.lt_of_int 0 1 (omega arith) o) refl

    allow_held :
        (n : ℕ) (l : Limiter F)
        → l.burst ≤ bound
        → Holds (suc n) l
        → allow fl key now l ≡ (put fl key (of_int n) now l, true)
    unfolding allow take_token
    allow_held n l b (e, h) =
        let no : ltb (suc n) 1 ≡ false = ground arith in
        rw
          (
            e,
            allow,
            refilled_at_once l (suc n) b h,
            take_token,
            x.lt_of_int (suc n) 1 (omega (arith, b, h)) (omega (arith, b, h)),
            no,
            x.sub_one n (omega (arith, b, h)),
          )
          refl

    Holds-put : (n : ℕ) (l : Limiter F) → n ≤ l.burst → Holds n (put fl key (of_int n) now l)
    Holds-put n l h = (rw (lookup-insert key key, text_eq_refl key) refl, h)

    -- A key is allowed as many requests of one time as it has tokens.
    allow_many_held :
        (n k : ℕ) (l : Limiter F)
        → 1 ≤ bound
        → l.burst ≤ bound
        → Holds n l
        → (allow_many fl key now k l).1 ≡ (if ltb k n then k else n)
    unfolding allow_many
    allow_many_held n zero l o b h = ground arith
    allow_many_held zero (suc k) l o b h =
        let rest = allow_many_held zero k (put fl key (of_int 0) now l) o b (Holds-put 0 l h.1) in
        rw (allow_empty l o b h, allow_many) (ground (arith, rest))
    allow_many_held (suc n) (suc k) l o b h =
        let rest =
          allow_many_held n k (put fl key (of_int n) now l) o b
            (Holds-put n l (omega (arith, h.1))) in
        rw (allow_held n l b h, allow_many) (ground (arith, rest))

    -- Of requests of one time for a new key exactly as many are allowed as the burst, for figures
    -- within which the arithmetic is exact.
    pub allow_many_new :
        (k : ℕ) (l : Limiter F)
        → 1 ≤ l.burst
        → l.burst ≤ bound
        → lookup key l.buckets ≡ none
        → (allow_many fl key now k l).1 ≡ (if ltb k l.burst then k else l.burst)
    unfolding allow_many allow
    allow_many_new zero l o b h = ground arith
    allow_many_new (suc k) l o b h =
        let rest =
          allow_many_held (l.burst - 1) k (put fl key (of_int (l.burst - 1)) now l)
            (omega (arith, o, b)) b (Holds-put (l.burst - 1) l (omega arith)) in
        let first : allow fl key now l ≡ (put fl key (of_int (l.burst - 1)) now l, true) =
          rw (h, allow) refl in
        rw (first, allow_many) (ground (arith, rest))
