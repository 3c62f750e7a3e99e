-- ===== src/RateLimit/Tests.antt =====
-- The limiter at concrete inputs, in thousandths.
use g_lm.Prelude.{ℕ, ◌*◌, ◌/◌, ◌≡◌, refl, [], ltb, arith}
use g_lm.Prelude.Texts.{lit}
use g_lm.Prelude.Maps.{lookup}
use g_lm.Prelude.Floats.{thousandths}
use g_lm.RateLimit.{Limiter, allow_many}
use g_lm.RateLimit.Bursts.{IsExact, allow_many_new}

abbrev limiter : Limiter ℕ
limiter = record { rpm = 60; burst = 3; buckets = [] }

ltb-thousand : (m n : ℕ) → ltb (m * 1000) (n * 1000) ≡ ltb m n
ltb-thousand m n = ground arith

zero_mul-thousand : (m : ℕ) → thousandths.mul 0 m ≡ 0
zero_mul-thousand m = omega arith

thousandths-IsExact : IsExact thousandths 3
thousandths-IsExact = record {
  lt_of_int = λ m n _ _. ltb-thousand m n;
  sub_one = λ n _. omega arith;
  add_zero = λ n _. omega arith;
  zero_mul = λ m. zero_mul-thousand (m * 1000 * 1000 / (60 * 1000));
  zero_div = refl;
}

allow_many_new_example : (allow_many thousandths (lit "acme") 5 7 limiter).1 ≡ 3
unfolding lookup
allow_many_new_example =
    allow_many_new thousandths (lit "acme") 5 3 thousandths-IsExact 7 limiter (omega arith)
      (omega arith) refl
