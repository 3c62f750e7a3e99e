-- ===== src/Prelude/Ranking.antt =====
-- The tokens of a text by their frequency, as two packages rank them.
use Prim.Native.Nat.{ℕ, suc}
use mathlib.Core.Option.{Option, none, some}
use mathlib.Core.List.{List, [], ◌∷◌}
use g_lm.Prelude.Tests.{ltb, ◌==◌, if◌then◌else◌}
use g_lm.Prelude.Texts.{Text}
use g_lm.Prelude.Maps.{Map, lookup, insert}
use g_lm.Prelude.Sorting.{sort_slice, text_less}

abbrev pub count_or_zero : Option ℕ → ℕ
count_or_zero none = 0
count_or_zero (some n) = n

-- freq[t]++ for each token
unfoldable pub count_tokens : List Text → Map ℕ → Map ℕ
unfolding lookup insert
count_tokens [] m = m
count_tokens (t ∷ ts) m = count_tokens ts (insert t (suc (count_or_zero (lookup t m))) m)

-- The most frequent first, and in the order of the names where they are as frequent.
unfoldable pub rank : List (Text × ℕ) → List (Text × ℕ)
unfolding sort_slice text_less
rank = sort_slice (λ a b. if a.1 == b.1 then text_less a.0 b.0 else ltb b.1 a.1)
