-- ===== src/Prelude/Tokens.antt =====
-- strings.FieldsFunc
use mathlib.Core.List.{reverse}
use Prim.Native.Nat.{ℕ}
use mathlib.Core.Bool.{Bool}
use mathlib.Core.List.{List, [], ◌∷◌}
use g_lm.Prelude.Tests.{if◌then◌else◌}
use g_lm.Prelude.Texts.{Text, is_empty}

-- The piece that is being read stands reversed in `w`.
unfoldable pub pieces_after : (ℕ → Bool) → Text → Text → List Text
pieces_after is_separator w [] = if is_empty w then [] else reverse w ∷ []
pieces_after is_separator w (c ∷ s) =
    let longer = pieces_after is_separator (c ∷ w) s in
    let next = pieces_after is_separator [] s in
    if is_separator c then (if is_empty w then next else reverse w ∷ next) else longer

unfoldable pub fields_func : (ℕ → Bool) → Text → List Text
unfolding pieces_after
fields_func is_separator s = pieces_after is_separator [] s
