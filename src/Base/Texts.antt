-- ===== src/Base/Texts.antt =====
-- The test `==` on texts as an equivalence, in forms that the automation applies.
use Prim.Native.String.{String}
use mathlib.Core.Path.{◌≡◌, refl, ap}
use mathlib.Core.Logic.{inl, inr}
use mathlib.Core.Bool.{true, false, ◌&&◌}
use native.Mathlib.Omega.{arith}
use text.Mathlib.Text.{◌==◌}
use text.Mathlib.TextEquality.{eq_iff}
use cellixjs.Base.Tests.{Bool-cases}

pub eq_sound : (a b : String) → a == b ≡ true → a ≡ b
eq_sound a b e = (eq_iff a b).0 e

-- Equal texts pass the same tests.
pub eq_left : (a b c : String) → a == b ≡ true → (a == c) ≡ (b == c)
eq_left a b c e = ap (λ x. x == c) (eq_sound a b e)

-- One text is not two different ones.
pub not_both : (a b c : String) → b == c ≡ false → (a == b) && (a == c) ≡ false
not_both a b c differ = elim (Bool-cases (a == b)) [
  | inl e ↦ rw (eq_left a b c e) (rw differ (ground arith))
  | inr e ↦ rw e refl
]
