-- ===== src/ValueObjects.antt =====
-- The value objects of the third-party package @lucaspaganini/value-objects, as an interface: the
-- program passes it rules, and an object of the class so made is built from a raw value or throws.
use cellixjs.Base.{ℕ, ◌≤◌, ◌≡◌, Bool, String, List, Option, none, some, includes, if◌then◌else◌}

-- VOString({ trim, minLength, maxLength }).
pub record StringRule : Type 0 where
  pub trim : Bool
  pub min_length : Option ℕ
  pub max_length : ℕ

-- What a constructor makes of a raw value: `some` with the object's valueOf(), or `none` where it
-- throws. `text_length` is the length that the package measures.
pub record ValueObjects : Type 0 where
  pub text_length : String → ℕ
  pub vo_string : StringRule → String → Option String
  pub vo_set : List String → String → Option String
  pub vo_integer : ℕ → ℕ → ℕ → Option ℕ

abbrev pub LongEnough : Option ℕ → ℕ → Type 0
LongEnough none n = Unit {0}
LongEnough (some least) n = least ≤ n

-- The package's documented behaviour, as far as the program relies on it.
pub record ValueObjectLaws (vo : ValueObjects) : Type 0 where
  pub string_bounds :
      (rule : StringRule) (raw value : String)
      → vo.vo_string rule raw ≡ some value
      → LongEnough rule.min_length (vo.text_length value) × (vo.text_length value ≤ rule.max_length)
  pub set_members :
      (members : List String) (raw : String)
      → vo.vo_set members raw ≡ (if includes members raw then some raw else none)
  pub integer_range :
      (least most raw : ℕ) → least ≤ raw → raw ≤ most → vo.vo_integer least most raw ≡ some raw
  pub integer_bounds :
      (least most raw value : ℕ)
      → vo.vo_integer least most raw ≡ some value
      → (least ≤ value) × (value ≤ most)
