-- ===== src/Base/Throwing.antt =====
-- Methods that change an object and may throw. An exception carries the object as the method had
-- left it when it threw: what was written before stays written.
use Prim.Native.String.{String}
use mathlib.Core.Bool.{Bool, true, false}
use mathlib.Core.Option.{Option, none, some}

-- `permission_error` is the seedwork's PermissionError; `invalid_value` is what the constructor of
-- a value object throws.
pub data Error : Type 0 where
  permission_error : String → Error
  plain_error : String → Error
  not_found_error : String → Error
  invalid_value : Error

pub data Outcome (S A : Type 0) : Type 0 where
  done : A → S → Outcome S A
  thrown : Error → S → Outcome S A

abbrev pub Exec : Type 0 → Type 0 → Type 0
Exec S A = S → Outcome S A

abbrev pub and_then : {S A B : Type 0} → Outcome S A → (A → S → Outcome S B) → Outcome S B
and_then (done a s) f = f a s
and_then (thrown e s) f = thrown e s

infixl 5 ◌>>=◌ ◌>>◌
abbrev pub ◌>>=◌ : {S A B : Type 0} → Exec S A → (A → Exec S B) → Exec S B
◌>>=◌ m f s = and_then (m s) f

abbrev pub ◌>>◌ : {S B : Type 0} → Exec S (Unit {0}) → Exec S B → Exec S B
◌>>◌ m k s = and_then (m s) (λ _. k)

abbrev pub pure : {S A : Type 0} → A → Exec S A
pure a s = done a s

abbrev pub throw : {S A : Type 0} → Error → Exec S A
throw e s = thrown e s

abbrev pub modify : {S : Type 0} → (S → S) → Exec S (Unit {0})
modify f s = done tt (f s)

-- `if (!test) throw e`.
abbrev pub guard : {S : Type 0} → (S → Bool) → Error → Exec S (Unit {0})
guard test e s = elim (test s) [ true ↦ done tt s | false ↦ thrown e s ]

-- A value object's constructor: `none` is its exception.
abbrev pub construct : {S A : Type 0} → Option A → Exec S A
construct none s = thrown invalid_value s
construct (some a) s = done a s

-- The object after the call, whether it returned or threw.
abbrev pub state_after : {S A : Type 0} → Outcome S A → S
state_after (done a s) = s
state_after (thrown e s) = s

abbrev pub succeeds : {S A : Type 0} → Outcome S A → Bool
succeeds (done a s) = true
succeeds (thrown e s) = false
