-- ===== src/Bootstrap/Endings.antt =====
-- How a chain of calls that the interfaces allow ends.
use Prim.Native.String
use cellixjs.Base.{String, ◌++◌, Outcome, Error, done, thrown, plain_error}
use cellixjs.Bootstrap.State.{Cellix}
use cellixjs.Bootstrap.Chains.{Interface, Offers}

-- What a call refuses for reasons of its own.
pub data Refusal : Error → Type 0 where
  class_taken :
      (class : String)
      → Refusal (plain_error (String.◌++◌ "Service already registered for constructor: " class))
  name_taken :
      (name : String) → Refusal (plain_error (String.◌++◌ "Service name already registered: " name))
  service_not_found :
      (name : String) → Refusal (plain_error (String.◌++◌ "Service not found: " name))
  no_context : Refusal (plain_error "Context not initialized")

module _ {C H A : Type 0} where
  -- It returns and offers the interface, or it throws one of those refusals.
  abbrev pub Ends : {B : Type 0} → Interface → Outcome (Cellix C H A) B → Type 0
  Ends j (done x c) = Offers j c
  Ends j (thrown e c) = Refusal e
