-- ===== src/EventBus/Tests.antt =====
-- Three registrations, of which two are for the event that is dispatched.
use cellixjs.Base.{ℕ, String, List, [], ◌∷◌, Option, none, Error, ◌≡◌, refl, state_after}
use cellixjs.EventBus.{Call, register, call_all, dispatch}
use cellixjs.EventBus.Order.{register_all, registered, CallsInOrder, dispatch-CallsInOrder}

abbrev regs : List (String × ℕ)
regs = ("Made", 1) ∷ ("Gone", 2) ∷ ("Made", 3) ∷ []

abbrev accepts : Call → Option Error
accepts call = none

both_called :
    state_after (dispatch accepts (register_all regs []) "Made" "x" []) ≡ (1, "x") ∷ (3, "x") ∷ []
unfolding dispatch register call_all
both_called = refl

dispatch-CallsInOrder_example :
    CallsInOrder
      (registered "Made" regs)
      "x"
      []
      (dispatch accepts (register_all regs []) "Made" "x" [])
dispatch-CallsInOrder_example = dispatch-CallsInOrder accepts regs "Made" "x" []
