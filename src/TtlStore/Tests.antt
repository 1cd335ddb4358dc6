-- ===== src/TtlStore/Tests.antt =====
-- A store with a time to live of 10.
use cellixjs.Base.{String, List, [], ◌∷◌, none, ◌≡◌, refl, arith}
use cellixjs.TtlStore.{StoreEvent, gets, sets, timer, get, run, perform, set, sweep}
use cellixjs.TtlStore.Entries.{view}
use cellixjs.TtlStore.Refinement.{record_all, get-run}

abbrev events : List (StoreEvent String)
events = sets 1 "a" "x" ∷ sets 5 "b" "y" ∷ timer 12 ∷ gets 13 "a" ∷ []

expired : (get 13 "a" (run 10 events [])).0 ≡ none
unfolding get run perform set sweep
expired = refl

get-run_example : (get 14 "b" (run 10 events [])).0 ≡ view 14 (record_all 10 events (λ j. none) "b")
get-run_example =
    get-run 10 events 14 "b" (omega arith, (omega arith, (omega arith, (omega arith, tt))))
      (omega arith)
