-- ===== src/UnitOfWork/Tests.antt =====
-- The unit of work at concrete inputs: one aggregate, one event of each kind.
use cellixjs.Base.{
  true, [], ◌∷◌, ◌≡◌, ◌⊎◌, refl, Option, none, some, thrown, Exec, ◌>>=◌, plain_error, Error,
}
use cellixjs.Seedwork.Aggregate.{new_root, add_domain_event, add_integration_event}
use cellixjs.UnitOfWork.Repository.{Event, Item, Work, Services, Saved, save}
use cellixjs.UnitOfWork.Transaction.{commit, run_again, World, with_transaction}
use cellixjs.UnitOfWork.Save.{hooked, save_of_rejected}
use cellixjs.UnitOfWork.Commit.{last_start, Aborts, Commits, sent_after_commit}

abbrev ticket : Item
ticket = record {
  id = "t1";
  props = "p";
  root = add_integration_event "Sent" "t1" "x" (add_domain_event "Made" "t1" "x" new_root);
}

abbrev start : Work
start = record {
  item = λ r. ticket;
  next = 1;
  dispatched = [];
  writes = [];
  items_in_transaction = 0 ∷ 0 ∷ [];
}

-- Handlers that accept every event, and a database that does.
abbrev open_services : Services
open_services = record {
  find_by_id = λ id. some ticket;
  on_save = λ b i. i;
  is_modified = λ i. true;
  dispatch = λ e. none;
  write = λ w. none;
}

abbrev failing_bus : Services
failing_bus = record open_services { dispatch = λ e. some (plain_error "handler") }

save_of_rejected_example :
    (v : Work) × (save failing_bus 0 start ≡ thrown (plain_error "handler") v)
    × (v.writes ≡ start.writes)
    × (v.items_in_transaction ≡ start.items_in_transaction)
    × (v.item 0 ≡ hooked failing_bus 0 start)
save_of_rejected_example = save_of_rejected failing_bus 0 start (plain_error "handler") refl

abbrev world : World
world = record { work = start; committed = []; sent = [] }

abbrev saves_twice : Exec Work Saved
saves_twice = do first ← save open_services 0; save open_services 0

abbrev unhandled : Event → Option Error
unhandled e = none

sent_after_commit_example :
    Aborts world (with_transaction unhandled (run_again commit) saves_twice world)
    ⊎ Commits
        (last_start saves_twice (run_again commit) world.work)
        world
        saves_twice
        (with_transaction unhandled (run_again commit) saves_twice world)
sent_after_commit_example = sent_after_commit unhandled (run_again commit) saves_twice world
