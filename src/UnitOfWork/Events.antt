-- ===== src/UnitOfWork/Events.antt =====
-- The integration events that a repository collects from its objects.
use cellixjs.Base.{ℕ, List, [], ◌∷◌, ◌++◌, ◌≡◌, refl, ap, ◌∙◌, if◌then◌else◌, Bool-cases, inl, inr}
use cellixjs.Seedwork.Aggregate.{clear_integration_events}
use cellixjs.UnitOfWork.Repository.{Event, Work, equal, assign, collect}

abbrev pub clear : ℕ → Work → Work
clear ref = assign ref (λ i. record i { root = clear_integration_events i.root })

abbrev pub without : ℕ → List ℕ → List ℕ
without r [] = []
without r (x ∷ xs) = if equal x r then without r xs else x ∷ without r xs

-- The references in the order in which each first stands in the list.
abbrev pub first_of_each : List ℕ → List ℕ
first_of_each [] = []
first_of_each (r ∷ rs) = r ∷ without r (first_of_each rs)

abbrev pub events_of : List ℕ → Work → List Event
events_of [] w = []
events_of (r ∷ rs) w = (w.item r).root.integration_events ++ events_of rs w

events_of-clear :
    (r : ℕ) (xs : List ℕ) (w : Work) → events_of xs (clear r w) ≡ events_of (without r xs) w
events_of-clear r [] w = refl
events_of-clear r (x ∷ xs) w = elim (Bool-cases (equal x r)) [
  | inl e ↦ rw e (events_of-clear r xs w)
  | inr e ↦ rw e (ap (λ es. (w.item x).root.integration_events ++ es) (events_of-clear r xs w))
]

-- `getIntegrationEvents` gives the integration events of each saved object once, in the order in
-- which the objects were first saved, also where an object was saved several times.
pub collect-events_of :
    (refs : List ℕ) (w : Work) → (collect refs w).0 ≡ events_of (first_of_each refs) w
unfolding collect
collect-events_of [] w = refl
collect-events_of (r ∷ rs) w =
    ap (λ es. (w.item r).root.integration_events ++ es)
      (collect-events_of rs (clear r w) ∙ events_of-clear r (first_of_each rs) w)

pub collect_keeps :
    (refs : List ℕ) (w : Work)
    → ((collect refs w).1.writes ≡ w.writes) × ((collect refs w).1.dispatched ≡ w.dispatched)
unfolding collect
collect_keeps [] w = (refl, refl)
collect_keeps (r ∷ rs) w = collect_keeps rs (clear r w)
