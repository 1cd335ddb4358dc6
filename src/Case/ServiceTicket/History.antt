-- ===== src/Case/ServiceTicket/History.antt =====
-- The activity log of a service ticket over any history of calls.
use cellixjs.Base.{
  Bool, true, false, List, [], ◌∷◌, ◌++◌, ◌≡◌, refl, sym, arith, done, thrown, Error, state_after,
  if◌then◌else◌, ◌∙◌, ap, ℕ, zero, suc, String,
}
use mathlib.Core.List.{append-nil, append_assoc}
use cellixjs.Iam.Visas.{Passport}
use cellixjs.Case.Parts.{ActivityDetail, activity_type_for}
use cellixjs.Case.ServiceTicket.State.{ServiceTicketV1, status_mappings}
use cellixjs.Case.ServiceTicket.Methods.{request_delete, on_save}
use cellixjs.Case.ServiceTicket.Setters.{
  set_title, set_description, set_status, set_priority, set_community_id, set_property_id,
  set_requestor_id, set_assigned_to_id, set_service_id, set_hash, set_last_indexed,
  set_update_index_failed_date,
}
use cellixjs.Case.ServiceTicket.Commands.{
  Command, add_activity, add_status_update, add_status_transition, perform,
}
use cellixjs.Case.Log.{update_last-append}
use cellixjs.Case.ServiceTicket.Log.{
  entry, service_status_update_branches, service_transition_branches,
}

abbrev pub Extends : ServiceTicketV1 → ServiceTicketV1 → Type 0
Extends t u = (rest : List ActivityDetail) × (u.props.activity_log ≡ t.props.activity_log ++ rest)

Extends-refl : (t u : ServiceTicketV1) → u.props.activity_log ≡ t.props.activity_log → Extends t u
Extends-refl t u same = ([], same ∙ sym (append-nil t.props.activity_log))

-- A call that either extends the log or throws and changes nothing.
Extends-if :
    (t u : ServiceTicketV1) (e : Error) (test : Bool)
    → Extends t u
    → Extends t (state_after {A = Unit {0}} (if test then done tt u else thrown e t))
Extends-if t u e true h = h
Extends-if t u e false h = Extends-refl t t refl

perform-Extends :
    (passport : Passport) (c : Command) (t : ServiceTicketV1)
    → Extends t (state_after (perform passport c t))
unfolding perform set_title set_description set_status set_priority set_community_id set_property_id
    set_requestor_id set_assigned_to_id set_service_id set_hash set_last_indexed
    set_update_index_failed_date request_delete on_save
perform-Extends passport (add_status_update item description by) t =
    rw (service_status_update_branches passport item description by t)
      (Extends-if t _ _ _ (entry item "UPDATED" description by ∷ [], refl))
perform-Extends passport (add_status_transition item s description by) t =
    rw (service_transition_branches passport item s description by t) (
      Extends-if t _ _ _
        (entry item (activity_type_for status_mappings s) description by ∷ [], refl))
perform-Extends passport (add_activity item by) t = (
  record item { activity_by = by } ∷ [],
  update_last-append (λ a. record a { activity_by = by }) item t.props.activity_log,
)
perform-Extends passport c t = Extends-refl t (state_after (perform passport c t)) (ground arith)

-- A call of a method of the ticket, or of a setter of an entry that `requestNewActivityDetail` has
-- returned, which is found by its place in the log.
pub data LogCall : Type 0 where
  method : Passport → Command → LogCall
  activity_type_to activity_description_to : ℕ → String → LogCall

-- The entry at that place changes, if there is one.
abbrev pub change_entry :
    ℕ → (ActivityDetail → ActivityDetail) → List ActivityDetail → List ActivityDetail
change_entry n f [] = []
change_entry zero f (a ∷ log) = f a ∷ log
change_entry (suc n) f (a ∷ log) = a ∷ change_entry n f log

abbrev pub set_entry : ℕ → (ActivityDetail → ActivityDetail) → ServiceTicketV1 → ServiceTicketV1
set_entry n f t = record t {
  props = record t.props { activity_log = change_entry n f t.props.activity_log };
}

abbrev pub make_call : LogCall → ServiceTicketV1 → ServiceTicketV1
make_call (method passport c) t = state_after (perform passport c t)
make_call (activity_type_to n code) t = set_entry n (λ a. record a { activity_type = code }) t
make_call (activity_description_to n s) t =
    set_entry n (λ a. record a { activity_description = s }) t

unfoldable pub make_calls : List LogCall → ServiceTicketV1 → ServiceTicketV1
make_calls [] t = t
make_calls (c ∷ cs) t = make_calls cs (make_call c t)

-- The entries, by their ids, and the members that made them.
abbrev pub authors : List ActivityDetail → List (String × String)
authors [] = []
authors (a ∷ log) = (a.id, a.activity_by) ∷ authors log

authors-append : (xs ys : List ActivityDetail) → authors (xs ++ ys) ≡ authors xs ++ authors ys
authors-append [] ys = refl
authors-append (x ∷ xs) ys = ap (λ zs. (x.id, x.activity_by) ∷ zs) (authors-append xs ys)

authors_of_changed :
    (n : ℕ) (f : ActivityDetail → ActivityDetail) (log : List ActivityDetail)
    → ((a : ActivityDetail) → ((f a).id ≡ a.id) × ((f a).activity_by ≡ a.activity_by))
    → authors (change_entry n f log) ≡ authors log
authors_of_changed n f [] k = refl
authors_of_changed zero f (a ∷ log) k = ground (arith, k a)
authors_of_changed (suc n) f (a ∷ log) k =
    ap (λ zs. (a.id, a.activity_by) ∷ zs) (authors_of_changed n f log k)

abbrev pub KeepsAuthors : ServiceTicketV1 → ServiceTicketV1 → Type 0
KeepsAuthors t u =
    (rest : List (String × String)) × (authors u.props.activity_log
      ≡ authors t.props.activity_log ++ rest)

make_call-KeepsAuthors : (c : LogCall) (t : ServiceTicketV1) → KeepsAuthors t (make_call c t)
make_call-KeepsAuthors (method passport c) t =
    let (rest, e) = perform-Extends passport c t in
    (authors rest, ap authors e ∙ authors-append t.props.activity_log rest)
make_call-KeepsAuthors (activity_type_to n code) t = (
  [],
  authors_of_changed n (λ a. record a { activity_type = code }) t.props.activity_log
        (λ a. (refl, refl))
      ∙ sym (append-nil (authors t.props.activity_log)),
)
make_call-KeepsAuthors (activity_description_to n s) t = (
  [],
  authors_of_changed n (λ a. record a { activity_description = s }) t.props.activity_log
        (λ a. (refl, refl))
      ∙ sym (append-nil (authors t.props.activity_log)),
)

-- No history of calls of the methods of a service ticket and of the setters of its log entries,
-- whoever makes them, removes an entry, moves one, or changes an entry's id or the member that made
-- it: new entries come after the entries that are there.
pub make_calls-KeepsAuthors :
    (cs : List LogCall) (t : ServiceTicketV1) → KeepsAuthors t (make_calls cs t)
unfolding make_calls
make_calls-KeepsAuthors [] t = ([], sym (append-nil (authors t.props.activity_log)))
make_calls-KeepsAuthors (c ∷ cs) t =
    let (xs, p) = make_call-KeepsAuthors c t in
    let (ys, q) = make_calls-KeepsAuthors cs (make_call c t) in
    (xs ++ ys, q ∙ ap (λ zs. zs ++ ys) p ∙ append_assoc (authors t.props.activity_log) xs ys)
