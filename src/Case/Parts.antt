-- ===== src/Case/Parts.antt =====
-- What the two kinds of tickets share: entries of the activity log, the payload of their events,
-- and the tests on permissions that several methods make.
use cellixjs.Base.{
  Bool, ◌&&◌, ◌||◌, String, List, [], ◌∷◌, ◌==◌, if◌then◌else◌, lookup, Option, none, some, not,
  includes, false,
}
use cellixjs.Iam.Permissions.{CaseDomainPermissions}

-- The payload { id } of the created, updated and deleted events.
pub record IdPayload : Type 0 where
  pub id : String

-- ServiceTicketV1ActivityDetailProps and ViolationTicketV1ActivityDetailProps. The member that
-- acted is given by its id.
pub record ActivityDetail : Type 0 where
  pub id : String
  pub activity_type : String
  pub activity_description : String
  pub activity_by : String

-- A change of the item that `getNewItem` has put at the end of a PropArray.
abbrev pub update_last : {A : Type 0} → (A → A) → List A → List A
update_last f [] = []
update_last f (x ∷ []) = f x ∷ []
update_last f (x ∷ y ∷ r) = x ∷ update_last f (y ∷ r)

-- `validStatusTransitions.get(from)?.includes(to) ?? false`.
abbrev pub allows : List (String × List String) → String → String → Bool
allows table from to = elim (lookup from table) [
  | none ↦ false
  | some targets ↦ includes targets to
]

-- `statusMappings.get(status) || ActivityTypeCodes.Updated`: an empty code is falsy too.
abbrev pub activity_type_for : List (String × String) → String → String
activity_type_for mappings status = elim (lookup status mappings) [
  | none ↦ "UPDATED"
  | some code ↦ if code == "" then "UPDATED" else code
]

-- The tests that the methods hand to `determineIf`.
abbrev pub edits_own : CaseDomainPermissions → Bool
edits_own p = p.can_create_tickets && p.is_editing_own_ticket

abbrev pub works_on_assigned : CaseDomainPermissions → Bool
works_on_assigned p = p.can_work_on_tickets && p.is_editing_assigned_ticket

abbrev pub system_or_manager : CaseDomainPermissions → Bool
system_or_manager p = p.is_system_account || p.can_manage_tickets

-- `if (text)`, for a text that may be undefined.
abbrev pub given : Option String → Bool
given none = false
given (some s) = not (s == "")
