-- ===== src/Community/Search/Laws.antt =====
-- What a search specification selects, and its two forms.
use cellixjs.Base.{
  true, false, ◌||◌, String, List, Option, none, some, ◌==◌, ◌≡◌, ◌↔◌, ◌⊎◌, refl, sym, arith, any,
  or_else, if◌then◌else◌, eq_iff, eq_sound, Bool-cases, Option-cases, inl, inr,
}
use cellixjs.ValueObjects.{ValueObjects}
use cellixjs.Community.Search.{
  Searches, search_rule, StatusFilter, all, active, inactive, is_all, MemberSearchSpec, Criteria,
  QueryCriteria, Account, Candidate, is_blank, search_text, create, is_empty, display_name,
  has_term, optional_has_term, name_matches, email_matches, status_matches, role_matches, matches,
  to_query_criteria,
}

-- `create`'s argument made of what `toQueryCriteria` returns.
abbrev pub criteria_of : QueryCriteria → Criteria
criteria_of q = record {
  name = q.name_search;
  email = q.email_search;
  status = q.status_filter;
  role = q.role_filter;
}

-- A value that VOString made is taken as it is, and so is the empty text.
pub record KeepsValues (values : ValueObjects) : Type 0 where
  pub again :
      (raw value : String)
      → values.vo_string search_rule raw ≡ some value
      → values.vo_string search_rule value ≡ some value
  pub empty : values.vo_string search_rule "" ≡ some ""

search_text-again :
    (w : Searches) (keeps : KeepsValues w.values) (raw : Option String) (s : String)
    → search_text w raw ≡ some s
    → search_text w (if is_blank s then none else some s) ≡ some s
unfolding search_text
search_text-again w keeps raw s h = elim (Bool-cases (is_blank s)) [
  | inl e ↦ rw (eq_sound s "" e) keeps.empty
  | inr e ↦ rw e (keeps.again (or_else raw "") s h)
]

status-again : (s : StatusFilter) → or_else (if is_all s then none else some s) all ≡ s
status-again all = refl
status-again active = refl
status-again inactive = refl

role-again : (r : String) → or_else (if r == "all" then none else some r) "all" ≡ r
role-again r = elim (Bool-cases (r == "all")) [
  | inl e ↦ rw e (sym (eq_sound r "all" e))
  | inr e ↦ rw e refl
]

-- Where VOString takes its own values and the empty text as they are, the criteria that a created
-- specification gives for a query create the same specification again.
pub create-to_query_criteria :
    (w : Searches) (keeps : KeepsValues w.values) (c : Criteria) (spec : MemberSearchSpec)
    → create w c ≡ some spec
    → create w (criteria_of (to_query_criteria spec)) ≡ some spec
unfolding create to_query_criteria
create-to_query_criteria w keeps c spec h = elim (Option-cases (search_text w c.name)) [
  | inl e ↦ ground arith
  | inr (name, en) ↦ elim (Option-cases (search_text w c.email)) [
    | inl e ↦ ground arith
    | inr (email, ee) ↦ ground (
      arith,
      search_text-again w keeps c.name name en,
      search_text-again w keeps c.email email ee,
      status-again spec.status,
      role-again spec.role,
    )
  ]
]

-- A filter by account activity: some account is active, or none is.
abbrev pub StatusHolds : StatusFilter → List Account → Type 0
StatusHolds all accounts = Unit {0}
StatusHolds active accounts = any (λ a. a.is_active) accounts ≡ true
StatusHolds inactive accounts = any (λ a. a.is_active) accounts ≡ false

-- What the four filters ask of a member, in words.
pub record Satisfies (w : Searches) (spec : MemberSearchSpec) (m : Candidate) : Type 0 where
  pub by_name :
      (spec.name ≡ "")
      ⊎ (has_term w m.member_name spec.name
            || optional_has_term w (display_name m.profile_name) spec.name
          ≡ true)
  pub by_email :
      (spec.email ≡ "") ⊎ (any (λ a. has_term w a.email_address spec.email) m.accounts ≡ true)
  pub by_status : StatusHolds spec.status m.accounts
  pub by_role : (spec.role ≡ "all") ⊎ (m.role_id ≡ spec.role)

name_sound :
    (w : Searches) (name member_name : String) (display : Option String)
    → name_matches w name member_name display ≡ true
    → (name ≡ "") ⊎ (has_term w member_name name || optional_has_term w display name ≡ true)
unfolding name_matches
name_sound w name member_name display h = elim (Bool-cases (is_blank name)) [
  | inl e ↦ inl (eq_sound name "" e)
  | inr e ↦ inr (ground arith)
]

email_sound :
    (w : Searches) (email : String) (accounts : List Account)
    → email_matches w email accounts ≡ true
    → (email ≡ "") ⊎ (any (λ a. has_term w a.email_address email) accounts ≡ true)
unfolding email_matches
email_sound w email accounts h = elim (Bool-cases (is_blank email)) [
  | inl e ↦ inl (eq_sound email "" e)
  | inr e ↦ inr (ground arith)
]

status_iff :
    (w : Searches) (status : StatusFilter) (accounts : List Account)
    → status_matches w status accounts ≡ true ↔ StatusHolds status accounts
unfolding status_matches
status_iff w all accounts = ((λ h. tt), λ h. refl)
status_iff w active accounts = ((λ h. ground arith), λ h. ground arith)
status_iff w inactive accounts = ((λ h. ground arith), λ h. ground arith)

role_sound :
    (w : Searches) (role id : String) → role_matches w role id ≡ true → (role ≡ "all") ⊎ (id ≡ role)
unfolding role_matches
role_sound w role id h = elim (Bool-cases (role == "all")) [
  | inl e ↦ inl (eq_sound role "all" e)
  | inr e ↦ inr (eq_sound id role (ground arith))
]

name_complete :
    (w : Searches) (name member_name : String) (display : Option String)
    → (name ≡ "") ⊎ (has_term w member_name name || optional_has_term w display name ≡ true)
    → name_matches w name member_name display ≡ true
unfolding name_matches
name_complete w name member_name display h = ground (arith, eq_iff name "")

email_complete :
    (w : Searches) (email : String) (accounts : List Account)
    → (email ≡ "") ⊎ (any (λ a. has_term w a.email_address email) accounts ≡ true)
    → email_matches w email accounts ≡ true
unfolding email_matches
email_complete w email accounts h = ground (arith, eq_iff email "")

role_complete :
    (w : Searches) (role id : String) → (role ≡ "all") ⊎ (id ≡ role) → role_matches w role id ≡ true
unfolding role_matches
role_complete w role id h = ground (arith, eq_iff role "all", eq_iff id role)

-- `matches` selects exactly the members that satisfy each of the four filters that is set.
pub matches_iff :
    (w : Searches) (spec : MemberSearchSpec) (m : Candidate)
    → matches w spec m ≡ true ↔ Satisfies w spec m
unfolding matches
matches_iff w spec m = (
  (λ h. record {
    by_name = name_sound w spec.name m.member_name (display_name m.profile_name) (ground arith);
    by_email = email_sound w spec.email m.accounts (ground arith);
    by_status = (status_iff w spec.status m.accounts).0 (ground arith);
    by_role = role_sound w spec.role m.role_id (ground arith);
  }),
  λ s. rw (name_complete w spec.name m.member_name (display_name m.profile_name) s.by_name) (
      rw (email_complete w spec.email m.accounts s.by_email) (
        rw ((status_iff w spec.status m.accounts).1 s.by_status)
          (role_complete w spec.role m.role_id s.by_role))),
)

-- A specification that is empty selects every member.
pub empty_matches_all :
    (w : Searches) (spec : MemberSearchSpec) (m : Candidate)
    → is_empty spec ≡ true
    → matches w spec m ≡ true
unfolding is_empty matches name_matches email_matches status_matches role_matches
empty_matches_all w spec m h = ground arith
