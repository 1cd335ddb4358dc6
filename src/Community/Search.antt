-- ===== src/Community/Search.antt =====
-- packages/ocom/domain/src/domain/contexts/community/member: member.search-specs.ts.
pub mod Laws
use cellixjs.Base.{
  ℕ, Bool, true, false, not, ◌&&◌, ◌||◌, String, List, Option, none, some, ◌==◌, any, or_else,
  if◌then◌else◌,
}
use cellixjs.ValueObjects.{StringRule, ValueObjects}

-- The value objects, and JavaScript's toLowerCase and includes on strings.
pub record Searches : Type 0 where
  pub values : ValueObjects
  pub to_lower_case : String → String
  pub contains : String → String → Bool

abbrev pub search_rule : StringRule
search_rule = record { trim = true; min_length = none; max_length = 200 }

pub data StatusFilter : Type 0 where
  all active inactive : StatusFilter

abbrev pub is_all : StatusFilter → Bool
is_all all = true
is_all active = false
is_all inactive = false

abbrev pub is_active_filter : StatusFilter → Bool
is_active_filter all = false
is_active_filter active = true
is_active_filter inactive = false

-- MemberSearchSpec, with the values of its MemberSearchName and MemberSearchEmail.
pub record MemberSearchSpec : Type 0 where
  pub name : String
  pub email : String
  pub status : StatusFilter
  pub role : String

-- The argument of `create`.
pub record Criteria : Type 0 where
  pub name : Option String
  pub email : Option String
  pub status : Option StatusFilter
  pub role : Option String

-- What `toQueryCriteria` returns.
pub record QueryCriteria : Type 0 where
  pub name_search : Option String
  pub email_search : Option String
  pub status_filter : Option StatusFilter
  pub role_filter : Option String

pub record Account : Type 0 where
  pub email_address : String
  pub is_active : Bool

-- The member that `matches` takes; `profile_name` is `profile?.name`.
pub record Candidate : Type 0 where
  pub member_name : String
  pub profile_name : Option String
  pub accounts : List Account
  pub role_id : String

-- `isEmpty` of the two text filters.
abbrev pub is_blank : String → Bool
is_blank s = s == ""

-- `a === b` on Booleans.
abbrev pub same : Bool → Bool → Bool
same true b = b
same false b = not b

-- `new MemberSearchName(value)` and `new MemberSearchEmail(value)`: `none` where VOString throws.
unfoldable pub search_text : Searches → Option String → Option String
search_text w value = w.values.vo_string search_rule (or_else value "")

unfoldable pub create : Searches → Criteria → Option MemberSearchSpec
create w c = elim (search_text w c.name) [
  | none ↦ none
  | some name ↦ elim (search_text w c.email) [
    | none ↦ none
    | some email ↦ some (record {
      name = name;
      email = email;
      status = or_else c.status all;
      role = or_else c.role "all";
    })
  ]
]

unfoldable pub is_empty : MemberSearchSpec → Bool
is_empty spec =
    is_blank spec.name && is_blank spec.email && is_all spec.status && spec.role == "all"

-- `profile?.name ? { profile: { displayName } } : {}`: an empty name is left out.
abbrev pub display_name : Option String → Option String
display_name none = none
display_name (some s) = if s == "" then none else some s

module _ (w : Searches) where
  abbrev pub has_term : String → String → Bool
  has_term text term = w.contains (w.to_lower_case text) (w.to_lower_case term)

  abbrev pub optional_has_term : Option String → String → Bool
  optional_has_term none term = false
  optional_has_term (some text) term = has_term text term

  unfoldable pub name_matches : String → String → Option String → Bool
  name_matches name member_name display =
      if is_blank name then true else has_term member_name name || optional_has_term display name

  unfoldable pub email_matches : String → List Account → Bool
  email_matches email accounts =
      if is_blank email then true else any (λ a. has_term a.email_address email) accounts

  unfoldable pub status_matches : StatusFilter → List Account → Bool
  status_matches status accounts =
      if is_all status
      then true
      else same (any (λ a. a.is_active) accounts) (is_active_filter status)

  unfoldable pub role_matches : String → String → Bool
  role_matches role role_id = if role == "all" then true else role_id == role

  unfoldable pub matches : MemberSearchSpec → Candidate → Bool
  matches spec m =
      if not (name_matches spec.name m.member_name (display_name m.profile_name))
      then false
      else if not (email_matches spec.email m.accounts)
      then false
      else if not (status_matches spec.status m.accounts)
      then false
      else role_matches spec.role m.role_id

unfoldable pub to_query_criteria : MemberSearchSpec → QueryCriteria
to_query_criteria spec = record {
  name_search = if is_blank spec.name then none else some spec.name;
  email_search = if is_blank spec.email then none else some spec.email;
  status_filter = if is_all spec.status then none else some spec.status;
  role_filter = if spec.role == "all" then none else some spec.role;
}
