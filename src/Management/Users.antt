-- ===== src/Management/Users.antt =====
-- createMember, with `memberNameExistsInCommunity` of the read repository.
use Prim.Native.String
use cellixjs.Base.{
  Error, Bool, not, ◌&&◌, String, Option, none, some, ◌==◌, Exec, ◌>>=◌, ◌>>◌, pure, throw, guard,
  plain_error, any, find, false, List,
}
use cellixjs.Seedwork.Aggregate.{new_root}
use cellixjs.UnitOfWork.Transaction.{Attempts}
use cellixjs.Community.Members.State.{Member, MemberProps}
use cellixjs.Community.Members.Methods.{get_new_instance, set_role}
use cellixjs.Management.Source.{
  Host, Source, Session, EndUserRole, changed_by, save, session_scope, transaction,
}

abbrev pub has_name : String → String → MemberProps → Bool
has_name name community p = p.community_id == community && p.member_name == name

-- The object of a new document, whose adapter has been given the community.
abbrev pub blank_member : MemberProps → String → Member
blank_member props community = record {
  root = new_root;
  props = record props { community_id = community };
  visa_community = community;
  is_new = false;
}

abbrev pub name_taken : String → Error
name_taken name = plain_error (
    String.◌++◌ "A member with the name \""
      (String.◌++◌ name "\" already exists in this community"))

abbrev pub default_found : {S : Type 0} → Option (EndUserRole × Bool) → Exec S EndUserRole
default_found none = throw (plain_error "No default role found for this community")
default_found (some (r, is_default)) = pure r

unfoldable pub new_member : Host → String → String → String → Exec Member (Unit {0})
new_member host name community role = do
  get_new_instance host.values host.passport name community
  set_role host.values host.passport role

unfoldable pub create_in : Host → String → String → String → MemberProps → Exec Session MemberProps
create_in host name community role blank = do
  m ← changed_by (new_member host name community role (blank_member blank community))
  save host m

-- `roles` are the roles of a community, each with its `isDefault`, and `blank` is the new document.
module _ (host : Host) (roles : String → List (EndUserRole × Bool)) where
  unfoldable pub create_member : Attempts → MemberProps → String → String → Exec Source MemberProps
  create_member attempts blank name community = do
    guard (λ s. not (any (has_name name community) s.members)) (name_taken name)
    role ← default_found (find (λ r. r.1) (roles community))
    transaction session_scope attempts (create_in host name community role.id blank)
