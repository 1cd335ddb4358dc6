-- ===== src/Management/Batches.antt =====
-- The bulk operations against a sequence of operations on one member.
use Prim.Native.String
use cellixjs.Base.{
  append_one, append_nil, ◌≡◌, ◌∙◌, ap, arith, Bool, not, ◌&&◌, List, [], ◌∷◌, ◌++◌, String, Exec,
  Outcome, done, thrown, state_after, leb, length, plain_error, if◌then◌else◌,
}
use cellixjs.Community.Members.State.{MemberProps}
use cellixjs.Management.Source.{Source}
use cellixjs.Management.Bulk.{Batch, attempt_each, noted, join, is_empty}

module _ (op : String → Exec Source MemberProps) where
  -- The calls of `op` one after the other, where exceptions are caught: the collection after them,
  -- what they returned, and the ids for which they threw.
  abbrev pub after_all : List String → Source → Source
  after_all [] s = s
  after_all (id ∷ ids) s = after_all ids (state_after (op id s))

  abbrev pub with_result : Outcome Source MemberProps → List MemberProps → List MemberProps
  with_result (done p s) rest = p ∷ rest
  with_result (thrown e s) rest = rest

  abbrev pub returned : List String → Source → List MemberProps
  returned [] s = []
  returned (id ∷ ids) s = with_result (op id s) (returned ids (state_after (op id s)))

  -- What each of the calls returns on the same collection.
  abbrev pub each_returned : List String → Source → List MemberProps
  each_returned [] s = []
  each_returned (id ∷ ids) s = with_result (op id s) (each_returned ids s)

  abbrev with_error : String → Outcome Source MemberProps → List String → List String
  with_error id (done p s) rest = rest
  with_error id (thrown e s) rest = id ∷ rest

  abbrev pub refused : List String → Source → List String
  refused [] s = []
  refused (id ∷ ids) s = with_error id (op id s) (refused ids (state_after (op id s)))

module _ (op : String → Exec Source MemberProps) where
  -- The loop keeps the three lists.
  pub attempt_each_all :
      (ids : List String) (b : Batch Source)
      → attempt_each op ids b ≡ record {
        state = after_all op ids b.state;
        results = b.results ++ returned op ids b.state;
        errors = b.errors ++ refused op ids b.state;
      }
  unfolding attempt_each
  attempt_each_all [] b = ground (arith, append_nil b.results, append_nil b.errors)
  attempt_each_all (id ∷ ids) b = go (op id b.state) (attempt_each_all ids)
    where
      go :
          (o : Outcome Source MemberProps)
          → ((c : Batch Source)
              → attempt_each op ids c ≡ record {
                state = after_all op ids c.state;
                results = c.results ++ returned op ids c.state;
                errors = c.errors ++ refused op ids c.state;
              })
          → attempt_each op ids (noted id b o) ≡ record {
            state = after_all op ids (state_after o);
            results = b.results ++ with_result op o (returned op ids (state_after o));
            errors = b.errors ++ with_error op id o (refused op ids (state_after o));
          }
      go (done p s) rest =
          rest (record b { state = s; results = b.results ++ p ∷ [] })
          ∙ ap
              (λ rs. record {
                state = after_all op ids s;
                results = rs;
                errors = b.errors ++ refused op ids s;
              })
              (append_one b.results p (returned op ids s))
      go (thrown e s) rest =
          rest (record b { state = s; errors = b.errors ++ id ∷ [] })
          ∙ ap
              (λ es. record {
                state = after_all op ids s;
                results = b.results ++ returned op ids s;
                errors = es;
              })
              (append_one b.errors id (refused op ids s))

-- `fails`: whether the arrays make the function throw.
abbrev pub reported :
    {A : Type 0}
    → Bool
    → String
    → (List MemberProps → A)
    → List String
    → List MemberProps
    → Source
    → Outcome Source A
reported fails prefix result errors results s =
    if fails
    then thrown (plain_error (String.◌++◌ prefix (join errors))) s
    else done (result results) s

-- At most a hundred calls of `op`, one after the other, and then the report.
abbrev pub in_sequence :
    {A : Type 0}
    → (String → Exec Source MemberProps)
    → (List String → List MemberProps → Bool)
    → String
    → (List MemberProps → A)
    → List String
    → Exec Source A
in_sequence op fails prefix result ids s =
    if leb (length ids) 100
    then reported (fails (refused op ids s) (returned op ids s)) prefix result (refused op ids s)
        (returned op ids s) (after_all op ids s)
    else thrown (plain_error "Bulk operation exceeds maximum batch size of 100") s

abbrev pub none_done : List String → List MemberProps → Bool
none_done errors results = not (is_empty errors) && is_empty results

abbrev pub some_failed : List String → List MemberProps → Bool
some_failed errors results = not (is_empty errors)
